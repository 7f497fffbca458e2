-- ===== src/Strategy/Tests.antt =====
-- Two bars of one morning, after an entry of the day before: the theorems there.
use Prim.Native.Nat.{max}
use roi_gen.Base.{ℕ, ◌+◌, ◌/◌, ◌≤◌, ◌≡◌, refl, none, List, [], ◌∷◌, pos}
use roi_gen.Strategy.Probe.{EtClock, Bar, Probe, on_bar}
use roi_gen.Strategy.Probe.Bounded.{emitted, emitted-bound}

abbrev clock : ℕ → EtClock
clock t = record { date = t / 1000; weekday = 1; hour = 10; minute = 0 }

abbrev day_start : ℕ → ℕ
day_start t = t / 1000

abbrev probe : Probe
probe = record {
  strategy_id = 7;
  portfolio_id = 1;
  symbols = 9 ∷ [];
  stop_pct = pos 5000;
  take_profit_pct = none;
  max_entries_per_session = 1;
}

abbrev bars : List (ℕ × Bar)
bars =
    (1, record { symbol = 9; timestamp = 5010; close = pos 100000000 })
    ∷ (2, record { symbol = 9; timestamp = 5020; close = pos 101000000 })
    ∷ []

-- One signal for the two bars.
emitted_test : emitted clock day_start probe none 9 5 5 bars [] ≡ 1
unfolding emitted on_bar
emitted_test = refl

emitted-bound_example : emitted clock day_start probe none 9 5 5 bars [] + 0 ≤ max 1 0
emitted-bound_example =
    emitted-bound clock day_start probe none 9 5 5 bars [] ((refl, refl), ((refl, refl), tt))
