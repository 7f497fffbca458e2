-- ===== src/Risk/Entry.antt =====
-- The risk engine on the state that the provider loads: what an approval says about the tables.
use roi_gen.Base.{
  ℕ, ◌≡◌, refl, Bool, true, false, ◌&&◌, Option, some, List, [], ◌∷◌, ℤ, ◌≤ℤ◌, if◌then◌else◌, arith,
  All, All-weaken, select, sum_of, ltb, Bool-cases, inl, inr, ◌==◌,
}
use roi_gen.Models.Rows.{Lot}
use roi_gen.Risk.Controls.{SignalEvent, RiskState, RiskLimits}
use roi_gen.Risk.Engine.{RiskDecision, RiskApproval, evaluate}
use roi_gen.Risk.Verdict.{Cleared, Verdict, evaluate-Verdict, approved, rejected}
use roi_gen.Risk.State.{
  RiskTables, BrokerAccount, MarketClock, EquitySnapshot, in_symbol, load, peak_of, peak_equity,
  max_ℤ,
}

Verdict-Cleared :
    (limits : RiskLimits) (signal : SignalEvent) (state : RiskState) (o : Option RiskDecision)
    → Verdict limits signal state o
    → (d : RiskDecision) (a : RiskApproval) → o ≡ some d
    → d.approval ≡ some a
    → Cleared limits signal state
Verdict-Cleared limits signal state _ (approved approval request c p q s) d a e h = c
Verdict-Cleared limits signal state _ (rejected failed first e unmet) d a q h =
    absurd (grind (arith, q))

-- No open quantity means that every lot is empty.
open_qty-none :
    (p : Lot → Bool) (lots : List Lot)
    → sum_of Lot.qty_open (select (λ l. p l && ltb 0 l.qty_open) lots) ≡ 0
    → All (λ l. p l ≡ true → l.qty_open ≡ 0) lots
open_qty-none p [] h = tt
open_qty-none p (lot ∷ lots) h = elim (Bool-cases (p lot && ltb 0 lot.qty_open)) [
  | inl e ↦ absurd (grind (arith, e))
  | inr e ↦ (λ t. grind (arith, e), open_qty-none p lots (grind (arith, e)))
]

-- An entry is approved only where each lot that the strategy has in the symbol is fully closed.
pub evaluate-NoPyramiding :
    (et_day_start : ℕ → ℕ) (limits : RiskLimits) (signal : SignalEvent) (tables : RiskTables)
    (account : BrokerAccount) (clock : MarketClock) (halted : Bool) (id now : ℕ) (d : RiskDecision)
    (a : RiskApproval)
    → evaluate limits signal
        (load et_day_start tables account clock signal.portfolio_id signal.strategy_id signal.symbol
          halted)
        id
        now
      ≡ some d
    → d.approval ≡ some a
    → All
        (λ l.
          in_symbol signal.portfolio_id signal.strategy_id signal.symbol l ≡ true → l.qty_open ≡ 0)
        tables.lots
evaluate-NoPyramiding et_day_start limits signal tables account clock halted id now d a e h =
    let state =
      load et_day_start tables account clock signal.portfolio_id signal.strategy_id signal.symbol
        halted in
    open_qty-none (in_symbol signal.portfolio_id signal.strategy_id signal.symbol) tables.lots
      (Verdict-Cleared limits signal state (evaluate limits signal state id now)
        (evaluate-Verdict limits signal state id now) d a e h).flat

max_ℤ-left : (a b : ℤ) → a ≤ℤ max_ℤ a b
max_ℤ-left a b = ground arith

max_ℤ-right : (a b : ℤ) → b ≤ℤ max_ℤ a b
max_ℤ-right a b = ground arith

≤ℤ_trans : (a b c : ℤ) → a ≤ℤ b → b ≤ℤ c → a ≤ℤ c
≤ℤ_trans a b c h k = omega arith

peak_of-max :
    (current : ℤ) (snapshots : List EquitySnapshot)
    → (current ≤ℤ peak_of current snapshots)
      × All (λ s. s.equity ≤ℤ peak_of current snapshots) snapshots
peak_of-max current [] = (omega arith, tt)
peak_of-max current (snapshot ∷ snapshots) =
    let rest = peak_of-max current snapshots in
    let top = max_ℤ-right snapshot.equity (peak_of current snapshots) in
    (
      ≤ℤ_trans current (peak_of current snapshots)
          (max_ℤ snapshot.equity (peak_of current snapshots)) rest.0 top,
      (
        max_ℤ-left snapshot.equity (peak_of current snapshots),
        All-weaken _ _ snapshots
            (λ s b.
              ≤ℤ_trans s.equity (peak_of current snapshots)
                (max_ℤ snapshot.equity (peak_of current snapshots)) b top)
            rest.1,
      ),
    )

All-selected :
    (p : EquitySnapshot → Bool) (P : EquitySnapshot → Type 0) (rows : List EquitySnapshot)
    → All P (select p rows)
    → All (λ s. p s ≡ true → P s) rows
All-selected p P [] h = tt
All-selected p P (row ∷ rows) h = by_test (All-selected p P rows) (p row) refl h
  where
    by_test :
        (All P (select p rows) → All (λ s. p s ≡ true → P s) rows)
        → (b : Bool) → p row ≡ b
        → All P (if b then row ∷ select p rows else select p rows)
        → All (λ s. p s ≡ true → P s) (row ∷ rows)
    by_test rest true e k = (λ t. k.0, rest k.1)
    by_test rest false e k = (λ t. absurd (grind (arith, e, t)), rest k)

-- The peak is at least the current equity and each recorded equity of the portfolio.
peak_equity-max :
    (snapshots : List EquitySnapshot) (portfolio_id : ℕ) (current : ℤ)
    → (current ≤ℤ peak_equity snapshots portfolio_id current)
      × All
          (λ s.
            s.portfolio_id == portfolio_id ≡ true
            → s.equity ≤ℤ peak_equity snapshots portfolio_id current)
          snapshots
peak_equity-max snapshots portfolio_id current =
    let peak =
      peak_of-max current (select (λ s. EquitySnapshot.portfolio_id s == portfolio_id) snapshots) in
    (
      peak.0,
      All-selected (λ s. EquitySnapshot.portfolio_id s == portfolio_id)
          (λ s. s.equity ≤ℤ peak_equity snapshots portfolio_id current) snapshots peak.1,
    )
