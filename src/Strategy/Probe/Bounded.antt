-- ===== src/Strategy/Probe/Bounded.antt =====
-- The session bound of the probe: entries per symbol and day.
use Prim.Native.Nat.{max}
use roi_gen.Base.{
  ℕ, ◌+◌, ◌≤◌, ◌<◌, ◌≡◌, refl, sym, ◌∙◌, true, false, ◌&&◌, Option, none, some, List, [], ◌∷◌,
  arith, length, select, leb, ◌==◌, ==_iff, if◌then◌else◌, any, Bool-cases, All, inl, inr, subst,
}
use roi_gen.Models.Rows.{Order}
use roi_gen.Risk.Controls.{SignalEvent}
use roi_gen.Strategy.Probe.{
  EtClock, Bar, Probe, DayState, in_rth, is_entry, entry_signal, entries_already_today, state_for,
  day_state, emit_if_room, on_bar,
}

-- The signals for a symbol.
abbrev pub is_for : ℕ → Option SignalEvent → ℕ
is_for s none = 0
is_for s (some signal) = if signal.symbol == s then 1 else 0

module _ (et : ℕ → EtClock) (et_day_start : ℕ → ℕ) (p : Probe) (orders : Option (List Order))
    (s day start : ℕ) where
  -- The entries that the orders show since the start of the day.
  abbrev pub seeded : Option (List Order) → ℕ
  seeded none = 0
  seeded (some rows) = length (select (is_entry p s start) rows)

  -- The entries of the day so far: those counted in memory, or else those that the orders show.
  abbrev pub counted_in : Option DayState → ℕ
  counted_in none = seeded orders
  counted_in (some d) = if d.et_date == day then d.entries else seeded orders

  abbrev pub counted : List DayState → ℕ
  counted days = counted_in (state_for et et_day_start s days)

  -- Bars one after another, each with the id of its signal: how many signals are for the symbol.
  unfoldable pub emitted : List (ℕ × Bar) → List DayState → ℕ
  emitted [] days = 0
  emitted ((id, bar) ∷ bars) days =
      let (signal, days') = on_bar et et_day_start p orders id bar days in
      is_for s signal + emitted bars days'

  -- One bar counts what it emits, and emits only below the bound.
  record Counts (signal : Option SignalEvent) (old new : List DayState) : Type 0 where
    grown : is_for s signal + counted old ≤ counted new
    bounded : is_for s signal ≡ 1 → counted new ≤ p.max_entries_per_session

  -- A bar of the day.
  abbrev pub OnDay : Bar → Type 0
  OnDay bar = ((et bar.timestamp).date ≡ day) × (et_day_start bar.timestamp ≡ start)

  entries_already_today-seeded :
      (rows : Option (List Order)) (bar : Bar)
      → bar.symbol ≡ s
      → et_day_start bar.timestamp ≡ start
      → entries_already_today et et_day_start p rows bar.symbol bar.timestamp ≡ seeded rows
  entries_already_today-seeded none bar mine same = refl
  entries_already_today-seeded (some rows) bar mine same = rw (mine, same) refl

  seeded_above :
      (bar : Bar) (cached : Option DayState)
      → OnDay bar
      → bar.symbol ≡ s
      → let d = day_state et et_day_start p orders bar cached in
        (counted_in cached ≡ d.entries) × (d.et_date ≡ day)
  unfolding day_state
  seeded_above bar none on mine = (sym (entries_already_today-seeded orders bar mine on.1), on.0)
  seeded_above bar (some d) on mine = elim (Bool-cases (d.et_date == (et bar.timestamp).date)) [
    | inl e ↦
        let today : d.et_date ≡ day = (==_iff d.et_date (et bar.timestamp).date).0 e ∙ on.0 in
        rw (e, (==_iff d.et_date day).1 today) (refl, today)
    | inr e ↦
        let stale : (d.et_date == day) ≡ false = subst (λ x. (d.et_date == x) ≡ false) on.0 e in
        rw (e, stale) (sym (entries_already_today-seeded orders bar mine on.1), on.0)
  ]

  counted-added :
      (d : DayState) (days : List DayState)
      → d.symbol ≡ s
      → d.et_date ≡ day
      → counted (d ∷ days) ≡ d.entries
  counted-added d days mine today =
      let a : (d.symbol == s) ≡ true = (==_iff d.symbol s).1 mine in
      let b : (d.et_date == day) ≡ true = (==_iff d.et_date day).1 today in rw (a, b) refl

  emit_if_room-Counts :
      (id : ℕ) (bar : Bar) (d : DayState) (days : List DayState)
      → bar.symbol ≡ s
      → counted days ≤ d.entries
      → d.et_date ≡ day
      → let (signal, new) = emit_if_room et et_day_start p id bar d days in Counts signal days new
  emit_if_room-Counts id bar d days mine le today =
      elim (Bool-cases (leb p.max_entries_per_session d.entries)) [
        | inl full ↦
            let added = counted-added (record d { symbol = bar.symbol }) days mine today in
            rw full (record {
              grown = omega (arith, added, le);
              bounded = λ h. absurd (omega (arith, h));
            })
        | inr room ↦
            let spent = record d { symbol = bar.symbol; entries = d.entries + 1 } in
            let added = counted-added spent days mine today in
            let own : is_for s (some (entry_signal p id bar)) ≡ 1 =
              rw ((==_iff bar.symbol s).1 mine) refl in
            let below : d.entries < p.max_entries_per_session = ground (arith, room) in
            rw room (record {
              grown = omega (arith, added, own, le);
              bounded = λ h. omega (arith, added, below);
            })
      ]

  other-Counts :
      (id : ℕ) (bar : Bar) (d : DayState) (days : List DayState)
      → (bar.symbol == s) ≡ false
      → let (signal, new) = emit_if_room et et_day_start p id bar d days in Counts signal days new
  other-Counts id bar d days other = elim (Bool-cases (leb p.max_entries_per_session d.entries)) [
    | inl full ↦
        let same : counted (record d { symbol = bar.symbol } ∷ days) ≡ counted days =
          rw other refl in
        rw full (record { grown = omega (arith, same); bounded = λ h. absurd (omega (arith, h)) })
    | inr room ↦
        let spent = record d { symbol = bar.symbol; entries = d.entries + 1 } in
        let same : counted (spent ∷ days) ≡ counted days = rw other refl in
        let foreign : is_for s (some (entry_signal p id bar)) ≡ 0 = rw other refl in
        rw room (record {
          grown = omega (arith, same, foreign);
          bounded = λ h. absurd (omega (arith, h, foreign));
        })
  ]

  on_bar-Counts :
      (id : ℕ) (bar : Bar) (days : List DayState)
      → OnDay bar
      → let (signal, new) = on_bar et et_day_start p orders id bar days in Counts signal days new
  unfolding on_bar
  on_bar-Counts id bar days same =
      let d = day_state et et_day_start p orders bar (state_for et et_day_start bar.symbol days) in
      elim (Bool-cases (any (λ x. x == bar.symbol) p.symbols && in_rth (et bar.timestamp))) [
        | inr skip ↦
            rw skip (record { grown = omega arith; bounded = λ h. absurd (omega (arith, h)) })
        | inl go ↦ elim (Bool-cases (bar.symbol == s)) [
          | inr other ↦ rw go (other-Counts id bar d days other)
          | inl eq ↦
              let mine : bar.symbol ≡ s = (==_iff bar.symbol s).0 eq in
              let seed = seeded_above bar (state_for et et_day_start bar.symbol days) same mine in
              let own : counted days ≡ d.entries =
                subst (λ x. counted_in (state_for et et_day_start x days) ≡ d.entries) mine
                  seed.0 in
              let le : counted days ≤ d.entries = omega (arith, own) in
              rw go (emit_if_room-Counts id bar d days mine le seed.1)
        ]
      ]

  -- Over any bars of one day in New York, the signals for a symbol and the entries of the day before
  -- them, counted in memory or, after a restart, in the orders, are no more than the bound, or than
  -- those entries alone where they pass it, whatever the hours, the order and the other symbols of
  -- the bars.
  pub emitted-bound :
      (bars : List (ℕ × Bar)) (days : List DayState)
      → All (λ b. OnDay b.1) bars
      → emitted bars days + counted days ≤ max p.max_entries_per_session (counted days)
  unfolding emitted
  emitted-bound [] days h = omega arith
  emitted-bound ((id, bar) ∷ bars) days h =
      let step = on_bar-Counts id bar days h.0 in
      let days' = (on_bar et et_day_start p orders id bar days).1 in
      let rest = emitted-bound bars days' h.1 in ground (arith, step.grown, step.bounded, rest)
