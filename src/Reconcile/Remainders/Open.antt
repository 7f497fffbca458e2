-- ===== src/Reconcile/Remainders/Open.antt =====
-- The anomalies that are open: which rows of the log they are, and what resolving one takes away
-- from the parked quantity.
use roi_gen.Base.{
  ℕ, ◌+◌, ◌≤◌, ◌≡◌, ◌⊎◌, refl, sym, ap, ◌∙◌, subst, true, false, ◌&&◌, Option, none, some, List, [],
  ◌∷◌, arith, ◌==◌, ==_iff, if◌then◌else◌, column_is, length, All, All-append, All-weaken,
  Bool-cases, inl, inr,
}
use mathlib.Core.Option.{some-injective}
use roi_gen.Models.Rows.{Event, EventLog}
use roi_gen.Execution.Lots.Absorbed.{
  Resolved, same_portfolio, resolve, row_id, parked_qty, open_parked,
}
use roi_gen.Reconcile.Remainders.{
  Remainder, remainder_of, listed_remainder, anomalies, has_resolution,
}

-- The row is in the log, and neither `known` nor a newer row of the log resolves it.
abbrev pub Open : ℕ → Remainder → Resolved → List EventLog → Type 0
Open portfolio m known [] = ⊥
Open portfolio m known (e ∷ log) =
    ((remainder_of (row_id log) e.event ≡ some m)
      × (e.portfolio_id ≡ some portfolio)
      × (known (some portfolio) (row_id log) ≡ false))
    ⊎ Open portfolio m (resolve e.event e.portfolio_id known) log

column_is-some : (c : Option ℕ) (v : ℕ) → column_is c v ≡ true → c ≡ some v
column_is-some none v h = absurd (cc h)
column_is-some (some k) v h = ap (λ x. some x) ((==_iff k v).0 h)

-- What the remainder holds for a fill.
abbrev pub remainder_share : ℕ → Remainder → ℕ
remainder_share n m = if column_is m.fill_id n then m.qty else 0

pub remainder_of-id :
    (i : ℕ) (e : Event) (m : Remainder) → remainder_of i e ≡ some m → m.anomaly_id ≡ i
remainder_of-id i (Event.unapplied_remainder p s side qty price at order fill sup) m h =
    ap (λ x. x.anomaly_id) (sym (some-injective _ _ h))
remainder_of-id i _ m h = absurd (cc h)

parked_qty-remainder :
    (n i : ℕ) (e : Event) (m : Remainder)
    → remainder_of i e ≡ some m
    → parked_qty n e ≡ remainder_share n m
parked_qty-remainder n i (Event.unapplied_remainder p s side qty price at order fill sup) m h =
    ap (remainder_share n) (some-injective _ _ h)
parked_qty-remainder n i _ m h = absurd (cc h)

pub Open-bound :
    (portfolio : ℕ) (m : Remainder) (known : Resolved) (log : List EventLog)
    → Open portfolio m known log
    → m.anomaly_id ≤ length log
Open-bound portfolio m known [] h = absurd h
Open-bound portfolio m known (e ∷ log) (inl h) = omega (arith, remainder_of-id _ e.event m h.0)
Open-bound portfolio m known (e ∷ log) (inr h) =
    omega (arith, Open-bound portfolio m (resolve e.event e.portfolio_id known) log h)

-- Openness reads `known` at the anomaly only.
pub Open-cong :
    (portfolio : ℕ) (m : Remainder) (known known' : Resolved) (log : List EventLog)
    → known' (some portfolio) m.anomaly_id ≡ known (some portfolio) m.anomaly_id
    → Open portfolio m known log
    → Open portfolio m known' log
Open-cong portfolio m known known' [] e h = h
Open-cong portfolio m known known' (row ∷ log) e (inl (found, own, h)) =
    let i = remainder_of-id _ row.event m found in
    inl (
      found,
      own,
      subst (λ j. known' (some portfolio) j ≡ false) i
          (e ∙ subst (λ j. known (some portfolio) j ≡ false) (sym i) h),
    )
Open-cong portfolio m known known' (row ∷ log) e (inr h) = inr (
    Open-cong portfolio m (resolve row.event row.portfolio_id known)
      (resolve row.event row.portfolio_id known') log (rw e refl) h)

-- The parked quantity reads `known` at the rows of the log only.
open_parked-cong :
    (n : ℕ) (known known' : Resolved) (log : List EventLog)
    → ((q : Option ℕ) (i : ℕ) → i ≤ length log → known q i ≡ known' q i)
    → open_parked n known log ≡ open_parked n known' log
open_parked-cong n known known' [] h = refl
open_parked-cong n known known' (e ∷ log) h =
    let rest =
      open_parked-cong n (resolve e.event e.portfolio_id known)
        (resolve e.event e.portfolio_id known') log (λ q i b. rw (h q i (omega arith)) refl) in
    rw (h e.portfolio_id (row_id log) (omega arith), rest) refl

-- The rows that `known'` resolves are those of `known` and one more.
abbrev pub OneMore : ℕ → ℕ → Resolved → Resolved → Type 0
OneMore portfolio k known known' =
    (q : Option ℕ) (i : ℕ)
    → known' q i ≡ (if k == i && same_portfolio (some portfolio) q then true else known q i)

pub open_parked-less :
    (n portfolio : ℕ) (m : Remainder) (known known' : Resolved) (log : List EventLog)
    → OneMore portfolio m.anomaly_id known known'
    → Open portfolio m known log
    → open_parked n known' log + remainder_share n m ≡ open_parked n known log
open_parked-less n portfolio m known known' [] more h = absurd h
open_parked-less n portfolio m known known' (e ∷ log) more (inl (found, own, free)) =
    let i = remainder_of-id _ e.event m found in
    let rest =
      open_parked-cong n (resolve e.event e.portfolio_id known')
        (resolve e.event e.portfolio_id known) log (λ q j b. rw (more q j) (ground (arith, i))) in
    let hit : known' e.portfolio_id (row_id log) ≡ true =
      rw own (more (some portfolio) (row_id log) ∙ ground (arith, i)) in
    let miss : known e.portfolio_id (row_id log) ≡ false = rw own free in
    rw (hit, miss) (omega (arith, rest, parked_qty-remainder n _ e.event m found))
open_parked-less n portfolio m known known' (e ∷ log) more (inr h) =
    let b = Open-bound portfolio m (resolve e.event e.portfolio_id known) log h in
    let rest =
      open_parked-less n portfolio m (resolve e.event e.portfolio_id known)
        (resolve e.event e.portfolio_id known') log (λ q i. rw (more q i) (ground arith)) h in
    let same : known' e.portfolio_id (row_id log) ≡ known e.portfolio_id (row_id log) =
      more e.portfolio_id (row_id log) ∙ ground (arith, b) in
    rw same (omega (arith, rest))

newest-found :
    (portfolio : ℕ) (e : EventLog) (log : List EventLog) (known : Resolved)
    (found : Option Remainder)
    → (if column_is e.portfolio_id portfolio then remainder_of (row_id log) e.event else none)
      ≡ found
    → All
        (λ m.
          has_resolution portfolio m.anomaly_id (e ∷ log) ≡ false
          → known (some portfolio) m.anomaly_id ≡ false
          → Open portfolio m known (e ∷ log))
        (listed_remainder found)
newest-found portfolio e log known none h = tt
newest-found portfolio e log known (some m) h =
    elim (Bool-cases (column_is e.portfolio_id portfolio)) [
      | inr off ↦ absurd (ground (arith, off, h))
      | inl on ↦
          let it : remainder_of (row_id log) e.event ≡ some m = rw on at h in
          (
            λ unresolved free. inl (
              it,
              column_is-some e.portfolio_id portfolio on,
              subst (λ i. known (some portfolio) i ≡ false) (remainder_of-id _ e.event m it) free,
            ),
            tt,
          )
    ]

-- What the pass reads as unresolved is open.
pub anomalies-Open :
    (portfolio : ℕ) (log : List EventLog) (known : Resolved)
    → All
        (λ m.
          has_resolution portfolio m.anomaly_id log ≡ false
          → known (some portfolio) m.anomaly_id ≡ false
          → Open portfolio m known log)
        (anomalies portfolio log)
unfolding anomalies
anomalies-Open portfolio [] known = tt
anomalies-Open portfolio (e ∷ log) known =
    All-append _ (anomalies portfolio log) _
      (All-weaken _ _ (anomalies portfolio log)
        (λ m h unresolved free.
          inr (h (ground (arith, unresolved)) (ground (arith, unresolved, free))))
        (anomalies-Open portfolio log (resolve e.event e.portfolio_id known)))
      (newest-found portfolio e log known _ refl)
