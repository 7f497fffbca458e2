-- ===== src/Reconcile/Remainders/Keys.antt =====
-- The anomalies of a pass are rows of their own: no key occurs twice.
use roi_gen.Base.{
  ℕ, ◌+◌, ◌≤◌, ◌≡◌, refl, Option, none, some, List, [], ◌∷◌, ◌++◌, arith, if◌then◌else◌, column_is,
  length, map, All, All-append, All-weaken, Fresh, Distinct, Bool-cases, inl, inr,
}
use roi_gen.Models.Rows.{EventLog}
use roi_gen.Execution.Lots.Absorbed.{row_id}
use roi_gen.Reconcile.Remainders.{Remainder, remainder_of, listed_remainder, anomalies}
use roi_gen.Reconcile.Remainders.Open.{remainder_of-id}

abbrev pub keys : List Remainder → List ℕ
keys = map (λ m. m.anomaly_id)

-- The newest row's key is above those of the older ones.
Newest : ℕ → Option Remainder → Type 0
Newest n found = (m : Remainder) → found ≡ some m → m.anomaly_id ≡ n + 1

Fresh-Newest :
    (n i : ℕ) (ms : List Remainder) (found : Option Remainder)
    → i ≤ n
    → Newest n found
    → Fresh i (keys ms)
    → Fresh i (keys (ms ++ listed_remainder found))
unfolding Newest
Fresh-Newest n i [] none b new h = tt
Fresh-Newest n i [] (some m) b new h = ((λ e. omega (arith, e, b, new m refl)), tt)
Fresh-Newest n i (x ∷ ms) found b new h = (h.0, Fresh-Newest n i ms found b new h.1)

Distinct-Newest :
    (n : ℕ) (ms : List Remainder) (found : Option Remainder)
    → All (λ m. m.anomaly_id ≤ n) ms
    → Newest n found
    → Distinct (keys ms)
    → Distinct (keys (ms ++ listed_remainder found))
Distinct-Newest n [] none b new h = tt
Distinct-Newest n [] (some m) b new h = (tt, tt)
Distinct-Newest n (x ∷ ms) found b new h =
    (Fresh-Newest n x.anomaly_id ms found b.0 new h.0, Distinct-Newest n ms found b.1 new h.1)

Newest-row :
    (portfolio : ℕ) (e : EventLog) (log : List EventLog)
    → Newest
        (length log)
        (if column_is e.portfolio_id portfolio then remainder_of (row_id log) e.event else none)
unfolding Newest
Newest-row portfolio e log m h = elim (Bool-cases (column_is e.portfolio_id portfolio)) [
  | inl on ↦ remainder_of-id _ e.event m (rw on at h)
  | inr off ↦ absurd (ground (arith, off, h))
]

listed-bound :
    (n : ℕ) (found : Option Remainder)
    → Newest n found
    → All (λ m. m.anomaly_id ≤ n + 1) (listed_remainder found)
unfolding Newest
listed-bound n none new = tt
listed-bound n (some m) new = (omega (arith, new m refl), tt)

anomalies-bound :
    (portfolio : ℕ) (log : List EventLog)
    → All (λ m. m.anomaly_id ≤ length log) (anomalies portfolio log)
unfolding anomalies
anomalies-bound portfolio [] = tt
anomalies-bound portfolio (e ∷ log) =
    All-append _ (anomalies portfolio log) _
      (All-weaken _ _ (anomalies portfolio log) (λ m h. omega (arith, h))
        (anomalies-bound portfolio log))
      (All-weaken _ _ (listed_remainder _) (λ m h. omega (arith, h))
        (listed-bound (length log) _ (Newest-row portfolio e log)))

pub anomalies-Distinct :
    (portfolio : ℕ) (log : List EventLog) → Distinct (keys (anomalies portfolio log))
unfolding anomalies
anomalies-Distinct portfolio [] = tt
anomalies-Distinct portfolio (e ∷ log) =
    Distinct-Newest (length log) (anomalies portfolio log) _ (anomalies-bound portfolio log)
      (Newest-row portfolio e log) (anomalies-Distinct portfolio log)
