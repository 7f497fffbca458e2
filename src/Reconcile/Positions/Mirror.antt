-- ===== src/Reconcile/Positions/Mirror.antt =====
-- After a run the table mirrors the broker's positions.
use roi_gen.Base.{
  ◌⊎◌, ℕ, ◌≡◌, ◌≢◌, refl, ◌∙◌, true, false, not, none, List, [], ◌∷◌, ℤ, arith, ◌==◌, ==_iff, find,
  select, is_some, map, Distinct, Bool-cases, Option-cases, inl, inr,
}
use roi_gen.Models.Rows.{Position}
use roi_gen.Execution.Positions.{at_key}
use roi_gen.Reconcile.Positions.{
  PositionReport, report_for, upsert_all, has_vanished, is_suspect, reconcile_positions, shown,
}
use roi_gen.Reconcile.Positions.Upsert.{find-upsert, shown-upsert_all, unread}

at_key→eq : (p s : ℕ) (x : Position) → at_key p s x ≡ true → (x.portfolio_id ≡ p) × (x.symbol ≡ s)
at_key→eq p s x h = ground (arith, h)

at_key-stays :
    (p q s : ℕ) (bs : List PositionReport) (x : Position)
    → at_key q s x ≡ true
    → (p ≢ q) ⊎ (is_some (report_for s bs) ≡ true)
    → has_vanished p bs x ≡ false
at_key-stays p q s bs x e (inl other) =
    let (a, b) = at_key→eq q s x e in
    let no : (x.portfolio_id == p) ≡ false = ground (arith, a, other) in rw no refl
at_key-stays p q s bs x e (inr reported) =
    let (a, b) = at_key→eq q s x e in rw (b, reported) (ground arith)

vanishing :
    (p s : ℕ) (bs : List PositionReport) (x : Position)
    → report_for s bs ≡ none
    → has_vanished p bs x ≡ false
    → at_key p s x ≡ false
vanishing p s bs x h k = elim (Bool-cases (at_key p s x)) [
  | inr e ↦ e
  | inl e ↦
      let (a, b) = at_key→eq p s x e in
      let yes : has_vanished p bs x ≡ true = rw (a, b, h, (==_iff p p).1 refl) refl in
      absurd (grind (arith, yes, k))
]

kept :
    (p q s : ℕ) (bs : List PositionReport) (ps : List Position)
    → (p ≢ q) ⊎ (is_some (report_for s bs) ≡ true)
    → find (at_key q s) (select (λ x. not (has_vanished p bs x)) ps) ≡ find (at_key q s) ps
kept p q s bs [] h = refl
kept p q s bs (x ∷ ps) h = elim (Bool-cases (at_key q s x)) [
  | inl e ↦
      let stays : has_vanished p bs x ≡ false = at_key-stays p q s bs x e h in
      rw (e, stays) (rw e refl)
  | inr e ↦ elim (Bool-cases (has_vanished p bs x)) [
    | inl k ↦ rw (e, k) (kept p q s bs ps h)
    | inr k ↦ rw (e, k) (rw e (kept p q s bs ps h))
  ]
]

gone :
    (p s : ℕ) (bs : List PositionReport) (ps : List Position)
    → report_for s bs ≡ none
    → find (at_key p s) (select (λ x. not (has_vanished p bs x)) ps) ≡ none
gone p s bs [] h = refl
gone p s bs (x ∷ ps) h = elim (Bool-cases (has_vanished p bs x)) [
  | inl k ↦ rw k (gone p s bs ps h)
  | inr k ↦
      let other : at_key p s x ≡ false = vanishing p s bs x h k in rw (k, other) (gone p s bs ps h)
]

-- After a run over broker positions of distinct symbols that is not suspect, the table of the
-- portfolio shows under every symbol exactly what the broker reports, nothing where it reports
-- nothing.
pub reconcile_positions-mirror :
    (p : ℕ) (value : ℤ) (bs : List PositionReport) (ps : List Position)
    → Distinct (map (λ b. b.symbol) bs)
    → is_suspect p value bs ps ≡ false
    → (s : ℕ) → shown p s (reconcile_positions p value bs ps).1 ≡ report_for s bs
unfolding reconcile_positions
reconcile_positions-mirror p value bs ps d trusted s =
    let synced = shown-upsert_all p s ps bs ps d (unread p ps bs) in
    rw trusted (elim (Option-cases (report_for s bs)) [
      | inl e ↦ rw (gone p s bs (upsert_all p ps bs ps) e, e) refl
      | inr (b, e) ↦
          rw (kept p p s bs (upsert_all p ps bs ps) (inr (rw e refl))) (synced ∙ (rw e refl))
    ])

find-upsert_all :
    (p q s : ℕ) (before : List Position) (bs : List PositionReport) (ps : List Position)
    → p ≢ q
    → find (at_key q s) (upsert_all p before bs ps) ≡ find (at_key q s) ps
unfolding upsert_all
find-upsert_all p q s before [] ps h = refl
find-upsert_all p q s before (b ∷ bs) ps h =
    find-upsert_all p q s before bs _ h
    ∙ find-upsert p q s b (find (at_key p b.symbol) before) ps (ground (arith, h))

-- Whatever the broker reports, a run leaves the positions of every other portfolio as they were,
-- and an empty report that contradicts the market value of the account leaves every row as it was
-- and counts none as removed.
pub reconcile_positions-safe :
    (p : ℕ) (value : ℤ) (bs : List PositionReport) (ps : List Position)
    → ((q s : ℕ)
        → p ≢ q
        → find (at_key q s) (reconcile_positions p value bs ps).1 ≡ find (at_key q s) ps)
      × (is_suspect p value bs ps ≡ true → reconcile_positions p value bs ps ≡ ((0, 0), ps))
unfolding reconcile_positions upsert_all
reconcile_positions-safe p value bs ps = (
  λ q s h. elim (Bool-cases (is_suspect p value bs ps)) [
    | inl e ↦ rw e (find-upsert_all p q s ps bs ps h)
    | inr e ↦
        rw e (kept p q s bs (upsert_all p ps bs ps) (inl h) ∙ find-upsert_all p q s ps bs ps h)
  ],
  untouched bs,
)
  where
    untouched :
        (bs : List PositionReport)
        → is_suspect p value bs ps ≡ true
        → reconcile_positions p value bs ps ≡ ((0, 0), ps)
    untouched [] e = rw e refl
    untouched (b ∷ bs) e = absurd (cc e)
