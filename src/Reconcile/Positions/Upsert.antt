-- ===== src/Reconcile/Positions/Upsert.antt =====
-- After the rows have been written, the table shows what the broker reports under its symbols.
use roi_gen.Base.{
  subst, ℕ, ◌≡◌, refl, sym, ap, ◌∙◌, true, false, ◌&&◌, Option, none, some, List, [], ◌∷◌, arith,
  ◌==◌, ==_iff, if◌then◌else◌, find, map, All, Fresh, Distinct, Bool-cases, Option-cases, inl, inr,
}
use roi_gen.Models.Rows.{Position}
use roi_gen.Execution.Positions.{at_key}
use roi_gen.Execution.Positions.Net.{find-updated, find-updated_other}
use roi_gen.Reconcile.Positions.{
  PositionReport, report_for, position_row, upsert, upsert_all, shown,
}

abbrev pub or_else : Option PositionReport → Option PositionReport → Option PositionReport
or_else none other = other
or_else (some b) other = some b

other-key : (p s t : ℕ) → (s == t) ≡ false → ((p == p) && (s == t)) ≡ false
other-key p s t h = ground (arith, h)

shown-added :
    (p s : ℕ) (b : PositionReport) (ps : List Position)
    → shown p s (position_row p b ∷ ps) ≡ (if b.symbol == s then some b else shown p s ps)
shown-added p s b ps = elim (Bool-cases (b.symbol == s)) [
  | inl k ↦ let here : at_key p s (position_row p b) ≡ true = ground (arith, k) in rw (here, k) refl
  | inr k ↦
      let other : at_key p s (position_row p b) ≡ false = ground (arith, k) in rw (other, k) refl
]

-- A round shows the report under its symbol, where the row read before is still the row.
shown-upsert :
    (p s : ℕ) (b : PositionReport) (ps : List Position)
    → shown p s (upsert p b (find (at_key p b.symbol) ps) ps)
      ≡ (if b.symbol == s then some b else shown p s ps)
shown-upsert p s b ps = elim (Option-cases (find (at_key p b.symbol) ps)) [
  | inl e ↦ rw e (shown-added p s b ps)
  | inr (x, e) ↦ elim (Bool-cases (b.symbol == s)) [
    | inr k ↦
        rw
          (
            e,
            k,
            find-updated_other p b.symbol p s (position_row p b) ps (other-key p b.symbol s k) refl
                refl,
          )
          refl
    | inl k ↦
        let same : b.symbol ≡ s = (==_iff b.symbol s).0 k in
        rw (e, k, sym same, find-updated p b.symbol x (position_row p b) ps e (ground arith)) refl
  ]
]

-- A round does not touch another key.
pub find-upsert :
    (p q s : ℕ) (b : PositionReport) (row : Option Position) (ps : List Position)
    → ((p == q) && (b.symbol == s)) ≡ false
    → find (at_key q s) (upsert p b row ps) ≡ find (at_key q s) ps
find-upsert p q s b none ps h = rw h refl
find-upsert p q s b (some x) ps h =
    find-updated_other p b.symbol q s (position_row p b) ps h refl refl

Fresh→other :
    (s : ℕ) (bs : List PositionReport)
    → Fresh s (map (λ b. b.symbol) bs)
    → All (λ b. (s == b.symbol) ≡ false) bs
Fresh→other s [] h = tt
Fresh→other s (b ∷ bs) h = (ground (arith, h.0), Fresh→other s bs h.1)

report_for-Fresh :
    (s : ℕ) (bs : List PositionReport) → Fresh s (map (λ b. b.symbol) bs) → report_for s bs ≡ none
report_for-Fresh s [] h = refl
report_for-Fresh s (b ∷ bs) h =
    let other : (b.symbol == s) ≡ false = ground (arith, h.0) in
    rw other (report_for-Fresh s bs h.1)

-- The rows of the remaining symbols are still as they were read.
pub Unread : ℕ → List Position → List Position → List PositionReport → Type 0
Unread p before ps bs = All (λ b. find (at_key p b.symbol) before ≡ find (at_key p b.symbol) ps) bs

Unread-upsert :
    (p : ℕ) (before ps : List Position) (b : PositionReport) (row : Option Position)
    (bs : List PositionReport)
    → All (λ c. (b.symbol == c.symbol) ≡ false) bs
    → Unread p before ps bs
    → Unread p before (upsert p b row ps) bs
unfolding Unread
Unread-upsert p before ps b row [] o h = tt
Unread-upsert p before ps b row (c ∷ bs) o h = (
  h.0 ∙ sym (find-upsert p p c.symbol b row ps (other-key p b.symbol c.symbol o.0)),
  Unread-upsert p before ps b row bs o.1 h.1,
)

pub shown-upsert_all :
    (p s : ℕ) (before : List Position) (bs : List PositionReport) (ps : List Position)
    → Distinct (map (λ b. b.symbol) bs)
    → Unread p before ps bs
    → shown p s (upsert_all p before bs ps) ≡ or_else (report_for s bs) (shown p s ps)
unfolding upsert_all Unread
shown-upsert_all p s before [] ps d u = refl
shown-upsert_all p s before (b ∷ bs) ps d u =
    let row = find (at_key p b.symbol) before in
    let rest =
      shown-upsert_all p s before bs (upsert p b row ps) d.1
        (Unread-upsert p before ps b row bs (Fresh→other b.symbol bs d.0) u.1) in
    let round : shown p s (upsert p b row ps) ≡ (if b.symbol == s then some b else shown p s ps) =
      rw u.0 (shown-upsert p s b ps) in
    elim (Bool-cases (b.symbol == s)) [
      | inl k ↦
          let absent : report_for s bs ≡ none =
            report_for-Fresh s bs
              (subst (λ x. Fresh x (map (λ c. c.symbol) bs)) ((==_iff b.symbol s).0 k) d.0) in
          rw k (rest ∙ (rw absent (round ∙ (rw k refl))))
      | inr k ↦ rw k (rest ∙ ap (or_else (report_for s bs)) (round ∙ (rw k refl)))
    ]

pub unread : (p : ℕ) (ps : List Position) (bs : List PositionReport) → Unread p ps ps bs
unfolding Unread
unread p ps [] = tt
unread p ps (b ∷ bs) = (refl, unread p ps bs)
