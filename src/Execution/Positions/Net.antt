-- ===== src/Execution/Positions/Net.antt =====
-- The net quantity of every position over any sequence of fills, and that no flat row is kept.
use roi_gen.Base.{
  ℕ, ◌<◌, ◌≡◌, refl, sym, ap, ◌∙◌, Bool, true, false, ◌&&◌, not, Option, none, some, List, [], ◌∷◌,
  ℤ, pos, ◌+ℤ◌, ◌-ℤ◌, arith, ◌==◌, if◌then◌else◌, find, select, update_where, All, total_of,
  Bool-cases, Option-cases, inl, inr, +ℤ_zero, zero_+ℤ, +ℤ_assoc, ==_iff, All-select,
}
use roi_gen.Models.Enums.{OrderSide}
use roi_gen.Models.Rows.{Position}
use roi_gen.Execution.Positions.{
  signed_qty, at_key, is_zero, moved, apply_delta, apply_fill_to_position,
}

abbrev pub qty_or_zero : Option Position → ℤ
qty_or_zero none = pos 0
qty_or_zero (some p) = p.qty

-- The quantity that the table shows for a portfolio and a symbol; no row is a flat position.
abbrev pub net : ℕ → ℕ → List Position → ℤ
net portfolio symbol ps = qty_or_zero (find (at_key portfolio symbol) ps)

find-deleted :
    (p s : ℕ) (ps : List Position) → find (at_key p s) (select (λ x. not (at_key p s x)) ps) ≡ none
find-deleted p s [] = refl
find-deleted p s (x ∷ ps) = elim (Bool-cases (at_key p s x)) [
  | inl e ↦ rw e (find-deleted p s ps)
  | inr e ↦ rw (e, e) (find-deleted p s ps)
]

find-deleted_other :
    (p s q t : ℕ) (ps : List Position)
    → ((p == q) && (s == t)) ≡ false
    → find (at_key q t) (select (λ x. not (at_key p s x)) ps) ≡ find (at_key q t) ps
find-deleted_other p s q t [] h = refl
find-deleted_other p s q t (x ∷ ps) h = ground (arith, find-deleted_other p s q t ps h)

find-key :
    (p s : ℕ) (x : Position) (ps : List Position)
    → find (at_key p s) ps ≡ some x
    → (x.portfolio_id ≡ p) × (x.symbol ≡ s)
find-key p s x [] h = cc
find-key p s x (y ∷ ps) h = elim (Bool-cases (at_key p s y)) [
  | inl e ↦ ground (arith, h)
  | inr e ↦ find-key p s x ps (rw e at h)
]

pub find-updated :
    (p s : ℕ) (x y : Position) (ps : List Position)
    → find (at_key p s) ps ≡ some x
    → at_key p s y ≡ true
    → find (at_key p s) (update_where (at_key p s) (λ _. y) ps) ≡ some y
find-updated p s x y [] h k = cc
find-updated p s x y (z ∷ ps) h k = elim (Bool-cases (at_key p s z)) [
  | inl e ↦ rw (e, k) refl
  | inr e ↦ rw (e, e) (find-updated p s x y ps (rw e at h) k)
]

pub find-updated_other :
    (p s q t : ℕ) (y : Position) (ps : List Position)
    → ((p == q) && (s == t)) ≡ false
    → y.portfolio_id ≡ p
    → y.symbol ≡ s
    → find (at_key q t) (update_where (at_key p s) (λ _. y) ps) ≡ find (at_key q t) ps
find-updated_other p s q t y [] h a b = refl
find-updated_other p s q t y (z ∷ ps) h a b = ground (arith, find-updated_other p s q t y ps h a b)

is_zero→eq : (q : ℤ) → is_zero q ≡ true → q ≡ pos 0
is_zero→eq q h = ground arith

module _ (divide : ℤ → ℕ → ℤ) (p s : ℕ) (side : OrderSide) (qty : ℕ) (price : ℤ) where
  net-apply_self :
      (ps : List Position)
      → net p s (apply_fill_to_position divide p s side qty price ps)
        ≡ net p s ps +ℤ signed_qty side qty
  unfolding apply_fill_to_position
  net-apply_self ps = elim (Option-cases (find (at_key p s) ps)) [
    | inl absent ↦
        rw (absent, apply_delta) (rw ((==_iff p p).1 refl, (==_iff s s).1 refl) (sym (zero_+ℤ _)))
    | inr (x, e) ↦
        rw (e, apply_delta)
          (elim (Bool-cases (is_zero (x.qty +ℤ signed_qty side qty))) [
            | inl flat ↦ rw (flat, find-deleted p s ps) (sym (is_zero→eq _ flat))
            | inr open_ ↦
                rw
                  (
                    open_,
                    find-updated p s x (moved divide x (signed_qty side qty) price) ps e
                        (unfold moved in ground (arith, find-key p s x ps e)),
                  )
                  (unfold moved in refl)
          ])
  ]

  net-apply_other :
      (q t : ℕ) (ps : List Position)
      → ((p == q) && (s == t)) ≡ false
      → net q t (apply_fill_to_position divide p s side qty price ps) ≡ net q t ps
  unfolding apply_fill_to_position
  net-apply_other q t ps h = elim (Option-cases (find (at_key p s) ps)) [
    | inl absent ↦ rw (absent, apply_delta) (ground arith)
    | inr (x, e) ↦
        rw (e, apply_delta)
          (elim (Bool-cases (is_zero (x.qty +ℤ signed_qty side qty))) [
            | inl flat ↦ rw flat (ap qty_or_zero (find-deleted_other p s q t ps h))
            | inr open_ ↦ rw open_ (
                ap qty_or_zero (
                  find-updated_other p s q t (moved divide x (signed_qty side qty) price) ps h
                    (unfold moved in (find-key p s x ps e).0)
                    (unfold moved in (find-key p s x ps e).1)))
          ])
  ]

-- One fill as the tracker receives it.
pub record PositionFill : Type 0 where
  pub portfolio_id : ℕ
  pub symbol : ℕ
  pub side : OrderSide
  pub qty : ℕ
  pub price : ℤ

-- The signed quantity of a fill on one position, and nothing on any other.
abbrev pub delta_at : ℕ → ℕ → PositionFill → ℤ
delta_at q t f = if f.portfolio_id == q && f.symbol == t then signed_qty f.side f.qty else pos 0

module _ (divide : ℤ → ℕ → ℤ) where
  unfoldable pub apply_fills : List PositionFill → List Position → List Position
  apply_fills [] ps = ps
  apply_fills (f ∷ fs) ps =
      apply_fills fs (apply_fill_to_position divide f.portfolio_id f.symbol f.side f.qty f.price ps)

  net-apply :
      (q t : ℕ) (f : PositionFill) (ps : List Position)
      → net q t (apply_fill_to_position divide f.portfolio_id f.symbol f.side f.qty f.price ps)
        ≡ net q t ps +ℤ delta_at q t f
  net-apply q t f ps = elim (Bool-cases (f.portfolio_id == q && f.symbol == t)) [
    | inl e ↦
        let a : f.portfolio_id ≡ q = ground arith in
        let b : f.symbol ≡ t = ground arith in
        rw (e, ← a, ← b) (net-apply_self divide f.portfolio_id f.symbol f.side f.qty f.price ps)
    | inr e ↦ rw e (
        net-apply_other divide f.portfolio_id f.symbol f.side f.qty f.price q t ps e
        ∙ sym (+ℤ_zero _))
  ]

  -- After any sequence of fills, the quantity that the table shows for a portfolio and a symbol is
  -- the one before plus the signed quantities of the fills on that position: a missing row counts
  -- as zero, and fills on other positions change nothing.
  pub net-apply_fills :
      (q t : ℕ) (fs : List PositionFill) (ps : List Position)
      → net q t (apply_fills fs ps) ≡ net q t ps +ℤ total_of (delta_at q t) fs
  unfolding apply_fills
  net-apply_fills q t [] ps = sym (+ℤ_zero _)
  net-apply_fills q t (f ∷ fs) ps =
      net-apply_fills q t fs _
      ∙ ap (λ x. x +ℤ total_of (delta_at q t) fs) (net-apply q t f ps)
      ∙ +ℤ_assoc _ _ _

-- No row of the table is flat.
abbrev pub NoFlat : List Position → Type 0
NoFlat = All (λ x. is_zero x.qty ≡ false)

All-updated :
    (test : Position → Bool) (y : Position) (ps : List Position)
    → is_zero y.qty ≡ false
    → NoFlat ps
    → NoFlat (update_where test (λ _. y) ps)
All-updated test y [] h v = tt
All-updated test y (x ∷ ps) h v = elim (Bool-cases (test x)) [
  | inl e ↦ rw e (h, All-updated test y ps h v.1)
  | inr e ↦ rw e (v.0, All-updated test y ps h v.1)
]

module _ (divide : ℤ → ℕ → ℤ) where
  apply-NoFlat :
      (f : PositionFill) (ps : List Position)
      → 0 < f.qty
      → NoFlat ps
      → NoFlat (apply_fill_to_position divide f.portfolio_id f.symbol f.side f.qty f.price ps)
  unfolding apply_fill_to_position
  apply-NoFlat f ps h v = elim (Option-cases (find (at_key f.portfolio_id f.symbol) ps)) [
    | inl absent ↦ rw (absent, apply_delta) (signed-nonzero f.side f.qty h, v)
    | inr (x, e) ↦
        rw (e, apply_delta)
          (elim (Bool-cases (is_zero (x.qty +ℤ signed_qty f.side f.qty))) [
            | inl flat ↦ rw flat (All-select _ _ ps v)
            | inr open_ ↦ rw open_ (
                All-updated _ (moved divide x (signed_qty f.side f.qty) f.price) ps
                  (unfold moved in open_) v)
          ])
  ]
    where
      signed-nonzero : (side : OrderSide) (n : ℕ) → 0 < n → is_zero (signed_qty side n) ≡ false
      signed-nonzero side n h = unfold signed_qty ◌-ℤ◌ in ground arith

  -- A table without flat rows stays without: fills of positive quantity insert a row, change it, or
  -- delete it when the position lands exactly on zero.
  apply_fills-NoFlat :
      (fs : List PositionFill) (ps : List Position)
      → All (λ f. 0 < f.qty) fs
      → NoFlat ps
      → NoFlat (apply_fills divide fs ps)
  unfolding apply_fills
  apply_fills-NoFlat [] ps h v = v
  apply_fills-NoFlat (f ∷ fs) ps h v = apply_fills-NoFlat fs _ h.1 (apply-NoFlat f ps h.0 v)
