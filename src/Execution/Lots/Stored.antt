-- ===== src/Execution/Lots/Stored.antt =====
-- Rows by key: what writing lots back leaves in the table, for the lots that are written and for
-- all others.
use roi_gen.Base.{
  ℕ, ◌+◌, ◌<◌, ◌≡◌, ◌≢◌, refl, sym, Bool, true, false, Option, none, some, List, [], ◌∷◌, arith,
  leb, ◌==◌, ==_iff, if◌then◌else◌, find, select, All, sum_of, Fresh, Distinct, Bool-cases, inl,
  inr, ◌∙◌, subst,
}
use roi_gen.Models.Rows.{Lot, Db, put_lot}
use roi_gen.Execution.Lots.{
  LotFill, Walk, matches, consumed_lot, consume, walk, new_lot, settle, open_lots, start_walk,
  apply_fill_to_lots,
}
use roi_gen.Execution.Lots.Order.{ids, Fresh-select, Fresh-order_lots}

-- The row with a key.
abbrev pub get_lot : ℕ → List Lot → Option Lot
get_lot n = find (λ x. x.id == n)

pub get_lot-put_lot_ne :
    (n : ℕ) (l : Lot) (ls : List Lot) → n ≢ l.id → get_lot n (put_lot l ls) ≡ get_lot n ls
get_lot-put_lot_ne n l [] h = refl
get_lot-put_lot_ne n l (x ∷ ls) h = ground (arith, get_lot-put_lot_ne n l ls h)

pub get_lot-put_lot_self :
    (l k : Lot) (ls : List Lot) → get_lot l.id ls ≡ some k → get_lot l.id (put_lot l ls) ≡ some l
get_lot-put_lot_self l k [] h = cc
get_lot-put_lot_self l k (x ∷ ls) h = ground (arith, get_lot-put_lot_self l k ls)

-- A lot is in the table under its key.
abbrev pub Stored : List Lot → Lot → Type 0
Stored ls l = get_lot l.id ls ≡ some l

get_lot-Fresh : (n : ℕ) (ls : List Lot) → Fresh n (ids ls) → get_lot n ls ≡ none
get_lot-Fresh n [] h = refl
get_lot-Fresh n (x ∷ ls) h = ground (arith, get_lot-Fresh n ls h.1)

Stored-later :
    (x : Lot) (ls ks : List Lot)
    → Fresh x.id (ids ks)
    → All (Stored ls) ks
    → All (Stored (x ∷ ls)) ks
Stored-later x ls [] f h = tt
Stored-later x ls (k ∷ ks) f h = (ground arith, Stored-later x ls ks f.1 h.1)

pub All-Stored : (ls : List Lot) → Distinct (ids ls) → All (Stored ls) ls
All-Stored [] h = tt
All-Stored (x ∷ ls) h = (ground arith, Stored-later x ls ls h.0 (All-Stored ls h.1))

-- Writing one lot keeps the others stored.
pub Stored-put_lot :
    (l : Lot) (ls ks : List Lot)
    → Fresh l.id (ids ks)
    → All (Stored ls) ks
    → All (Stored (put_lot l ls)) ks
Stored-put_lot l ls [] f h = tt
Stored-put_lot l ls (k ∷ ks) f h =
    (get_lot-put_lot_ne k.id l ls (λ e. f.0 (sym e)) ∙ h.0, Stored-put_lot l ls ks f.1 h.1)

-- The sum of a column, when one row is written.
pub sum_of-put_lot :
    (f : Lot → ℕ) (l k : Lot) (ls : List Lot)
    → Distinct (ids ls)
    → get_lot l.id ls ≡ some k
    → sum_of f (put_lot l ls) + f k ≡ sum_of f ls + f l
sum_of-put_lot f l k [] d h = cc
sum_of-put_lot f l k (x ∷ ls) d h = elim (Bool-cases (x.id == l.id)) [
  | inl same ↦
      let e : x.id ≡ l.id = (==_iff _ _).0 same in
      rw same (ground (arith, put_lot_fresh l ls (rw e at d.0), h))
  | inr other ↦ rw other (ground (arith, sum_of-put_lot f l k ls d.1, h))
]
  where
    put_lot_fresh : (l : Lot) (ls : List Lot) → Fresh l.id (ids ls) → put_lot l ls ≡ ls
    put_lot_fresh l [] f = refl
    put_lot_fresh l (y ∷ ys) f = ground (arith, put_lot_fresh l ys f.1)

-- The loop does not touch a row that is none of its lots.
pub walk_frame :
    (n : ℕ) (a : LotFill) (ls : List Lot) (w : Walk)
    → Fresh n (ids ls)
    → get_lot n (walk a ls w).db.lots ≡ get_lot n w.db.lots
unfolding walk
walk_frame n a [] w h = refl
walk_frame n a (l ∷ ls) w h = elim (Bool-cases (leb w.remaining 0)) [
  | inl stop ↦ rw stop refl
  | inr more ↦ rw more (
      walk_frame n a ls (consume a l w) h.1
      ∙ (unfold consume consumed_lot in get_lot-put_lot_ne n _ w.db.lots h.0))
]

pub settle_frame :
    (n : ℕ) (a : LotFill) (s : Option ℕ) (w : Walk)
    → n < w.db.next_id
    → get_lot n (settle a s w).1.lots ≡ get_lot n w.db.lots
unfolding settle new_lot
settle_frame n a none w h = ground arith
settle_frame n a (some s) w h = ground arith

pub walk-next_id :
    (a : LotFill) (ls : List Lot) (w : Walk) → (walk a ls w).db.next_id ≡ w.db.next_id
unfolding walk consume
walk-next_id a [] w = refl
walk-next_id a (l ∷ ls) w = ground (arith, walk-next_id a ls (consume a l w))

-- A stored lot that the test refuses has a key that no selected lot has.
Fresh-unselected :
    (p : Lot → Bool) (x : Lot) (ls : List Lot)
    → Distinct (ids ls)
    → Stored ls x
    → p x ≡ false
    → Fresh x.id (ids (select p ls))
Fresh-unselected p x [] d h e = tt
Fresh-unselected p x (l ∷ ls) d h e = elim (Bool-cases (l.id == x.id)) [
  | inl same ↦
      let is : l ≡ x = ground (arith, h) in
      rw (is, e) (Fresh-select p x.id ls (subst (λ (y : Lot). Fresh y.id (ids ls)) is d.0))
  | inr other ↦ elim (p l) as (λ b. Fresh x.id (ids (if b then l ∷ select p ls else select p ls))) [
    | true ↦ (ground arith, Fresh-unselected p x ls d.1 (ground (arith, h)) e)
    | false ↦ Fresh-unselected p x ls d.1 (ground (arith, h)) e
  ]
]

-- Where the keys of the lots are distinct and below the next one, a lot that the query does not
-- select, of another portfolio, symbol, side or strategy, closed, or opened after a strategy-less
-- fill printed, is left exactly as it was.
apply_fill_to_lots_frame :
    (a : LotFill) (db : Db) (x : Lot)
    → Distinct (ids db.lots)
    → Stored db.lots x
    → x.id < db.next_id
    → matches a x ≡ false
    → Stored (apply_fill_to_lots a db).1.lots x
unfolding apply_fill_to_lots start_walk
apply_fill_to_lots_frame a db x d h lt e =
    settle_frame x.id a a.strategy_id (walk a (open_lots a db) _)
      (rw (walk-next_id a (open_lots a db) _) lt)
    ∙ walk_frame x.id a (open_lots a db) _
        (unfold open_lots in Fresh-order_lots x.id _ (Fresh-unselected (matches a) x db.lots d h e))
    ∙ h
