-- ===== src/Execution/Lots/Rounds.antt =====
-- The consumption loop: its invariant rule, and what one round does to the rows and the sums.
use roi_gen.Base.{◌<◌, ◌≡◌, ◌≢◌, refl, List, [], ◌∷◌, arith, leb, ◌==◌, All, Bool-cases, inl, inr}
use roi_gen.Models.Rows.{Lot, put_lot}
use roi_gen.Execution.Lots.{LotFill, Walk, consume, walk}
use roi_gen.Execution.Lots.Order.{ids}

-- What holds before the loop and is kept by each round holds after it, `break` included.
pub walk_inv {κ} :
    (P : List Lot → Walk → Type κ) (a : LotFill)
    → ((l : Lot) (ls : List Lot) (w : Walk) → P (l ∷ ls) w → 0 < w.remaining → P ls (consume a l w))
    → (ls : List Lot) (w : Walk) → P ls w
    → (rest : List Lot) × P rest (walk a ls w)
unfolding walk
walk_inv P a keep [] w h = ([], h)
walk_inv P a keep (l ∷ ls) w h = elim (Bool-cases (leb w.remaining 0)) [
  | inl stop ↦ rw stop (l ∷ ls, h)
  | inr more ↦ rw more (walk_inv P a keep ls (consume a l w) (keep l ls w h (ground arith)))
]

-- Writing a lot to its row, for a predicate that may change at the row only.
pub All-put_lot {κ μ} :
    (P : Lot → Type κ) (Q : Lot → Type μ) (l : Lot) (ls : List Lot)
    → Q l
    → ((x : Lot) → x.id ≢ l.id → P x → Q x)
    → All P ls
    → All Q (put_lot l ls)
All-put_lot P Q l [] q f h = tt
All-put_lot P Q l (x ∷ ls) q f h = elim (Bool-cases (x.id == l.id)) [
  | inl same ↦ rw same (q, All-put_lot P Q l ls q f h.1)
  | inr other ↦ rw other (f x (ground arith) h.0, All-put_lot P Q l ls q f h.1)
]

pub ids-put_lot : (l : Lot) (ls : List Lot) → ids (put_lot l ls) ≡ ids ls
ids-put_lot l [] = refl
ids-put_lot l (x ∷ ls) = ground (arith, ids-put_lot l ls)
