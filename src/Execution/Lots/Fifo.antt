-- ===== src/Execution/Lots/Fifo.antt =====
-- FIFO: how much of each selected lot a fill consumes, as a closed formula over the lots that
-- stand before it in the order of consumption.
use roi_gen.Base.{
  ℕ, ◌-◌, ◌<◌, min, ◌≡◌, some, List, [], ◌∷◌, ◌++◌, arith, leb, All, All-weaken, sum_of, Distinct,
  Bool-cases, inl, inr, ◌∙◌,
}
use roi_gen.Models.Rows.{Lot, Db}
use roi_gen.Execution.Lots.{
  LotFill, Walk, consumed_lot, consume, walk, open_lots, start_walk, apply_fill_to_lots,
}
use roi_gen.Execution.Lots.Order.{ids, open_lots-All, open_lots-Distinct}
use roi_gen.Execution.Lots.Stored.{
  get_lot, get_lot-put_lot_self, Stored, All-Stored, Stored-put_lot, walk_frame, settle_frame,
  walk-next_id,
}
use roi_gen.Execution.Lots.Validity.{LedgerIsValid}

All-middle {κ} :
    (P : Lot → Type κ) (pre : List Lot) (l : Lot) (post : List Lot)
    → All P (pre ++ (l ∷ post))
    → P l
All-middle P [] l post h = h.0
All-middle P (p ∷ pre) l post h = All-middle P pre l post h.1

-- The row of a lot after the loop, from any point of the loop.
abbrev Left : Lot → ℕ → ℕ → Db → Type 0
Left l remaining earlier db =
    (l' : Lot) × (get_lot l.id db.lots ≡ some l')
    × (l'.qty_open ≡ l.qty_open - (remaining - earlier))

walk-Left :
    (a : LotFill) (pre : List Lot) (l : Lot) (post : List Lot) (w : Walk)
    → Distinct (ids (pre ++ (l ∷ post)))
    → All (Stored w.db.lots) (pre ++ (l ∷ post))
    → Left l w.remaining (sum_of (λ x. x.qty_open) pre) (walk a (pre ++ (l ∷ post)) w).db
unfolding walk
walk-Left a [] l post w d st = elim (Bool-cases (leb w.remaining 0)) [
  | inl stop ↦ rw stop (l, st.0, ground arith)
  | inr more ↦ rw more (
    consumed_lot a l (min l.qty_open w.remaining),
    walk_frame l.id a post (consume a l w) d.0
        ∙ (unfold consume consumed_lot in get_lot-put_lot_self _ l w.db.lots st.0),
    unfold consumed_lot in omega arith,
  )
]
walk-Left a (p ∷ pre) l post w d st = elim (Bool-cases (leb w.remaining 0)) [
  | inl stop ↦ rw stop (l, All-middle _ pre l post st.1, ground arith)
  | inr more ↦ rw more (
      later (
        walk-Left a pre l post (consume a p w) d.1
          (unfold consume consumed_lot in Stored-put_lot _ w.db.lots (pre ++ (l ∷ post)) d.0 st.1)))
]
  where
    later :
        Left l
          (consume a p w).remaining
          (sum_of (λ x. x.qty_open) pre)
          (walk a (pre ++ (l ∷ post)) (consume a p w)).db
        → Left l w.remaining
            (sum_of (λ x. x.qty_open) (p ∷ pre))
            (walk a (pre ++ (l ∷ post)) (consume a p w)).db
    later (l', found, left) = (l', found, unfold consume in omega (arith, left))

-- On a valid ledger, a selected lot, with the selected lots before it in FIFO order, keeps open
-- exactly what the fill does not reach: its quantity less what is left of the fill after the
-- earlier lots.
pub apply_fill_to_lots-fifo :
    (a : LotFill) (db : Db) (pre : List Lot) (l : Lot) (post : List Lot)
    → LedgerIsValid db
    → open_lots a db ≡ pre ++ (l ∷ post)
    → (l' : Lot) × (get_lot l.id (apply_fill_to_lots a db).1.lots ≡ some l')
      × (l'.qty_open ≡ l.qty_open - (a.qty - sum_of (λ x. x.qty_open) pre))
unfolding apply_fill_to_lots start_walk
apply_fill_to_lots-fifo a db pre l post v e =
    let w = start_walk a db in
    let stored : All (Stored db.lots) (pre ++ (l ∷ post)) =
      rw (← e) (open_lots-All _ a db (All-Stored db.lots v.keys)) in
    let keys : Distinct (ids (pre ++ (l ∷ post))) = rw (← e) (open_lots-Distinct a db v.keys) in
    let known : l.id < db.next_id =
      All-middle (λ x. x.id < db.next_id) pre l post
        (rw (← e) (
          open_lots-All (λ x. x.id < db.next_id) a db
            (All-weaken _ _ db.lots (λ x h. h.numbered) v.lots_valid))) in
    let (l', found, left) = walk-Left a pre l post w keys stored in
    (
      l',
      rw e (
          settle_frame l.id a a.strategy_id (walk a (pre ++ (l ∷ post)) w)
            (rw (walk-next_id a (pre ++ (l ∷ post)) w) known)
          ∙ found),
      left,
    )
