-- ===== src/Execution/Lots/Totals.antt =====
-- Sums over the tables: no share is created or lost by a fill, and the profit that a fill reports
-- is the profit that it books.
use roi_gen.Base.{
  ℕ, ◌+◌, min, ◌≡◌, refl, sym, Option, none, some, List, ◌∷◌, ℤ, ◌+ℤ◌, int_laws, arith, ltb,
  if◌then◌else◌, ◌&&◌, All, sum_of, total_of, Distinct, ◌∙◌, subst,
}
use roi_gen.Models.Rows.{Lot, Db}
use roi_gen.Execution.Lots.{
  LotFill, Walk, consumed_lot, close_row, consume, walk, parked, new_lot, settle, open_lots,
  start_walk, apply_fill_to_lots,
}
use roi_gen.Execution.Lots.Order.{ids, open_lots-All, open_lots-Distinct}
use roi_gen.Execution.Lots.Rounds.{walk_inv, ids-put_lot}
use roi_gen.Execution.Lots.Stored.{Stored, All-Stored, Stored-put_lot, sum_of-put_lot}
use roi_gen.Execution.Lots.Validity.{LedgerIsValid}

abbrev pub open_qty : Db → ℕ
open_qty db = sum_of (λ l. l.qty_open) db.lots

abbrev pub booked_qty : Db → ℕ
booked_qty db = sum_of (λ c. c.qty) db.lot_closes

abbrev pub booked_pnl : Db → ℤ
booked_pnl db = total_of (λ c. c.realized_pnl) db.lot_closes

-- The books at any point of the loop, against those before it.
pub record Balanced (a : LotFill) (db : Db) (ls : List Lot) (w : Walk) : Type 0 where
  pub filled : w.remaining + w.qty_closed ≡ a.qty
  pub booked : booked_qty w.db ≡ booked_qty db + w.qty_closed
  pub profit : booked_pnl w.db ≡ booked_pnl db +ℤ w.realized
  pub opened : open_qty w.db + w.qty_closed ≡ open_qty db
  pub keys : Distinct (ids w.db.lots)
  pub rest_keys : Distinct (ids ls)
  pub rest_stored : All (Stored w.db.lots) ls

pub consume-Balanced :
    (a : LotFill) (db : Db) (l : Lot) (ls : List Lot) (w : Walk)
    → Balanced a db (l ∷ ls) w
    → Balanced a db ls (consume a l w)
unfolding consume
consume-Balanced a db l ls w h =
    let n = min l.qty_open w.remaining in
    record {
      filled = omega (arith, h.filled);
      booked = unfold close_row in omega (arith, h.booked);
      profit = unfold close_row in rw h.profit (omega int_laws);
      opened =
          unfold consumed_lot in
          omega (
            arith,
            h.opened,
            sum_of-put_lot (λ x. x.qty_open) (consumed_lot a l n) l w.db.lots h.keys
                h.rest_stored.0,
          );
      keys = subst Distinct (sym (ids-put_lot _ w.db.lots)) h.keys;
      rest_keys = h.rest_keys.1;
      rest_stored =
          unfold consumed_lot in
          Stored-put_lot (consumed_lot a l n) w.db.lots ls h.rest_keys.0 h.rest_stored.1;
    }

pub start-Balanced :
    (a : LotFill) (db : Db) → LedgerIsValid db → Balanced a db (open_lots a db) (start_walk a db)
unfolding start_walk
start-Balanced a db v = record {
  filled = omega arith;
  booked = omega arith;
  profit = omega int_laws;
  opened = omega arith;
  keys = v.keys;
  rest_keys = open_lots-Distinct a db v.keys;
  rest_stored = open_lots-All _ a db (All-Stored db.lots v.keys);
}

walk-Balanced :
    (a : LotFill) (db : Db)
    → LedgerIsValid db
    → (rest : List Lot) × Balanced a db rest (walk a (open_lots a db) (start_walk a db))
unfolding start_walk
walk-Balanced a db v =
    walk_inv (Balanced a db) a (λ l ls w h more. consume-Balanced a db l ls w h) (open_lots a db) _
      (start-Balanced a db v)

-- On a valid ledger the quantity of a fill is accounted for: what it closed has left the open lots
-- and stands in the new `lot_closes` rows, the rest is in a new lot or is reported as unapplied,
-- and the profit reported is the sum of the profits of the new rows.
pub apply_fill_to_lots-conserves :
    (a : LotFill) (db : Db)
    → LedgerIsValid db
    → let (r, db') = apply_fill_to_lots a db in
      (open_qty db' + r.qty_closed + r.qty_closed + r.unapplied_qty ≡ open_qty db + a.qty)
      × (booked_qty db' ≡ booked_qty db + r.qty_closed)
      × (booked_pnl db' ≡ booked_pnl db +ℤ r.realized_pnl)
unfolding apply_fill_to_lots settle new_lot
apply_fill_to_lots-conserves a db v =
    settled a.strategy_id (walk a (open_lots a db) (start_walk a db)) (walk-Balanced a db v)
  where
    settled :
        (s : Option ℕ) (w : Walk)
        → (rest : List Lot) × Balanced a db rest w
        → let (r, db') = settle a s w in
          (open_qty db' + r.qty_closed + r.qty_closed + r.unapplied_qty ≡ open_qty db + a.qty)
          × (booked_qty db' ≡ booked_qty db + r.qty_closed)
          × (booked_pnl db' ≡ booked_pnl db +ℤ r.realized_pnl)
    settled none w (rest, b) = ground (arith, b.filled, b.booked, b.profit, b.opened)
    settled (some s) w (rest, b) = ground (arith, b.filled, b.booked, b.profit, b.opened)

-- The loop writes lots and closes, and nothing else; it adds no lot.
abbrev pub Quiet : LotFill → Db → Walk → Type 0
Quiet a db w =
    (ids w.db.lots ≡ ids db.lots)
    × (w.db.event_log ≡ db.event_log)
    × (w.qty_closed + w.remaining ≡ a.qty)

pub walk-Quiet : (a : LotFill) (db : Db) → Quiet a db (walk a (open_lots a db) (start_walk a db))
unfolding start_walk
walk-Quiet a db =
    (walk_inv (λ ls w. Quiet a db w) a
      (λ l ls w h more. unfold consume in (ids-put_lot _ w.db.lots ∙ h.0, h.1, omega (arith, h.2)))
      (open_lots a db) _ (refl, refl, omega arith)).1

-- A strategy-less fill never opens a lot: the keys of the lots stay, and the remainder is
-- reported and parked in exactly one anomaly row, or in none when the caller keeps its own books
-- or nothing is left.
pub apply_fill_to_lots-strategy_less :
    (a : LotFill) (db : Db)
    → a.strategy_id ≡ none
    → let (r, db') = apply_fill_to_lots a db in
      (ids db'.lots ≡ ids db.lots)
      × (r.opened_lot_id ≡ none)
      × (r.qty_closed + r.unapplied_qty ≡ a.qty)
      × (db'.event_log ≡ (
          if ltb 0 r.unapplied_qty && a.record_unapplied
          then parked a r.unapplied_qty ∷ db.event_log
          else db.event_log))
unfolding apply_fill_to_lots settle
apply_fill_to_lots-strategy_less a db e =
    settled a.strategy_id (walk a (open_lots a db) (start_walk a db)) e (walk-Quiet a db)
  where
    settled :
        (s : Option ℕ) (w : Walk)
        → s ≡ none
        → Quiet a db w
        → let (r, db') = settle a s w in
          (ids db'.lots ≡ ids db.lots)
          × (r.opened_lot_id ≡ none)
          × (r.qty_closed + r.unapplied_qty ≡ a.qty)
          × (db'.event_log ≡ (
              if ltb 0 r.unapplied_qty && a.record_unapplied
              then parked a r.unapplied_qty ∷ db.event_log
              else db.event_log))
    settled none w e q = ground (arith, q.0, q.1, q.2)
    settled (some s) w e q = cc
