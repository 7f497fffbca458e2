-- ===== src/Execution/Lots/Frame.antt =====
-- The tables that the lot engine does not write.
use roi_gen.Base.{ℕ, ◌≤◌, ◌≡◌, refl, Option, none, some, arith}
use roi_gen.Models.Rows.{Db}
use roi_gen.Execution.Lots.{
  LotFill, Walk, consume, settle, open_lots, start_walk, apply_fill_to_lots,
}
use roi_gen.Execution.Lots.Rounds.{walk_inv}

-- Orders, fills and positions are untouched, and keys are only handed out upwards.
pub record Untouched (old new : Db) : Type 0 where
  pub orders : new.orders ≡ old.orders
  pub fills : new.fills ≡ old.fills
  pub positions : new.positions ≡ old.positions
  pub next_id : old.next_id ≤ new.next_id

settle-Untouched :
    (a : LotFill) (s : Option ℕ) (old : Db) (w : Walk)
    → Untouched old w.db
    → Untouched old (settle a s w).1
unfolding settle
settle-Untouched a none old w h = ground (arith, h.orders, h.fills, h.positions, h.next_id)
settle-Untouched a (some s) old w h = ground (arith, h.orders, h.fills, h.positions, h.next_id)

pub apply_fill_to_lots-Untouched :
    (a : LotFill) (db : Db) → Untouched db (apply_fill_to_lots a db).1
unfolding apply_fill_to_lots start_walk
apply_fill_to_lots-Untouched a db =
    settle-Untouched a a.strategy_id db _
      (walk_inv (λ ls w. Untouched db w.db) a
        (λ l ls w h more.
          unfold consume in
          record {
            orders = h.orders;
            fills = h.fills;
            positions = h.positions;
            next_id = h.next_id;
          })
        (open_lots a db) _
        record { orders = refl; fills = refl; positions = refl; next_id = omega arith }).1
