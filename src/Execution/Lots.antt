-- ===== src/Execution/Lots.antt =====
-- The FIFO lot engine, backend/app/engine/execution/lots.py: `apply_fill_to_lots` selects the
-- open lots on the other side in FIFO order, consumes them from the front, and opens a lot with
-- the remainder or parks it.
use roi_gen.Base.{
  ℕ, ◌+◌, ◌-◌, ◌≤◌, min, Bool, true, false, ◌&&◌, Option, none, some, List, [], ◌∷◌, ℤ, pos, ◌+ℤ◌,
  ◌-ℤ◌, ◌*ℤ◌, ltb, leb, ◌==◌, if◌then◌else◌, column_is, select,
}
use roi_gen.Models.Enums.{OrderSide, EventSource, is_buy, same_side}
use roi_gen.Models.Rows.{Lot, LotClose, Event, EventLog, Db, put_lot}
pub mod Order
pub mod Rounds
pub mod Validity
pub mod Stored
pub mod Fifo
pub mod Totals
pub mod Absorbed
pub mod Frame
mod Tests

-- The keyword arguments of `apply_fill_to_lots`.
pub record LotFill : Type 0 where
  pub portfolio_id : ℕ
  pub strategy_id : Option ℕ
  pub symbol : ℕ
  pub side : OrderSide
  pub qty : ℕ
  pub price : ℤ
  pub occurred_at : ℕ
  pub order_id : Option ℕ
  pub fill_id : Option ℕ
  pub record_unapplied : Bool

pub record LotApplication : Type 0 where
  pub realized_pnl : ℤ
  pub qty_closed : ℕ
  pub lots_fully_closed : ℕ
  pub opened_lot_id : Option ℕ
  pub unapplied_qty : ℕ

abbrev pub opposite : OrderSide → OrderSide
opposite OrderSide.buy = OrderSide.sell
opposite OrderSide.sell = OrderSide.buy

-- The last condition: a strategy's own lots, or the lots that were open when the fill printed.
abbrev pub in_scope : LotFill → Option ℕ → Lot → Bool
in_scope a (some s) l = column_is l.strategy_id s
in_scope a none l = leb l.opened_at a.occurred_at

-- The `where` clause of the query.
pub matches : LotFill → Lot → Bool
matches a l =
    l.portfolio_id == a.portfolio_id
    && (l.symbol == a.symbol
        && (same_side l.side (opposite a.side) && (ltb 0 l.qty_open && in_scope a a.strategy_id l)))

-- `order_by(opened_at, created_at, id)`: whether `k` may stand before `l`.
pub before : Lot → Lot → Bool
before k l =
    if ltb k.opened_at l.opened_at
    then true
    else if ltb l.opened_at k.opened_at
    then false
    else if ltb k.created_at l.created_at
    then true
    else if ltb l.created_at k.created_at
    then false
    else leb k.id l.id

pub insert_lot : Lot → List Lot → List Lot
insert_lot l [] = l ∷ []
insert_lot l (k ∷ ks) = if before l k then l ∷ k ∷ ks else k ∷ insert_lot l ks

pub order_lots : List Lot → List Lot
unfolding insert_lot
order_lots [] = []
order_lots (l ∷ ls) = insert_lot l (order_lots ls)

pub open_lots : LotFill → Db → List Lot
unfolding order_lots
open_lots a db = order_lots (select (matches a) db.lots)

-- The variables of the consumption loop, with the session that it writes to.
pub record Walk : Type 0 where
  pub remaining : ℕ
  pub realized : ℤ
  pub qty_closed : ℕ
  pub fully_closed : ℕ
  pub db : Db

abbrev pub pnl_of : LotFill → Lot → ℕ → ℤ
pnl_of a l consumed =
    if is_buy l.side
    then (a.price -ℤ l.entry_price) *ℤ pos consumed
    else (l.entry_price -ℤ a.price) *ℤ pos consumed

-- The lot after `consumed` of it has been closed.
pub consumed_lot : LotFill → Lot → ℕ → Lot
consumed_lot a l consumed =
    let left = l.qty_open - consumed in
    record l {
      qty_open = left;
      realized_pnl = l.realized_pnl +ℤ pnl_of a l consumed;
      closed_at = if left == 0 then some a.occurred_at else l.closed_at;
    }

pub close_row : LotFill → Lot → ℕ → LotClose
close_row a l consumed = record {
  lot_id = l.id;
  order_id = a.order_id;
  fill_id = a.fill_id;
  portfolio_id = a.portfolio_id;
  strategy_id = l.strategy_id;
  symbol = a.symbol;
  qty = consumed;
  realized_pnl = pnl_of a l consumed;
  closed_at = a.occurred_at;
}

-- One round of the loop, for a positive remainder.
pub consume : LotFill → Lot → Walk → Walk
consume a l w =
    let consumed = min l.qty_open w.remaining in
    record w {
      remaining = w.remaining - consumed;
      realized = w.realized +ℤ pnl_of a l consumed;
      qty_closed = w.qty_closed + consumed;
      fully_closed = if l.qty_open - consumed == 0 then w.fully_closed + 1 else w.fully_closed;
      db = record w.db {
        lots = put_lot (consumed_lot a l consumed) w.db.lots;
        lot_closes = close_row a l consumed ∷ w.db.lot_closes;
      };
    }

pub walk : LotFill → List Lot → Walk → Walk
walk a [] w = w
walk a (l ∷ ls) w = let rest = walk a ls (consume a l w) in if leb w.remaining 0 then w else rest

pub new_lot : LotFill → ℕ → ℕ → Db → Lot
new_lot a s remaining db = record {
  id = db.next_id;
  portfolio_id = a.portfolio_id;
  strategy_id = some s;
  symbol = a.symbol;
  side = a.side;
  qty_orig = remaining;
  qty_open = remaining;
  entry_price = a.price;
  entry_fill_id = a.fill_id;
  opened_at = a.occurred_at;
  created_at = db.now;
  closed_at = none;
  realized_pnl = pos 0;
}

pub parked : LotFill → ℕ → EventLog
parked a remaining = record {
  source = EventSource.engine;
  portfolio_id = some a.portfolio_id;
  strategy_id = none;
  order_id = a.order_id;
  event =
      Event.unapplied_remainder a.portfolio_id a.symbol a.side remaining a.price a.occurred_at
        a.order_id a.fill_id none;
}

-- What follows the loop: the remainder is parked or opens a lot.
pub settle : LotFill → Option ℕ → Walk → LotApplication × Db
settle a none w =
    if ltb 0 w.remaining
    then (
      record {
        realized_pnl = w.realized;
        qty_closed = w.qty_closed;
        lots_fully_closed = w.fully_closed;
        opened_lot_id = none;
        unapplied_qty = w.remaining;
      },
      if a.record_unapplied
          then record w.db { event_log = parked a w.remaining ∷ w.db.event_log }
          else w.db,
    )
    else (
      record {
        realized_pnl = w.realized;
        qty_closed = w.qty_closed;
        lots_fully_closed = w.fully_closed;
        opened_lot_id = none;
        unapplied_qty = 0;
      },
      w.db,
    )
settle a (some s) w =
    if ltb 0 w.remaining
    then (
      record {
        realized_pnl = w.realized;
        qty_closed = w.qty_closed;
        lots_fully_closed = w.fully_closed;
        opened_lot_id = some w.db.next_id;
        unapplied_qty = 0;
      },
      record w.db { lots = new_lot a s w.remaining w.db ∷ w.db.lots; next_id = w.db.next_id + 1 },
    )
    else (
      record {
        realized_pnl = w.realized;
        qty_closed = w.qty_closed;
        lots_fully_closed = w.fully_closed;
        opened_lot_id = none;
        unapplied_qty = 0;
      },
      w.db,
    )

pub start_walk : LotFill → Db → Walk
start_walk a db = record {
  remaining = a.qty;
  realized = pos 0;
  qty_closed = 0;
  fully_closed = 0;
  db = db;
}

pub apply_fill_to_lots : LotFill → Db → LotApplication × Db
unfolding walk start_walk settle open_lots
apply_fill_to_lots a db = settle a a.strategy_id (walk a (open_lots a db) (start_walk a db))
