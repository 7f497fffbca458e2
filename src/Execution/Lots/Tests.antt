-- ===== src/Execution/Lots/Tests.antt =====
-- Runs of the lot engine on a small ledger, and the theorems at those inputs.
use roi_gen.Base.{
  ℕ, ◌+◌, ◌-◌, ◌≡◌, refl, true, none, some, [], ◌∷◌, pos, negsuc, ◌+ℤ◌, ◌-ℤ◌, ◌*ℤ◌, arith, ltb,
  ◌&&◌, if◌then◌else◌, sum_of,
}
use roi_gen.Models.Enums.{OrderSide}
use roi_gen.Models.Rows.{Lot, Db}
use roi_gen.Execution.Lots.{
  LotFill, matches, before, consume, open_lots, parked, apply_fill_to_lots,
}
use roi_gen.Execution.Lots.Order.{ids}
use roi_gen.Execution.Lots.Stored.{get_lot}
use roi_gen.Execution.Lots.Fifo.{apply_fill_to_lots-fifo}
use roi_gen.Execution.Lots.Validity.{LedgerIsValid, apply_fill_to_lots-LedgerIsValid}
use roi_gen.Execution.Lots.Totals.{
  open_qty, booked_qty, booked_pnl, apply_fill_to_lots-conserves, apply_fill_to_lots-strategy_less,
}

abbrev long_lot : ℕ → ℕ → ℕ → ℕ → Lot
long_lot key strategy qty opened = record {
  id = key;
  portfolio_id = 1;
  strategy_id = some strategy;
  symbol = 9;
  side = OrderSide.buy;
  qty_orig = qty;
  qty_open = qty;
  entry_price = pos 100;
  entry_fill_id = none;
  opened_at = opened;
  created_at = opened;
  closed_at = none;
  realized_pnl = pos 0;
}

-- Two strategies hold the symbol; the older lot is second in the table.
abbrev book : Db
book = record {
  orders = [];
  fills = [];
  positions = [];
  lots = long_lot 11 7 10 50 ∷ long_lot 10 7 4 20 ∷ long_lot 12 8 5 30 ∷ [];
  lot_closes = [];
  event_log = [];
  next_id = 13;
  now = 90;
}

abbrev sale : LotFill
sale = record {
  portfolio_id = 1;
  strategy_id = some 7;
  symbol = 9;
  side = OrderSide.sell;
  qty = 6;
  price = pos 97;
  occurred_at = 80;
  order_id = none;
  fill_id = none;
  record_unapplied = true;
}

-- A liquidation of more than the account holds.
abbrev liquidation : LotFill
liquidation = record sale { strategy_id = none; qty = 30 }

sale_runs : (apply_fill_to_lots sale book).0 ≡ record {
  realized_pnl = negsuc 17;
  qty_closed = 6;
  lots_fully_closed = 1;
  opened_lot_id = none;
  unapplied_qty = 0;
}
unfolding apply_fill_to_lots ◌+ℤ◌ ◌-ℤ◌ ◌*ℤ◌ matches open_lots before consume
sale_runs = refl

book-LedgerIsValid : LedgerIsValid book
book-LedgerIsValid = ground arith

apply_fill_to_lots-LedgerIsValid_example : LedgerIsValid (apply_fill_to_lots sale book).1
apply_fill_to_lots-LedgerIsValid_example =
    apply_fill_to_lots-LedgerIsValid sale book book-LedgerIsValid

apply_fill_to_lots-fifo_example :
    (l' : Lot) × (get_lot 11 (apply_fill_to_lots sale book).1.lots ≡ some l')
    × (l'.qty_open ≡ 10 - (6 - sum_of (λ (x : Lot). x.qty_open) (long_lot 10 7 4 20 ∷ [])))
unfolding open_lots matches before
apply_fill_to_lots-fifo_example =
    apply_fill_to_lots-fifo sale book (long_lot 10 7 4 20 ∷ []) (long_lot 11 7 10 50) []
      book-LedgerIsValid refl

apply_fill_to_lots-conserves_example :
    let (r, db') = apply_fill_to_lots liquidation book in
    (open_qty db' + r.qty_closed + r.qty_closed + r.unapplied_qty ≡ open_qty book + 30)
    × (booked_qty db' ≡ booked_qty book + r.qty_closed)
    × (booked_pnl db' ≡ booked_pnl book +ℤ r.realized_pnl)
apply_fill_to_lots-conserves_example =
    apply_fill_to_lots-conserves liquidation book book-LedgerIsValid

apply_fill_to_lots-strategy_less_example :
    let (r, db') = apply_fill_to_lots liquidation book in
    (ids db'.lots ≡ ids book.lots)
    × (r.opened_lot_id ≡ none)
    × (r.qty_closed + r.unapplied_qty ≡ 30)
    × (db'.event_log
        ≡ (if ltb 0 r.unapplied_qty && true then parked liquidation r.unapplied_qty ∷ [] else []))
apply_fill_to_lots-strategy_less_example = apply_fill_to_lots-strategy_less liquidation book refl
