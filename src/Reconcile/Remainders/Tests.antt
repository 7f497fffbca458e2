-- ===== src/Reconcile/Remainders/Tests.antt =====
-- A sale of 6 shares was parked before its entry of 4 was known; a second one finds nothing.
use roi_gen.Base.{ℕ, ◌≡◌, refl, none, some, [], ◌∷◌, map, pos, arith, All}
use roi_gen.Models.Enums.{OrderSide, EventSource}
use roi_gen.Models.Rows.{Event, EventLog, Db}
use roi_gen.Execution.Lots.Validity.{LedgerIsValid}
use roi_gen.Reconcile.Remainders.{anomalies, retry_unapplied_remainders}
use roi_gen.Reconcile.Remainders.Balanced.{Rebalanced}
use roi_gen.Reconcile.Remainders.Retried.{retry_unapplied_remainders-Rebalanced}
use roi_gen.Reconcile.Remainders.Accounted.{Told, retry_unapplied_remainders-Told}

abbrev parked_sale : ℕ → ℕ → EventLog
parked_sale symbol qty = record {
  source = EventSource.engine;
  portfolio_id = some 1;
  strategy_id = none;
  order_id = some 30;
  event =
      Event.unapplied_remainder 1 symbol OrderSide.sell qty (pos 120) 70 (some 30) (some 40) none;
}

abbrev late_entry : Db
late_entry = record {
  orders = [];
  fills = [];
  positions = [];
  lots =
      record {
        id = 11;
        portfolio_id = 1;
        strategy_id = some 7;
        symbol = 9;
        side = OrderSide.buy;
        qty_orig = 4;
        qty_open = 4;
        entry_price = pos 100;
        entry_fill_id = none;
        opened_at = 50;
        created_at = 50;
        closed_at = none;
        realized_pnl = pos 0;
      }
      ∷ [];
  lot_closes = [];
  event_log = parked_sale 8 5 ∷ parked_sale 9 6 ∷ [];
  next_id = 100;
  now = 80;
}

-- The oldest first, by their keys.
anomalies_test : map (λ m. m.anomaly_id) (anomalies 1 late_entry.event_log) ≡ 1 ∷ 2 ∷ []
unfolding anomalies
anomalies_test = refl

late_entry-LedgerIsValid : LedgerIsValid late_entry
late_entry-LedgerIsValid = ground arith

retry_unapplied_remainders-Rebalanced_example :
    Rebalanced late_entry (retry_unapplied_remainders 1 late_entry).1
retry_unapplied_remainders-Rebalanced_example =
    retry_unapplied_remainders-Rebalanced 1 late_entry late_entry-LedgerIsValid

retry_unapplied_remainders-Told_example :
    let log = (retry_unapplied_remainders 1 late_entry).1.event_log in
    All (λ m. Told 1 late_entry.event_log m log) (anomalies 1 late_entry.event_log)
retry_unapplied_remainders-Told_example = retry_unapplied_remainders-Told 1 late_entry
