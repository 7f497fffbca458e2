-- ===== src/Reconcile/Adopt.antt =====
-- One local order against the broker's truth: `_lookup`, `_adopt` and `_handle_unknown` of
-- backend/app/services/reconciliation.py. A row handed to them may be stale: it is read again under
-- the row lock. A raised exception is `none`.
use roi_gen.Base.{
  ℕ, ◌+◌, ◌-◌, Bool, true, false, ◌&&◌, not, Option, none, some, List, ◌∷◌, ltb, leb, ◌==◌,
  if◌then◌else◌, is_some, find, ℤ,
}
use roi_gen.Models.Enums.{OrderStatus, StatusText, known, unknown, EventSource}
use roi_gen.Models.Rows.{Order, Event, Db, put_order}
use roi_gen.Execution.State.{BrokerOrder, apply_snapshot}
use roi_gen.Execution.Synthesis.{
  applied_ledger, recorded, synthetic_fill_id, recon_tag, span_price, synthesize_span,
}
use roi_gen.Execution.TradeUpdates.{log_order}
use roi_gen.Execution.TradeUpdates.Process.{is_failed}

-- An order as the broker answers it, with its nested legs.
pub record OrderTree : Type 0 where
  pub order : BrokerOrder
  pub legs : List BrokerOrder

-- The reads that the service makes of the adapter. The outer `none` is a raised broker error.
pub record Broker : Type 0 where
  pub get_order : ℕ → Option (Option OrderTree)
  pub get_order_by_client_id : ℕ → Option (Option OrderTree)

unfoldable pub lookup : Broker → Order → Option (Option OrderTree)
lookup broker local = elim local.broker_order_id [
  | none ↦ broker.get_order_by_client_id local.client_order_id
  | some b ↦ elim (broker.get_order b) [
    | none ↦ none
    | some (some found) ↦ some (some found)
    | some none ↦ broker.get_order_by_client_id local.client_order_id
  ]
]

-- `session.refresh(local, with_for_update=True)`
unfoldable pub refresh : Order → Db → Order
refresh local db = elim (find (λ o. o.id == local.id) db.orders) [ none ↦ local | some o ↦ o ]

-- The member's place in the enumeration.
abbrev status_number : OrderStatus → ℕ
status_number OrderStatus.pending_submit = 0
status_number OrderStatus.failed = 1
status_number OrderStatus.submitted = 2
status_number OrderStatus.accepted = 3
status_number OrderStatus.partially_filled = 4
status_number OrderStatus.filled = 5
status_number OrderStatus.canceled = 6
status_number OrderStatus.expired = 7
status_number OrderStatus.rejected = 8
status_number OrderStatus.replaced = 9
status_number OrderStatus.pending_cancel = 10
status_number OrderStatus.pending_replace = 11
status_number OrderStatus.stopped = 12
status_number OrderStatus.suspended = 13
status_number OrderStatus.calculated = 14
status_number OrderStatus.done_for_day = 15
status_number OrderStatus.held = 16

abbrev pub same_status : StatusText → StatusText → Bool
same_status (known a) (known b) = status_number a == status_number b
same_status (unknown a) (unknown b) = a == b
same_status _ _ = false

abbrev same_column : Option ℕ → Option ℕ → Bool
same_column none none = true
same_column (some a) (some b) = a == b
same_column _ _ = false

-- `before != (local.status, local.filled_qty, local.broker_order_id)`
abbrev pub has_changed : Order → Order → Bool
has_changed before after = not (
    same_status before.status after.status
    && (before.filled_qty == after.filled_qty
        && same_column before.broker_order_id after.broker_order_id))

unfoldable pub revive : Order → BrokerOrder → Db → Order × Db
revive o broker db =
    if is_failed o.status
    then (
      record o { status = known OrderStatus.pending_submit },
      log_order EventSource.broker o
          (Event.reconcile_resurrected o.client_order_id broker.broker_order_id broker.status) db,
    )
    else (o, db)

-- `a or b` for an instant.
abbrev pub or_now : Option ℕ → ℕ → ℕ
or_now none now = now
or_now (some t) now = t

module _ (divide : ℤ → ℕ → ℤ) where
  -- `synthesize_span` under the tag of reconciliation, with its audit row and the count of fills.
  -- It returns no fill where the span's key is recorded.
  unfoldable pub book_span : Order → ℕ → ℤ → ℕ → Option ℕ → Db → ℕ × Db
  book_span o span_qty price occurred_at cumulative db =
      let key = synthetic_fill_id recon_tag o.id ((applied_ledger db o.id).qty + span_qty) in
      let db' = synthesize_span divide o span_qty price occurred_at recon_tag false db in
      if recorded key db.fills then (0, db') else (
        1,
        log_order EventSource.system o (Event.fill_synthesized span_qty price cumulative) db',
      )

  -- What the ledger lacks of `cum_qty`: `-` on quantities stops at 0, where the code tests
  -- `delta > 0`.
  unfoldable pub synthesize_missing : Order → ℕ → Option ℤ → ℕ → Option ℕ → Db → Option (ℕ × Db)
  synthesize_missing o cum_qty cum_avg_price occurred_at cumulative db =
      let applied = applied_ledger db o.id in
      let delta = cum_qty - applied.qty in
      if leb cum_qty applied.qty
      then some (0, db)
      else elim (span_price divide cum_qty cum_avg_price applied delta) [
        | none ↦ none
        | some price ↦ some (book_span o delta price occurred_at cumulative db)
      ]

  -- What `_adopt` returns, with the session.
  pub record Adopted : Type 0 where
    pub changed : Bool
    pub synthesized : ℕ
    pub db : Db

  abbrev pub snapshot_onto : Order → Order → BrokerOrder → ℕ × Db → Adopted
  snapshot_onto before o broker counted =
      let o' = (apply_snapshot o broker).0 in
      record {
        changed = has_changed before o';
        synthesized = counted.0;
        db = record counted.1 { orders = put_order o' counted.1.orders };
      }

  unfoldable pub adopt_locked : Order → BrokerOrder → ℕ → Bool → Db → Option Adopted
  adopt_locked local broker now synthesize_fills db =
      let revived = revive local broker db in
      if synthesize_fills
      then elim (synthesize_missing revived.0 broker.filled_qty broker.filled_avg_price
          (or_now broker.filled_at now) (some broker.filled_qty) revived.1) [
            | none ↦ none
            | some counted ↦ some (snapshot_onto local revived.0 broker counted)
          ]
      else some (snapshot_onto local revived.0 broker (0, revived.1))

  unfoldable pub adopt_truth : Order → BrokerOrder → ℕ → Bool → Db → Option Adopted
  unfolding adopt_locked refresh
  adopt_truth local broker now synthesize_fills db =
      adopt_locked (refresh local db) broker now synthesize_fills db

-- `session.add(EventLog(...))` with the portfolio of the run and no strategy.
abbrev pub log_run : EventSource → ℕ → Option ℕ → Event → Db → Db
log_run source portfolio order e db = record db {
  event_log =
      record {
        source = source;
        portfolio_id = some portfolio;
        strategy_id = none;
        order_id = order;
        event = e;
      }
      ∷ db.event_log;
}

-- 120 seconds.
abbrev pub never_submitted_grace : ℕ
never_submitted_grace = 120000000

abbrev pub awaits_submit : StatusText → Bool
awaits_submit (known OrderStatus.pending_submit) = true
awaits_submit _ = false

abbrev pub leave_missing : ℕ → Order → Db → ℕ × Db
leave_missing portfolio local db = (
  1,
  log_run EventSource.system portfolio (some local.id)
      (Event.missing_order local.client_order_id local.broker_order_id local.symbol local.status)
      db,
)

abbrev pub give_up : ℕ → Order → ℕ → Db → ℕ × Db
give_up portfolio local now db =
    let failed = record local { status = known OrderStatus.failed } in
    (
      0,
      log_run EventSource.system portfolio (some local.id)
          (Event.never_submitted local.client_order_id local.symbol (now - local.created_at))
          (record db { orders = put_order failed db.orders }),
    )

-- The condition on the row as it was read, before the lock.
abbrev pub has_aged_out : Order → ℕ → Bool
has_aged_out local now =
    awaits_submit local.status
    && (not (is_some local.broker_order_id) && ltb never_submitted_grace (now - local.created_at))

unfoldable pub handle_unknown : ℕ → Order → ℕ → Db → ℕ × Db
handle_unknown portfolio local now db =
    if has_aged_out local now
    then (let locked = refresh local db in
        if awaits_submit locked.status
        then give_up portfolio locked now db
        else leave_missing portfolio locked db)
    else leave_missing portfolio local db
