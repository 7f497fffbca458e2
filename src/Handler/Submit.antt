-- ===== src/Handler/Submit.antt =====
-- One order from its pending row to the broker's answer: `_persist_pending`, `_submit_and_apply` and
-- what they call in backend/app/engine/execution/handler.py. What the broker answers is an
-- argument, and so is what other writers commit between the commit of the pending row and the lock
-- on it. An audit row that fails to commit is not modelled.
use roi_gen.Base.{
  ℕ, ◌+◌, ◌*◌, Bool, true, false, ◌&&◌, Option, none, some, List, [], ◌∷◌, ℤ, pos_part, ◌==◌,
  if◌then◌else◌, find, any,
}
use roi_gen.Models.Enums.{OrderStatus, StatusText, known, EventSource, TransitionPlan}
use roi_gen.Models.Rows.{Order, ApprovalPayload, Event, Db, put_order, has_unique_ids}
use roi_gen.Execution.State.{apply_snapshot}
use roi_gen.Execution.Legs.{persist_bracket_legs}
use roi_gen.Execution.TradeUpdates.Process.{is_bracket}
use roi_gen.Risk.Request.{OrderRequest}
use roi_gen.Reconcile.Adopt.{OrderTree}
pub mod Calls
pub mod Settles

-- A call of `submit_order`, with the database as it was committed when the call was made.
pub record Submission : Type 0 where
  pub request : OrderRequest
  pub committed : Db

-- The database, and the calls that were made of the broker, newest first.
pub record World : Type 0 where
  pub db : Db
  pub submissions : List Submission
  pub canceled : List ℕ

-- The return of `submit_order`, or the exception that it raises.
pub data SubmitAnswer : Type 0 where
  accepted : OrderTree → SubmitAnswer
  order_rejected : (retryable_held_qty : Bool) → SubmitAnswer
  rate_limited ambiguous_state unexpected : SubmitAnswer

-- What the broker answers to one submission: `submit_order`, `get_order_by_client_id` after each of
-- the resolve delays, `get_order` for the legs; an outer `none` is an exception.
pub record Replies : Type 0 where
  pub submit : SubmitAnswer
  pub lookups : List (Option (Option OrderTree))
  pub nested : Option (Option OrderTree)
  pub meanwhile : Db → Db

pub record SubmitIdentity : Type 0 where
  pub client_order_id : ℕ
  pub portfolio_id : ℕ
  pub strategy_id : Option ℕ

-- An audit row on a fresh session.
abbrev pub audit : ℕ → Option ℕ → Option ℕ → Event → Db → Db
audit portfolio strategy order e db = record db {
  event_log =
      record {
        source = EventSource.engine;
        portfolio_id = some portfolio;
        strategy_id = strategy;
        order_id = order;
        event = e;
      }
      ∷ db.event_log;
}

abbrev pub price_column : Option ℤ → Option ℕ
price_column none = none
price_column (some price) = some (pos_part price)

-- A unit of the request's quantity is `unit` times 10^-9 of a share.
abbrev pub pending_row : OrderRequest → ℕ → ℕ → SubmitIdentity → ApprovalPayload → Db → Order
pending_row req qty unit identity approval db = record {
  id = db.next_id;
  client_order_id = req.client_order_id;
  broker_order_id = none;
  portfolio_id = identity.portfolio_id;
  strategy_id = identity.strategy_id;
  symbol = req.symbol;
  side = req.side;
  order_type = req.order_type;
  order_class = req.order_class;
  time_in_force = req.time_in_force;
  status = known OrderStatus.pending_submit;
  qty = qty * unit;
  filled_qty = 0;
  limit_price = price_column req.limit_price;
  stop_price = price_column req.stop_loss_stop_price;
  filled_avg_price = none;
  extended_hours = req.extended_hours;
  parent_order_id = none;
  submitted_at = none;
  filled_at = none;
  canceled_at = none;
  raw = none;
  risk_approval = some approval;
  created_at = db.now;
}

abbrev pub has_client_id : ℕ → Order → Bool
has_client_id c o = o.client_order_id == c

-- A request without a quantity raises, and so does a client id that the table holds.
unfoldable pub persist_pending :
    OrderRequest → ℕ → SubmitIdentity → ApprovalPayload → Db → Option (Order × Db)
persist_pending req unit identity approval db = elim req.qty [
  | none ↦ none
  | some qty ↦
      if any (has_client_id req.client_order_id) db.orders
      then none
      else some (
        pending_row req (pos_part qty) unit identity approval db,
        record db {
          orders = pending_row req (pos_part qty) unit identity approval db ∷ db.orders;
          next_id = db.next_id + 1;
        },
      )
]

abbrev pub lock_order_by_client_id : ℕ → Db → Option Order
lock_order_by_client_id c db = find (has_client_id c) db.orders

-- Whether a call raised, and the world that it leaves.
pub record Ended : Type 0 where
  pub raised : Bool
  pub world : World

abbrev pub commit : World → Db → Ended
commit w db = record { raised = false; world = record w { db = db } }

-- The transaction is rolled back.
abbrev pub abort : World → Ended
abort w = record { raised = true; world = w }

-- `session.commit()` after rows of orders were added.
abbrev pub commit_orders : World → Db → Ended
commit_orders w db = if has_unique_ids db.orders then commit w db else abort w

abbrev pub no_legs : OrderTree → Bool
no_legs t = elim t.legs [ [] ↦ true | leg ∷ legs ↦ false ]

-- The re-read where a bracket came without legs.
abbrev pub fetch_nested : OrderTree → Option (Option OrderTree) → Option OrderTree
fetch_nested t none = none
fetch_nested t (some none) = some t
fetch_nested t (some (some nested)) = some nested

abbrev pub with_legs : OrderTree → Option (Option OrderTree) → Option OrderTree
with_legs t nested =
    if no_legs t && is_bracket t.order.order_class then fetch_nested t nested else some t

abbrev pub submitted_event : Order → ℕ → TransitionPlan → Event
submitted_event o created plan =
    Event.order_submitted o.client_order_id o.broker_order_id o.status plan created

pub adopt_submitted : SubmitIdentity → Order → OrderTree → Db → Db
adopt_submitted identity locked t db =
    let (o, plan) = apply_snapshot locked t.order in
    let (db', created) =
      persist_bracket_legs o t.legs (record db { orders = put_order o db.orders }) in
    audit identity.portfolio_id identity.strategy_id (some o.id) (submitted_event o created plan)
      db'

pub apply_submit_result : SubmitIdentity → OrderTree → Option (Option OrderTree) → World → Ended
unfolding adopt_submitted
apply_submit_result identity t nested w =
    elim (lock_order_by_client_id identity.client_order_id w.db) [
      | none ↦ abort w
      | some locked ↦ elim (with_legs t nested) [
        | none ↦ abort w
        | some t' ↦ commit_orders w (adopt_submitted identity locked t' w.db)
      ]
    ]

abbrev pub audit_resolved : SubmitIdentity → ℕ → OrderTree → Ended → Ended
audit_resolved identity order t e =
    if e.raised
    then e
    else commit e.world (
        audit identity.portfolio_id identity.strategy_id (some order)
          (Event.submit_ambiguous_resolved identity.client_order_id t.order.broker_order_id
            t.order.status)
          e.world.db)

-- One round for each resolve delay, until the broker knows the order.
pub resolve_ambiguous :
    SubmitIdentity
    → ℕ
    → List (Option (Option OrderTree))
    → Option (Option OrderTree)
    → World
    → Ended
unfolding apply_submit_result
resolve_ambiguous identity order [] nested w = commit w (
    audit identity.portfolio_id identity.strategy_id (some order)
      (Event.submit_ambiguous identity.client_order_id) w.db)
resolve_ambiguous identity order (none ∷ rest) nested w = abort w
resolve_ambiguous identity order (some none ∷ rest) nested w =
    resolve_ambiguous identity order rest nested w
resolve_ambiguous identity order (some (some found) ∷ rest) nested w =
    audit_resolved identity order found (apply_submit_result identity found nested w)

pub mark_terminal : SubmitIdentity → OrderStatus → Event → World → Ended
mark_terminal identity status e w = elim (lock_order_by_client_id identity.client_order_id w.db) [
  | none ↦ abort w
  | some locked ↦ commit w (
      audit identity.portfolio_id identity.strategy_id (some locked.id) e
        (record w.db { orders = put_order (record locked { status = known status }) w.db.orders }))
]

-- By the answer to the submission.
pub apply_answer : SubmitIdentity → ℕ → Replies → SubmitAnswer → World → Ended
unfolding resolve_ambiguous mark_terminal
apply_answer identity order replies (accepted t) w = apply_submit_result identity t replies.nested w
apply_answer identity order replies (order_rejected held) w =
    mark_terminal identity OrderStatus.rejected
      (Event.rejected_by_broker identity.client_order_id held) w
apply_answer identity order replies rate_limited w =
    mark_terminal identity OrderStatus.failed (Event.submit_failed identity.client_order_id) w
apply_answer identity order replies ambiguous_state w =
    resolve_ambiguous identity order replies.lookups replies.nested w
apply_answer identity order replies unexpected w =
    resolve_ambiguous identity order replies.lookups replies.nested w

abbrev pub called : OrderRequest → Replies → World → World
called req replies w = record w {
  db = replies.meanwhile w.db;
  submissions = record { request = req; committed = w.db } ∷ w.submissions;
}

unfoldable pub submit_and_apply : ℕ → OrderRequest → SubmitIdentity → Replies → World → Ended
unfolding apply_answer
submit_and_apply order req identity replies w =
    apply_answer identity order replies replies.submit (called req replies w)
