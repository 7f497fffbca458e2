-- ===== src/Stage/RiskStage.antt =====
-- The risk stage, backend/app/engine/stage.py: a signal or a flatten to an audit row and, where the
-- risk engine approves, to an event on the bus. What `load` of the state provider gives is an
-- argument, where `none` is an exception, and so is whether the commit of the audit row succeeds.
use roi_gen.Base.{ℕ, Bool, Option, none, some, List, [], ◌∷◌, if◌then◌else◌}
use roi_gen.Models.Rows.{Event, Db}
use roi_gen.Risk.Controls.{SignalEvent, RiskState, RiskLimits}
use roi_gen.Risk.Engine.{RiskDecision, evaluate, FlattenEvent, FlattenApproval, authorize_flatten}
use roi_gen.Handler.Submit.{audit}
use roi_gen.Handler.Entry.{OrderEvent}

-- The events that the stage publishes.
pub data Published : Type 0 where
  order_event : OrderEvent → Published
  flatten_order_event : Option FlattenApproval → Published

abbrev pub audit_signal : SignalEvent → Event → Db → Db
audit_signal signal e db = audit signal.portfolio_id (some signal.strategy_id) none e db

-- On a fresh session.
abbrev pub audit_error : SignalEvent → Db → Db
audit_error signal db =
    audit_signal signal (Event.signal_error signal.signal_id signal.symbol signal.side) db

abbrev pub reject : SignalEvent → Db → List Published × Db
reject signal db =
    ([], audit_signal signal (Event.order_rejected signal.signal_id signal.symbol signal.side) db)

unfoldable pub route : SignalEvent → RiskDecision → Db → List Published × Db
route signal decision db = elim decision.approval [
  | none ↦ reject signal db
  | some approval ↦ elim decision.order_request [
    | none ↦ reject signal db
    | some request ↦ (
      order_event (record { order_request = request; approval = some approval }) ∷ [],
      audit_signal signal (Event.order_approved approval.signal_id) db,
    )
  ]
]

-- Nothing is published where the commit raises.
abbrev pub route_decided : Bool → SignalEvent → Option RiskDecision → Db → List Published × Db
route_decided commits signal none db = ([], audit_error signal db)
route_decided commits signal (some decision) db =
    if commits then route signal decision db else ([], audit_error signal db)

unfoldable pub on_signal :
    RiskLimits
    → Option RiskState
    → (client_order_id now : ℕ) → Bool
    → SignalEvent
    → Db
    → List Published × Db
unfolding route
on_signal limits loaded client_order_id now commits signal db = elim loaded [
  | none ↦ ([], audit_error signal db)
  | some state ↦ route_decided commits signal (evaluate limits signal state client_order_id now) db
]

abbrev pub route_flatten : FlattenEvent → Option FlattenApproval → Db → List Published × Db
route_flatten event none db =
    ([], audit event.portfolio_id none none (Event.flatten_rejected event.flatten_id) db)
route_flatten event (some approval) db = (
  flatten_order_event (some approval) ∷ [],
  audit event.portfolio_id none none (Event.flatten_approved approval.flatten_id) db,
)

-- The state is not loaded and the kill switch is not read.
unfoldable pub on_flatten_event : ℕ → Bool → FlattenEvent → Db → List Published × Db
on_flatten_event now commits event db =
    if commits
    then route_flatten event (authorize_flatten event now).approval db
    else ([], audit event.portfolio_id none none (Event.flatten_error event.flatten_id) db)
