-- ===== src/Handler/Entry.antt =====
-- An approved order: `_on_order` and `_pairing_mismatch` of
-- backend/app/engine/execution/handler.py.
use roi_gen.Base.{
  ℕ, Bool, true, false, not, ◌&&◌, Option, none, some, ℤ, leb_ℤ, ◌==◌, if◌then◌else◌,
}
use roi_gen.Models.Enums.{same_side}
use roi_gen.Models.Rows.{Order, ApprovalPayload, Event, Db}
use roi_gen.Risk.Request.{OrderRequest}
use roi_gen.Risk.Engine.{RiskApproval}
use roi_gen.Handler.Submit.{
  World, Replies, SubmitIdentity, audit, persist_pending, Ended, submit_and_apply,
}
pub mod Guarded

-- An approval that the risk engine did not mint is `none`.
pub record OrderEvent : Type 0 where
  pub order_request : OrderRequest
  pub approval : Option RiskApproval

abbrev pub same_qty : Option ℤ → ℤ → Bool
same_qty none b = false
same_qty (some a) b = leb_ℤ a b && leb_ℤ b a

-- The request is the one that the approval sized.
pub pairing_matches : OrderRequest → RiskApproval → Bool
pairing_matches req approval =
    req.client_order_id == approval.client_order_id
    && (req.symbol == approval.symbol
        && (same_side req.side approval.side && same_qty req.qty approval.qty))

abbrev pub audit_approval : RiskApproval → Event → World → World
audit_approval approval e w = record w {
  db = audit approval.portfolio_id (some approval.strategy_id) none e w.db;
}

abbrev pub identity_of : OrderRequest → RiskApproval → SubmitIdentity
identity_of req approval = record {
  client_order_id = req.client_order_id;
  portfolio_id = approval.portfolio_id;
  strategy_id = some approval.strategy_id;
}

-- `except Exception`: the error is audited on a fresh session.
abbrev pub audit_raised : OrderRequest → RiskApproval → Ended → World
audit_raised req approval e =
    if e.raised
    then audit_approval approval (Event.order_error req.client_order_id) e.world
    else e.world

-- 10^9: the requests of the risk engine count whole shares.
abbrev pub shares : ℕ
shares = 1000000000

abbrev pub place_persisted :
    OrderRequest → RiskApproval → Replies → World → Option (Order × Db) → World
place_persisted req approval replies w none =
    audit_approval approval (Event.order_error req.client_order_id) w
place_persisted req approval replies w (some (order, db)) =
    audit_raised req approval
      (submit_and_apply order.id req (identity_of req approval) replies (record w { db = db }))

pub place : OrderRequest → RiskApproval → Replies → World → World
unfolding persist_pending
place req approval replies w = place_persisted req approval replies w (
    persist_pending req shares (identity_of req approval) (ApprovalPayload.risk approval.signal_id)
      w.db)

pub on_approved : Bool → OrderRequest → RiskApproval → Replies → World → World
unfolding pairing_matches place
on_approved halted req approval replies w =
    if not (pairing_matches req approval)
    then audit_approval approval (Event.order_error req.client_order_id) w
    else if halted
    then audit_approval approval
        (Event.suppressed_halted req.client_order_id req.symbol req.side approval.qty) w
    else place req approval replies w

-- `halted` is what the kill switch answers at the check.
unfoldable pub on_order : Bool → OrderEvent → Replies → World → World
unfolding on_approved
on_order halted event replies w = elim event.approval [
  | none ↦ w
  | some approval ↦ on_approved halted event.order_request approval replies w
]
