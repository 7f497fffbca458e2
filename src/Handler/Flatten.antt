-- ===== src/Handler/Flatten.antt =====
-- One pass of a flatten: `_execute_flatten` and `_liquidate_symbol` of
-- backend/app/engine/execution/handler.py. Quantities are in 10^-9 shares. The number that stands
-- for a client id's text is the parameter `number_of`; the texts of a flatten's id and of a symbol
-- in lower case are `hex` and `lower`.
use roi_gen.Base.{
  ℕ, ◌+◌, ◌*◌, Bool, true, false, not, ◌&&◌, Option, none, some, List, [], ◌∷◌, ◌++◌, ℤ, pos, abs,
  leb_ℤ, ◌==◌, if◌then◌else◌, any, map, select, length, ltb,
}
use roi_gen.Models.Enums.{
  OrderSide, OrderType, OrderClass, TimeInForce, OrderStatus, StatusText, known, unknown,
}
use roi_gen.Models.Commands.{Text}
use roi_gen.Models.Rows.{Order, ApprovalPayload, Event, OutcomeText, SymbolOutcome, Db}
use roi_gen.Execution.Positions.{is_positive, is_zero}
use roi_gen.Flatten.Exposure.{flatten_prefix, starts_with, text_of}
use roi_gen.Risk.Request.{OrderRequest, PositionIntent}
use roi_gen.Risk.Engine.{FlattenApproval}
use roi_gen.Handler.Submit.{
  World, Replies, SubmitIdentity, audit, persist_pending, lock_order_by_client_id, Ended,
  submit_and_apply,
}
pub mod Closes
pub mod Reduces

-- What the pass reads of an open order and of a position.
pub record WorkingOrder : Type 0 where
  pub broker_order_id : ℕ
  pub client_order_id : Option Text
  pub symbol : ℕ

pub record Holding : Type 0 where
  pub symbol : ℕ
  pub qty : ℤ

-- What the broker answers to a pass; `none` is an exception. `statuses` has an entry for each of the
-- confirmation delays.
pub record FlattenReplies : Type 0 where
  pub open_orders : Option (List WorkingOrder)
  pub cancels : ℕ → Bool
  pub statuses : List (ℕ → Option (Option OrderStatus))
  pub positions : Option (List Holding)
  pub submits : ℕ → Replies

abbrev pub is_prior_liquidation : WorkingOrder → Bool
is_prior_liquidation o = starts_with flatten_prefix (text_of o.client_order_id)

abbrev pub covered_symbols : List WorkingOrder → List ℕ
covered_symbols os = map WorkingOrder.symbol (select is_prior_liquidation os)

abbrev pub to_cancel : List WorkingOrder → List WorkingOrder
to_cancel = select (λ o. not (is_prior_liquidation o))

-- Every call is made, whatever the ones before it raised; the ids that are pending are returned.
pub cancel_all : (ℕ → Bool) → List WorkingOrder → World → List ℕ × World
cancel_all cancels [] w = ([], w)
cancel_all cancels (o ∷ os) w =
    let (pending, w') =
      cancel_all cancels os (record w { canceled = w.canceled ++ (o.broker_order_id ∷ []) }) in
    (if cancels o.broker_order_id then o.broker_order_id ∷ pending else pending, w')

-- Membership in `_CANCEL_SETTLED_STATUSES`.
abbrev pub cancel_settled : OrderStatus → Bool
cancel_settled OrderStatus.canceled = true
cancel_settled OrderStatus.filled = true
cancel_settled OrderStatus.expired = true
cancel_settled OrderStatus.rejected = true
cancel_settled _ = false

abbrev pub still_pending : Option (Option OrderStatus) → Bool
still_pending none = true
still_pending (some none) = false
still_pending (some (some status)) = not (cancel_settled status)

-- The ids that are still pending after the polls.
confirm_cancels : List (ℕ → Option (Option OrderStatus)) → List ℕ → List ℕ
confirm_cancels [] pending = pending
confirm_cancels (statuses ∷ rest) [] = []
confirm_cancels (statuses ∷ rest) (id ∷ pending) =
    confirm_cancels rest (select (λ i. still_pending (statuses i)) (id ∷ pending))

abbrev pub close_side : ℤ → OrderSide
close_side q = if is_positive q then OrderSide.sell else OrderSide.buy

abbrev pub close_intent : OrderSide → PositionIntent
close_intent OrderSide.sell = PositionIntent.sell_to_close
close_intent OrderSide.buy = PositionIntent.buy_to_close

-- The status of the row after the submission, and `pending_submit` where there is no row.
abbrev pub outcome_of : Option Order → OutcomeText
outcome_of none = OutcomeText.ambiguous
outcome_of (some o) = elim o.status [
  | known OrderStatus.rejected ↦ OutcomeText.rejected
  | known OrderStatus.failed ↦ OutcomeText.failed
  | known OrderStatus.pending_submit ↦ OutcomeText.ambiguous
  | _ ↦ OutcomeText.submitted
]

module _ (number_of : Text → ℕ) (hex lower : ℕ → Text) where
  -- `{prefix}-{flatten_id}-{symbol}`
  abbrev pub liquidation_client_id : FlattenApproval → ℕ → Text
  liquidation_client_id approval symbol =
      flatten_prefix ++ (45 ∷ (hex approval.flatten_id ++ (45 ∷ lower symbol)))

  pub liquidation_request : FlattenApproval → ℕ → ℤ → OrderRequest
  liquidation_request approval symbol signed_qty = record {
    client_order_id = number_of (liquidation_client_id approval symbol);
    symbol = symbol;
    side = close_side signed_qty;
    order_type = OrderType.market;
    time_in_force = TimeInForce.day;
    order_class = OrderClass.simple;
    qty = some (pos (abs signed_qty));
    notional = none;
    limit_price = none;
    stop_price = none;
    trail_percent = none;
    extended_hours = false;
    position_intent = some (close_intent (close_side signed_qty));
    take_profit_limit_price = none;
    stop_loss_stop_price = none;
    stop_loss_limit_price = none;
  }

  abbrev pub liquidation_identity : FlattenApproval → OrderRequest → SubmitIdentity
  liquidation_identity approval req = record {
    client_order_id = req.client_order_id;
    portfolio_id = approval.portfolio_id;
    strategy_id = none;
  }

  -- The summary reports the row's truth, or that the submission raised.
  abbrev pub summarize : ℕ → OrderRequest → Ended → SymbolOutcome × World
  summarize symbol req e = (
    record {
      symbol = symbol;
      outcome =
          if e.raised
          then OutcomeText.failed
          else outcome_of (lock_order_by_client_id req.client_order_id e.world.db);
    },
    e.world,
  )

  abbrev pub liquidate_persisted :
      FlattenApproval
      → ℕ
      → OrderRequest
      → Replies
      → World
      → Option (Order × Db)
      → SymbolOutcome × World
  liquidate_persisted approval symbol req replies w none =
      (record { symbol = symbol; outcome = OutcomeText.failed }, w)
  liquidate_persisted approval symbol req replies w (some (order, db)) = summarize symbol req (
      submit_and_apply order.id req (liquidation_identity approval req) replies
        (record w { db = db }))

  pub liquidate_symbol : FlattenApproval → Holding → Replies → World → SymbolOutcome × World
  unfolding liquidation_request persist_pending
  liquidate_symbol approval p replies w =
      let req = liquidation_request approval p.symbol p.qty in
      liquidate_persisted approval p.symbol req replies w (
        persist_pending req 1 (liquidation_identity approval req)
          (ApprovalPayload.flatten approval.flatten_id) w.db)

  abbrev pub is_covered : List ℕ → Holding → Bool
  is_covered covered p = any (λ s. s == p.symbol) covered

  abbrev pub liquidate :
      FlattenApproval → List ℕ → Holding → Replies → World → SymbolOutcome × World
  liquidate approval covered p replies w =
      if is_covered covered p
      then (record { symbol = p.symbol; outcome = OutcomeText.submitted }, w)
      else liquidate_symbol approval p replies w

  abbrev pub listed : SymbolOutcome × World → List SymbolOutcome × World
  listed (outcome, w) = (outcome ∷ [], w)

  -- The positions in turn: one that is flat is skipped, and one that a liquidation of a prior pass
  -- still works is left to it.
  pub liquidate_all :
      FlattenApproval → List ℕ → (ℕ → Replies) → List Holding → World → List SymbolOutcome × World
  unfolding liquidate_symbol
  liquidate_all approval covered submits [] w = ([], w)
  liquidate_all approval covered submits (p ∷ ps) w =
      let (outcomes, w') =
        if is_zero p.qty
        then ([], w)
        else listed (liquidate approval covered p (submits p.symbol) w) in
      let (rest, last) = liquidate_all approval covered submits ps w' in (outcomes ++ rest, last)

  abbrev pub liquidate_positions :
      FlattenApproval
      → FlattenReplies
      → List ℕ
      → Option (List Holding)
      → World
      → Option (List SymbolOutcome) × World
  liquidate_positions approval replies covered none w = (none, w)
  liquidate_positions approval replies covered (some ps) w =
      let (outcomes, w') = liquidate_all approval covered replies.submits ps w in
      (some outcomes, w')

  -- The outcomes of the pass, where it does not raise. What the cancels come to is only logged.
  pub execute_flatten :
      FlattenApproval → FlattenReplies → World → Option (List SymbolOutcome) × World
  unfolding cancel_all liquidate_all
  execute_flatten approval replies w = elim replies.open_orders [
    | none ↦ (none, w)
    | some os ↦
        liquidate_positions approval replies (covered_symbols os) replies.positions
          (cancel_all replies.cancels (to_cancel os) w).1
  ]

  -- The number of cancels that the log reports unsettled.
  unfoldable pub unsettled_cancels : FlattenReplies → List WorkingOrder → World → ℕ
  unfolding cancel_all confirm_cancels
  unsettled_cancels replies os w =
      length (confirm_cancels replies.statuses (cancel_all replies.cancels (to_cancel os) w).0)
