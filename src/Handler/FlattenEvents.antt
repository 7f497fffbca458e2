-- ===== src/Handler/FlattenEvents.antt =====
-- The events that ask for a flatten: `_on_flatten` and `_run_flatten` of
-- backend/app/engine/execution/handler.py.
use roi_gen.Base.{
  ℕ, ◌+◌, ◌*◌, Bool, true, false, not, ◌&&◌, Option, none, some, List, [], ◌∷◌, ◌++◌, ℤ, pos, abs,
  leb_ℤ, ◌==◌, if◌then◌else◌, any, map, select, length, ltb,
}
use roi_gen.Models.Enums.{
  OrderSide, OrderType, OrderClass, TimeInForce, OrderStatus, StatusText, known, unknown,
}
use roi_gen.Models.Commands.{Text}
use roi_gen.Models.Rows.{Order, ApprovalPayload, Event, OutcomeText, SymbolOutcome, Db}
use roi_gen.Execution.Positions.{is_positive, is_zero}
use roi_gen.Flatten.Exposure.{flatten_prefix, starts_with, text_of}
use roi_gen.Risk.Request.{OrderRequest, PositionIntent}
use roi_gen.Risk.Engine.{FlattenApproval}
use roi_gen.Handler.Submit.{
  World, Replies, SubmitIdentity, audit, persist_pending, lock_order_by_client_id, Ended,
  submit_and_apply,
}
use roi_gen.Handler.Flatten.{FlattenReplies, execute_flatten}
pub mod Replay

module _ (number_of : Text → ℕ) (hex lower : ℕ → Text) where
  abbrev pub not_submitted : SymbolOutcome → Bool
  not_submitted o = elim o.outcome [ OutcomeText.submitted ↦ false | _ ↦ true ]

  abbrev pub pass_event : ℕ → Option (List SymbolOutcome) → Event
  pass_event flatten_id none = Event.flatten_error flatten_id
  pass_event flatten_id (some outcomes) =
      if any not_submitted outcomes
      then Event.flatten_partial flatten_id outcomes
      else Event.flatten_executed flatten_id outcomes

  abbrev pub audit_flatten : FlattenApproval → Event → World → World
  audit_flatten approval e w = record w { db = audit approval.portfolio_id none none e w.db }

  -- `locked` is whether a pass is in flight.
  unfoldable pub run_flatten : Bool → FlattenApproval → FlattenReplies → World → World
  run_flatten locked approval replies w =
      let (outcomes, w') = execute_flatten number_of hex lower approval replies w in
      if locked
      then audit_flatten approval (Event.flatten_coalesced approval.flatten_id) w
      else audit_flatten approval (pass_event approval.flatten_id outcomes) w'

-- The replay guard, at most 512 ids.
abbrev pub seen_bound : ℕ
seen_bound = 512

abbrev pub remember : ℕ → List ℕ → List ℕ
remember id seen = if ltb seen_bound (length (id ∷ seen)) then id ∷ [] else id ∷ seen

-- What an event comes to: whether a pass is spawned, the ids seen, and the session.
pub record Dispatch : Type 0 where
  pub spawned : Bool
  pub seen : List ℕ
  pub db : Db

-- An approval that the risk engine did not mint is `none`.
pub on_flatten : Option FlattenApproval → List ℕ → Db → Dispatch
on_flatten none seen db = record { spawned = false; seen = seen; db = db }
on_flatten (some approval) seen db =
    if any (λ i. i == approval.flatten_id) seen
    then record {
      spawned = false;
      seen = seen;
      db =
          audit approval.portfolio_id none none
            (Event.flatten_duplicate_ignored approval.flatten_id) db;
    }
    else record { spawned = true; seen = remember approval.flatten_id seen; db = db }
