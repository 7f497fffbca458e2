-- ===== src/Handler/Submit/Calls.antt =====
-- Which calls of the broker a submission makes.
use roi_gen.Base.{
  [], ℕ, ◌≡◌, refl, Option, none, some, List, ◌∷◌, Bool-cases, Option-cases, inl, inr,
}
use roi_gen.Models.Enums.{OrderStatus}
use roi_gen.Models.Rows.{Event, Db, has_unique_ids}
use roi_gen.Risk.Request.{OrderRequest}
use roi_gen.Reconcile.Adopt.{OrderTree}
use roi_gen.Handler.Submit.{
  World, SubmitAnswer, accepted, order_rejected, rate_limited, ambiguous_state, unexpected, Replies,
  SubmitIdentity, lock_order_by_client_id, with_legs, commit_orders, apply_submit_result,
  resolve_ambiguous, mark_terminal, apply_answer, called, submit_and_apply,
}

-- The calls are the same.
abbrev pub SameCalls : World → World → Type 0
SameCalls w w' = (w'.submissions ≡ w.submissions) × (w'.canceled ≡ w.canceled)

commit_orders-SameCalls : (w : World) (db : Db) → SameCalls w (commit_orders w db).world
commit_orders-SameCalls w db = elim (Bool-cases (has_unique_ids db.orders)) [
  | inl e ↦ rw e (refl, refl)
  | inr e ↦ rw e (refl, refl)
]

apply_submit_result-SameCalls :
    (identity : SubmitIdentity) (t : OrderTree) (nested : Option (Option OrderTree)) (w : World)
    → SameCalls w (apply_submit_result identity t nested w).world
unfolding apply_submit_result
apply_submit_result-SameCalls identity t nested w =
    elim (Option-cases (lock_order_by_client_id identity.client_order_id w.db)) [
      | inl e ↦ rw (e, apply_submit_result) (refl, refl)
      | inr (o, e) ↦ elim (Option-cases (with_legs t nested)) [
        | inl k ↦ rw (e, apply_submit_result, k) (refl, refl)
        | inr (t', k) ↦ rw (e, apply_submit_result, k) (commit_orders-SameCalls w _)
      ]
    ]

resolve_ambiguous-SameCalls :
    (identity : SubmitIdentity) (order : ℕ) (lookups : List (Option (Option OrderTree)))
    (nested : Option (Option OrderTree)) (w : World)
    → SameCalls w (resolve_ambiguous identity order lookups nested w).world
unfolding resolve_ambiguous
resolve_ambiguous-SameCalls identity order [] nested w = (refl, refl)
resolve_ambiguous-SameCalls identity order (none ∷ rest) nested w = (refl, refl)
resolve_ambiguous-SameCalls identity order (some none ∷ rest) nested w =
    resolve_ambiguous-SameCalls identity order rest nested w
resolve_ambiguous-SameCalls identity order (some (some t) ∷ rest) nested w =
    let same = apply_submit_result-SameCalls identity t nested w in
    elim (Bool-cases (apply_submit_result identity t nested w).raised) [
      | inl e ↦ rw e same
      | inr e ↦ rw e same
    ]

mark_terminal-SameCalls :
    (identity : SubmitIdentity) (status : OrderStatus) (e : Event) (w : World)
    → SameCalls w (mark_terminal identity status e w).world
unfolding mark_terminal
mark_terminal-SameCalls identity status e w =
    elim (Option-cases (lock_order_by_client_id identity.client_order_id w.db)) [
      | inl k ↦ rw (k, mark_terminal) (refl, refl)
      | inr (o, k) ↦ rw (k, mark_terminal) (refl, refl)
    ]

apply_answer-SameCalls :
    (identity : SubmitIdentity) (order : ℕ) (replies : Replies) (answer : SubmitAnswer) (w : World)
    → SameCalls w (apply_answer identity order replies answer w).world
unfolding apply_answer
apply_answer-SameCalls identity order replies (accepted t) w =
    apply_submit_result-SameCalls identity t replies.nested w
apply_answer-SameCalls identity order replies (order_rejected held) w =
    mark_terminal-SameCalls identity OrderStatus.rejected _ w
apply_answer-SameCalls identity order replies rate_limited w =
    mark_terminal-SameCalls identity OrderStatus.failed _ w
apply_answer-SameCalls identity order replies ambiguous_state w =
    resolve_ambiguous-SameCalls identity order replies.lookups replies.nested w
apply_answer-SameCalls identity order replies unexpected w =
    resolve_ambiguous-SameCalls identity order replies.lookups replies.nested w

-- One submission, whatever the answer and whatever raises after it: never a second.
pub submit_and_apply-once :
    (order : ℕ) (req : OrderRequest) (identity : SubmitIdentity) (replies : Replies) (w : World)
    → let w' = (submit_and_apply order req identity replies w).world in
      (w'.submissions ≡ record { request = req; committed = w.db } ∷ w.submissions)
      × (w'.canceled ≡ w.canceled)
unfolding submit_and_apply
submit_and_apply-once order req identity replies w =
    apply_answer-SameCalls identity order replies replies.submit (called req replies w)
