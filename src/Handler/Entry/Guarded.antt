-- ===== src/Handler/Entry/Guarded.antt =====
-- An order event makes at most one submission, guarded and recorded beforehand.
use roi_gen.Base.{
  subst, ◌+◌, ℕ, ◌≡◌, ◌⊎◌, refl, sym, ap, ◌∙◌, Bool, true, false, none, some, List, ◌∷◌, pos_part,
  ==_iff, find, any, Bool-cases, Option-cases, inl, inr,
}
use roi_gen.Models.Rows.{Order, ApprovalPayload, Db}
use roi_gen.Risk.Request.{OrderRequest}
use roi_gen.Risk.Engine.{RiskApproval}
use roi_gen.Handler.Submit.{
  Submission, World, Replies, pending_row, has_client_id, persist_pending, Ended,
  lock_order_by_client_id, submit_and_apply,
}
use roi_gen.Handler.Submit.Calls.{submit_and_apply-once}
use roi_gen.Handler.Entry.{
  OrderEvent, pairing_matches, identity_of, shares, audit_raised, place_persisted, place,
  on_approved, on_order,
}

-- A submission that the order event may make.
pub record IsGuarded (event : OrderEvent) (approval : RiskApproval) (halted : Bool) (s : Submission)
    : Type 0 where
  pub minted : event.approval ≡ some approval
  pub paired : pairing_matches event.order_request approval ≡ true
  pub running : halted ≡ false
  pub request : s.request ≡ event.order_request
  pub qty : ℕ
  pub before : Db
  pub recorded :
      lock_order_by_client_id event.order_request.client_order_id s.committed
      ≡ some (
          pending_row event.order_request qty shares
            (identity_of event.order_request approval)
            (ApprovalPayload.risk approval.signal_id)
            before)

abbrev pub Guarded : OrderEvent → Bool → World → World → Type 0
Guarded event halted w w' =
    (w'.submissions ≡ w.submissions)
    ⊎ ((s : Submission) × (approval : RiskApproval) × IsGuarded event approval halted s
        × (w'.submissions ≡ s ∷ w.submissions))

-- The stored row is found under its client id.
find-added :
    (o : Order) (os : List Order) → find (has_client_id o.client_order_id) (o ∷ os) ≡ some o
find-added o os = rw ((==_iff o.client_order_id o.client_order_id).1 refl) refl

audit_raised-submissions :
    (req : OrderRequest) (approval : RiskApproval) (e : Ended)
    → (audit_raised req approval e).submissions ≡ e.world.submissions
audit_raised-submissions req approval e = elim (Bool-cases e.raised) [
  | inl k ↦ rw k refl
  | inr k ↦ rw k refl
]

place-Guarded :
    (event : OrderEvent) (approval : RiskApproval) (halted : Bool) (replies : Replies) (w : World)
    → event.approval ≡ some approval
    → pairing_matches event.order_request approval ≡ true
    → halted ≡ false
    → Guarded event halted w (place event.order_request approval replies w)
unfolding place persist_pending
place-Guarded event approval halted replies w minted paired running =
    let req = event.order_request in
    let identity = identity_of req approval in
    let payload = ApprovalPayload.risk approval.signal_id in
    elim (Option-cases req.qty) [
      | inl e ↦
          let refused : persist_pending req shares identity payload w.db ≡ none =
            rw (e, persist_pending) refl in
          inl (ap (λ x. (place_persisted req approval replies w x).submissions) refused)
      | inr (qty, e) ↦ elim (Bool-cases (any (has_client_id req.client_order_id) w.db.orders)) [
        | inl taken ↦
            let refused : persist_pending req shares identity payload w.db ≡ none =
              rw (e, persist_pending, taken) refl in
            inl (ap (λ x. (place_persisted req approval replies w x).submissions) refused)
        | inr new ↦
            let row = pending_row req (pos_part qty) shares identity payload w.db in
            let db : Db = record w.db { orders = row ∷ w.db.orders; next_id = w.db.next_id + 1 } in
            let done = submit_and_apply row.id req identity replies (record w { db = db }) in
            let once = submit_and_apply-once row.id req identity replies (record w { db = db }) in
            let stored : persist_pending req shares identity payload w.db ≡ some (row, db) =
              rw (e, persist_pending, new) refl in
            inr (
              record { request = req; committed = db },
              approval,
              record {
                minted = minted;
                paired = paired;
                running = running;
                request = refl;
                qty = pos_part qty;
                before = w.db;
                recorded = find-added row w.db.orders;
              },
              ap (λ x. (place_persisted req approval replies w x).submissions) stored
                  ∙ (audit_raised-submissions req approval done ∙ once.0),
            )
      ]
    ]

-- An order event makes at most one submission, whatever the broker answers. It makes one only with
-- a minted approval that matches the request in client id, symbol, side and quantity, while the
-- kill switch is not halted at the check, and with the order's pending row, the approval on it,
-- already committed.
pub on_order-Guarded :
    (halted : Bool) (event : OrderEvent) (replies : Replies) (w : World)
    → Guarded event halted w (on_order halted event replies w)
unfolding on_order on_approved
on_order-Guarded halted event replies w = elim (Option-cases event.approval) [
  | inl e ↦ rw (e, on_order) (inl refl)
  | inr (approval, e) ↦ elim (Bool-cases (pairing_matches event.order_request approval)) [
    | inr k ↦ rw (e, on_order, k) (inl refl)
    | inl k ↦ elim (Bool-cases halted) [
      | inl on ↦ rw (e, on_order, k, on) (inl refl)
      | inr off ↦
          let runs : on_order halted event replies w
              ≡ place event.order_request approval replies w =
            rw (e, on_order, k, off) refl in
          subst (Guarded event halted w) (sym runs)
            (place-Guarded event approval halted replies w e k off)
    ]
  ]
]
