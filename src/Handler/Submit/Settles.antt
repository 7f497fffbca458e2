-- ===== src/Handler/Submit/Settles.antt =====
-- What becomes of an order row, by the broker's answer to its submission.
use mathlib.Core.Option.{some-injective}
use mathlib.Core.List.{append_assoc}
use roi_gen.Base.{
  subst, ℕ, ◌≡◌, ◌⊎◌, refl, sym, ap, ◌∙◌, ◌&&◌, Option, none, some, List, [], ◌∷◌, ◌++◌, Bool-cases,
  Option-cases, inl, inr,
}
use roi_gen.Models.Enums.{OrderStatus, known}
use roi_gen.Models.Rows.{Order, Event, Db, put_order, has_unique_ids}
use roi_gen.Execution.State.{BrokerOrder, apply_snapshot}
use roi_gen.Execution.Legs.{
  children, knows_broker_id, knows_client_id, persist_leg, persist_legs, persist_bracket_legs,
}
use roi_gen.Execution.TradeUpdates.Process.{is_bracket}
use roi_gen.Risk.Request.{OrderRequest}
use roi_gen.Reconcile.Adopt.{OrderTree}
use roi_gen.Handler.Submit.{
  World, SubmitAnswer, accepted, order_rejected, rate_limited, ambiguous_state, unexpected, Replies,
  SubmitIdentity, Ended, lock_order_by_client_id, no_legs, fetch_nested, with_legs, audit_resolved,
  called, adopt_submitted, apply_submit_result, resolve_ambiguous, mark_terminal, apply_answer,
  submit_and_apply,
}
use roi_gen.Handler.Submit.Calls.{submit_and_apply-once}

-- Rows were only added.
abbrev pub Extends : List Order → List Order → Type 0
Extends old new = (rows : List Order) × (new ≡ rows ++ old)

Extends-trans : {a b c : List Order} → Extends a b → Extends b c → Extends a c
Extends-trans {a} (xs, p) (ys, q) =
    (ys ++ xs, q ∙ (ap (λ os. ys ++ os) p ∙ sym (append_assoc ys xs a)))

persist_leg-Extends :
    (p : Order) (ex : List Order) (leg : BrokerOrder) (client : Option ℕ) (db : Db) (n : ℕ)
    → Extends db.orders (persist_leg p ex leg client db n).0.orders
unfolding persist_leg
persist_leg-Extends p ex leg client db n =
    elim (Bool-cases (knows_broker_id ex leg.broker_order_id)) [
      | inl e ↦ rw e ([], refl)
      | inr e ↦ elim (Option-cases client) [
        | inl k ↦ rw (e, k) ([], refl)
        | inr (c, k) ↦ elim (Bool-cases (knows_client_id ex c)) [
          | inl j ↦ rw (e, k, j) ([], refl)
          | inr j ↦ rw (e, k, j) (_ ∷ [], refl)
        ]
      ]
    ]

persist_legs-Extends :
    (p : Order) (ex : List Order) (legs : List BrokerOrder) (db : Db) (n : ℕ)
    → Extends db.orders (persist_legs p ex legs db n).0.orders
unfolding persist_legs
persist_legs-Extends p ex [] db n = ([], refl)
persist_legs-Extends p ex (leg ∷ legs) db n =
    let after = persist_leg p ex leg leg.client_order_id db n in
    Extends-trans (persist_leg-Extends p ex leg leg.client_order_id db n)
      (persist_legs-Extends p ex legs after.0 after.1)

persist_bracket_legs-Extends :
    (o : Order) (legs : List BrokerOrder) (db : Db)
    → Extends db.orders (persist_bracket_legs o legs db).0.orders
unfolding persist_bracket_legs
persist_bracket_legs-Extends o legs db = persist_legs-Extends o (children o.id db.orders) legs db 0

-- The broker gave the order in answer to the submission, to a lookup by client id, or to the re-read.
abbrev pub Reported : Replies → OrderTree → Type 0
Reported replies t =
    (replies.submit ≡ accepted t)
    ⊎ (((before : List (Option (Option OrderTree))) × (after : List (Option (Option OrderTree)))
          × (replies.lookups ≡ before ++ (some (some t) ∷ after)))
        ⊎ (replies.nested ≡ some (some t)))

-- The locked row holds a snapshot that was reported, by the transition rules, and rows were added.
abbrev pub Adopted : Replies → Order → List Order → List Order → Type 0
Adopted replies o old new =
    (t : OrderTree) × Reported replies t × Extends (put_order (apply_snapshot o t.order).0 old) new

abbrev pub Settled : Replies → Order → SubmitAnswer → List Order → List Order → Type 0
Settled replies o (order_rejected held) old new =
    new ≡ put_order (record o { status = known OrderStatus.rejected }) old
Settled replies o rate_limited old new =
    new ≡ put_order (record o { status = known OrderStatus.failed }) old
Settled replies o _ old new = (new ≡ old) ⊎ Adopted replies o old new

fetched-Reported :
    (replies : Replies) (t t' : OrderTree) (nested : Option (Option OrderTree))
    → Reported replies t
    → replies.nested ≡ nested
    → fetch_nested t nested ≡ some t'
    → Reported replies t'
fetched-Reported replies t t' none r n e = absurd (cc e)
fetched-Reported replies t t' (some none) r n e = subst (Reported replies) (some-injective _ _ e) r
fetched-Reported replies t t' (some (some found)) r n e = inr (inr (n ∙ ap (λ x. some x) e))

with_legs-Reported :
    (replies : Replies) (t t' : OrderTree)
    → Reported replies t
    → with_legs t replies.nested ≡ some t'
    → Reported replies t'
with_legs-Reported replies t t' r e =
    elim (Bool-cases (no_legs t && is_bracket t.order.order_class)) [
      | inl k ↦ fetched-Reported replies t t' replies.nested r refl (rw k at e)
      | inr k ↦
          let same : some t ≡ some t' = rw k at e in
          subst (Reported replies) (some-injective _ _ same) r
    ]

module _ (identity : SubmitIdentity) (replies : Replies) (o : Order) (w : World)
    (locked : lock_order_by_client_id identity.client_order_id w.db ≡ some o) where
  -- A row that is left alone, or that holds a reported snapshot.
  abbrev Followed : Ended → Type 0
  Followed e = (e.world.db.orders ≡ w.db.orders) ⊎ Adopted replies o w.db.orders e.world.db.orders

  apply_submit_result-Followed :
      (t : OrderTree)
      → Reported replies t
      → Followed (apply_submit_result identity t replies.nested w)
  unfolding apply_submit_result adopt_submitted
  apply_submit_result-Followed t r = elim (Option-cases (with_legs t replies.nested)) [
    | inl k ↦ rw (locked, apply_submit_result, k) (inl refl)
    | inr (t', k) ↦
        let db' = adopt_submitted identity o t' w.db in
        elim (Bool-cases (has_unique_ids db'.orders)) [
          | inl fits ↦
              rw (locked, apply_submit_result, k, fits)
                (inr (
                  t',
                  with_legs-Reported replies t t' r k,
                  persist_bracket_legs-Extends (apply_snapshot o t'.order).0 t'.legs (record w.db {
                    orders = put_order (apply_snapshot o t'.order).0 w.db.orders;
                  }),
                ))
          | inr clash ↦ rw (locked, apply_submit_result, k, clash) (inl refl)
        ]
  ]

  audit_resolved-Followed :
      (order : ℕ) (t : OrderTree) (e : Ended)
      → Followed e
      → Followed (audit_resolved identity order t e)
  audit_resolved-Followed order t e h = elim (Bool-cases e.raised) [
    | inl k ↦ rw k h
    | inr k ↦ rw k h
  ]

  resolve_ambiguous-Followed :
      (order : ℕ) (before lookups : List (Option (Option OrderTree)))
      → replies.lookups ≡ before ++ lookups
      → Followed (resolve_ambiguous identity order lookups replies.nested w)
  unfolding resolve_ambiguous
  resolve_ambiguous-Followed order before [] e = inl refl
  resolve_ambiguous-Followed order before (none ∷ rest) e = inl refl
  resolve_ambiguous-Followed order before (some none ∷ rest) e =
      resolve_ambiguous-Followed order (before ++ (some none ∷ [])) rest
        (e ∙ sym (append_assoc before (some none ∷ []) rest))
  resolve_ambiguous-Followed order before (some (some t) ∷ rest) e =
      audit_resolved-Followed order t (apply_submit_result identity t replies.nested w)
        (apply_submit_result-Followed t (inr (inl (before, rest, e))))

  mark_terminal-writes :
      (status : OrderStatus) (e : Event)
      → (mark_terminal identity status e w).world.db.orders
        ≡ put_order (record o { status = known status }) w.db.orders
  unfolding mark_terminal
  mark_terminal-writes status e = rw (locked, mark_terminal) refl

  apply_answer-Settled :
      (order : ℕ) (answer : SubmitAnswer)
      → replies.submit ≡ answer
      → Settled replies o answer w.db.orders
          (apply_answer identity order replies answer w).world.db.orders
  unfolding apply_answer
  apply_answer-Settled order (accepted t) e = apply_submit_result-Followed t (inl e)
  apply_answer-Settled order (order_rejected held) e = mark_terminal-writes OrderStatus.rejected _
  apply_answer-Settled order rate_limited e = mark_terminal-writes OrderStatus.failed _
  apply_answer-Settled order ambiguous_state e =
      resolve_ambiguous-Followed order [] replies.lookups refl
  apply_answer-Settled order unexpected e = resolve_ambiguous-Followed order [] replies.lookups refl

-- After a submission, with what other writers committed meanwhile: the order's row is marked
-- rejected exactly where the broker refused the order and failed where it was rate limited. After
-- any other answer, the ambiguous and unexpected ones included, the rows are as the other writers
-- left them, or the row holds, by the transition rules, an order that the broker itself reported,
-- and leg rows were added; the order is never guessed to be dead. One submission is made.
pub submit_and_apply-Settled :
    (order : ℕ) (req : OrderRequest) (identity : SubmitIdentity) (replies : Replies) (w : World)
    (o : Order)
    → lock_order_by_client_id identity.client_order_id (replies.meanwhile w.db) ≡ some o
    → let w' = (submit_and_apply order req identity replies w).world in
      Settled replies o replies.submit (replies.meanwhile w.db).orders w'.db.orders
      × (w'.submissions ≡ record { request = req; committed = w.db } ∷ w.submissions)
unfolding submit_and_apply
submit_and_apply-Settled order req identity replies w o locked = (
  apply_answer-Settled identity replies o (called req replies w) locked order replies.submit refl,
  (submit_and_apply-once order req identity replies w).0,
)
