-- ===== src/Broker/Transport/Definitive.antt =====
-- Only a definitive refusal by the broker kills an order row.
use roi_gen.Base.{
  ℕ, ◌≡◌, ◌⊎◌, refl, subst, ◌||◌, Bool, true, false, Option, none, some, List, arith, ltb, leb,
  ◌==◌, if◌then◌else◌, if_cases, ◌&&◌, Bool-cases, Option-cases, inl, inr,
}
use roi_gen.Models.Enums.{OrderStatus, known}
use roi_gen.Models.Rows.{Order, put_order}
use roi_gen.Risk.Request.{OrderRequest}
use roi_gen.Handler.Submit.{
  World, SubmitAnswer, accepted, order_rejected, rate_limited, ambiguous_state, unexpected, Replies,
  SubmitIdentity, lock_order_by_client_id,
}
use roi_gen.Handler.Submit.Settles.{Adopted, Settled, submit_and_apply-Settled}
use roi_gen.Broker.Payload.{TreePayload, parse_order}
use roi_gen.Broker.Transport.{
  Response, Reply, responded, dropped, Wire, Called, replies_of, submit_order, submit_answer,
  parsed, raised_or, order_level_403, classify_order_403, raise_for_status, caught,
  submit_over_wire, BrokerError, server_error,
}

-- The statuses that say the order was not placed, and what the row becomes.
abbrev pub refusal_status : Response → Option OrderStatus
refusal_status r =
    if r.status == 400 || r.status == 422
    then some OrderStatus.rejected
    else if r.status == 429
    then some OrderStatus.failed
    else if r.status == 403 && (classify_order_403 r.error_body).0
    then some OrderStatus.rejected
    else none

abbrev pub refusal : Reply → Option OrderStatus
refusal (responded r) = refusal_status r
refusal dropped = none

-- Where the broker refused, the row is marked; else it is left alone or holds a reported order.
abbrev pub Follows : Option OrderStatus → Replies → Order → List Order → List Order → Type 0
Follows (some status) replies o old new = new ≡ put_order (record o { status = known status }) old
Follows none replies o old new = (new ≡ old) ⊎ Adopted replies o old new

abbrev Answers : Option OrderStatus → SubmitAnswer → Type 0
Answers (some status) a =
    ((held : Bool) × (a ≡ order_rejected held) × (status ≡ OrderStatus.rejected))
    ⊎ ((a ≡ rate_limited) × (status ≡ OrderStatus.failed))
Answers none (order_rejected held) = ⊥
Answers none rate_limited = ⊥
Answers none _ = Unit

parsed-open :
    (r : Response) (found : Option TreePayload)
    → r.payload ≡ found
    → Answers none (submit_answer (parsed (Called.returned r)))
parsed-open r none e = rw e tt
parsed-open r (some payload) e = elim (Option-cases (parse_order payload)) [
  | inl k ↦ rw (e, k) tt
  | inr (t, k) ↦ rw (e, k) tt
]

-- A status of 403: by the classification of the body.
forbidden :
    (n : ℕ) (verdict : Bool × Bool)
    → Answers
        (if verdict.0 then some OrderStatus.rejected else none)
        (caught (order_level_403 true n verdict))
forbidden n (false, held) = tt
forbidden n (true, held) = inl (held, refl, refl)

-- A refused row stays refused by the two computed answers.
by_equations :
    (r : Response) (status : Option OrderStatus) (error : Option BrokerError)
    → refusal_status r ≡ status
    → raise_for_status true r ≡ error
    → Answers status (submit_answer (parsed (raised_or error r)))
    → Answers (refusal_status r) (submit_answer (parsed (raised_or (raise_for_status true r) r)))
by_equations r status error e f h = rw (e, f) h

abbrev unplaced : ℕ → BrokerError
unplaced n =
    if n == 401
    then BrokerError.auth_error n
    else if leb 500 n
    then server_error true n
    else BrokerError.broker_error n

-- Past the statuses of a refusal, no exception of the adapter says that the order was not placed.
unsettled : (n : ℕ) → Answers none (caught (unplaced n))
unsettled n =
    if_cases (λ x. Answers none (caught x)) (n == 401) _ _ (λ e. tt)
      (λ e. if_cases (λ x. Answers none (caught x)) (leb 500 n) _ _ (λ k. tt) (λ k. tt))

raise_for_status-Answers :
    (r : Response)
    → Answers (refusal_status r) (submit_answer (parsed (raised_or (raise_for_status true r) r)))
unfolding raise_for_status
raise_for_status-Answers r = elim (Bool-cases (ltb r.status 400)) [
  | inl e ↦
      by_equations r none none (ground (arith, e)) (ground (arith, e))
        (parsed-open r r.payload refl)
  | inr e ↦ elim (Bool-cases (r.status == 403)) [
    | inl f ↦
        by_equations r _ (some (order_level_403 true r.status (classify_order_403 r.error_body)))
          (ground (arith, e, f)) (ground (arith, e, f))
          (forbidden r.status (classify_order_403 r.error_body))
    | inr f ↦ elim (Bool-cases (r.status == 400 || r.status == 422)) [
      | inl k ↦
          by_equations r (some OrderStatus.rejected) (some (BrokerError.rejected r.status false))
            (ground (arith, k)) (ground (arith, e, f, k)) (inl (false, refl, refl))
      | inr k ↦ elim (Bool-cases (r.status == 429)) [
        | inl l ↦
            by_equations r (some OrderStatus.failed)
              (some (BrokerError.broker_rate_limited r.status r.retry_after)) (ground (arith, k, l))
              (ground (arith, e, f, k, l)) (inr (refl, refl))
        | inr l ↦
            by_equations r none (some (unplaced r.status)) (ground (arith, f, k, l))
              (ground (arith, e, f, k, l)) (unsettled r.status)
      ]
    ]
  ]
]

submit_order-Answers :
    (reply : Reply) → Answers (refusal reply) (submit_answer (submit_order reply))
submit_order-Answers (responded r) = raise_for_status-Answers r
submit_order-Answers dropped = tt

-- What a settled row says, by the answer that settles it.
Settled-Follows :
    (replies : Replies) (o : Order) (old new : List Order) (status : Option OrderStatus)
    (a : SubmitAnswer)
    → Answers status a
    → Settled replies o a old new
    → Follows status replies o old new
Settled-Follows replies o old new (some status) a (inl (held, e, f)) h =
    rw f (subst (λ x. Settled replies o x old new) e h)
Settled-Follows replies o old new (some status) a (inr (e, f)) h =
    rw f (subst (λ x. Settled replies o x old new) e h)
Settled-Follows replies o old new none (accepted t) d h = h
Settled-Follows replies o old new none (order_rejected held) d h = absurd d
Settled-Follows replies o old new none rate_limited d h = absurd d
Settled-Follows replies o old new none ambiguous_state d h = h
Settled-Follows replies o old new none unexpected d h = h

-- A submission over HTTP marks the order's row rejected exactly on a response with status 400 or
-- 422, or 403 with a body that names a refusal of the order, and failed exactly on 429. After a
-- timeout, a transport error, a server error, another 403 or anything else, the rows are as the
-- other writers left them, or the row holds an order that the broker reported.
pub submit_over_wire-Follows :
    (order : ℕ) (req : OrderRequest) (identity : SubmitIdentity) (wire : Wire) (w : World)
    (o : Order)
    → lock_order_by_client_id identity.client_order_id (wire.meanwhile w.db) ≡ some o
    → Follows
        (refusal wire.submit)
        (replies_of wire)
        o
        (wire.meanwhile w.db).orders
        (submit_over_wire order req identity wire w).world.db.orders
unfolding submit_over_wire
submit_over_wire-Follows order req identity wire w o locked =
    Settled-Follows (replies_of wire) o _ _ (refusal wire.submit)
      (submit_answer (submit_order wire.submit)) (submit_order-Answers wire.submit)
      (submit_and_apply-Settled order req identity (replies_of wire) w o locked).0
