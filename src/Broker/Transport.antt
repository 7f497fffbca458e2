-- ===== src/Broker/Transport.antt =====
-- The calls of the broker that the execution handler makes: `_request`, `_raise_for_status`,
-- `_classify_order_403`, `submit_order` and the lookups of backend/app/brokers/alpaca/rest.py, with
-- the exceptions of backend/app/brokers/errors.py. What the HTTP client gives is an argument; the
-- wait for the rate limiter before each call is left out.
use Prim.Native.Char.{code}
use Prim.Native.String
use Prim.Native.String.{String}
use roi_gen.Base.{
  ℕ, Bool, true, false, ◌&&◌, ◌||◌, Option, none, some, List, [], ◌∷◌, map, ltb, leb, ◌==◌,
  if◌then◌else◌, is_some, column_is,
}
use roi_gen.Models.Commands.{Text}
use roi_gen.Models.Rows.{Db}
use roi_gen.Flatten.Exposure.{starts_with}
use roi_gen.Risk.Request.{OrderRequest}
use roi_gen.Reconcile.Adopt.{OrderTree}
use roi_gen.Broker.Payload.{TreePayload, parse_order}
use roi_gen.Handler.Submit.{
  World, SubmitAnswer, accepted, order_rejected, rate_limited, ambiguous_state, unexpected, Replies,
  SubmitIdentity, Ended, submit_and_apply,
}
pub mod Definitive

-- A body as the 403 classification reads it: not JSON, not an object, or an object with its
-- message in lower case and its code where that is a number.
pub data ErrorBody : Type 0 where
  undecodable not_an_object : ErrorBody
  object : (message : Text) (error_code : Option ℕ) → ErrorBody

-- A response: its status, its body as an error and, if it decodes, as an order, and the number that
-- the header Retry-After holds.
pub record Response : Type 0 where
  pub status : ℕ
  pub error_body : ErrorBody
  pub payload : Option TreePayload
  pub retry_after : Option ℕ

-- What the client gives: a response, or a timeout or another transport error.
pub data Reply : Type 0 where
  responded : Response → Reply
  dropped : Reply

-- The exceptions, with the status of the response, if there is one.
pub data BrokerError : Type 0 where
  broker_error auth_error : (status : ℕ) → BrokerError
  broker_rate_limited : (status : ℕ) (retry_after : Option ℕ) → BrokerError
  rejected refused : (status : ℕ) (retryable_held_qty : Bool) → BrokerError
  unavailable ambiguous : (status : Option ℕ) → BrokerError

abbrev pub status_code : BrokerError → Option ℕ
status_code (broker_error status) = some status
status_code (auth_error status) = some status
status_code (broker_rate_limited status _) = some status
status_code (rejected status _) = some status
status_code (refused status _) = some status
status_code (unavailable status) = status
status_code (ambiguous status) = status

-- A call returns, or raises an error of the broker or another exception.
pub data Called {ℓ} (A : Type ℓ) : Type ℓ where
  returned : A → Called A
  raised : BrokerError → Called A
  crashed : Called A

abbrev codes : String → Text
codes String.[] = []
codes (String.◌∷◌ c s) = code c ∷ codes s

-- `needle in text`
abbrev pub is_in : Text → Text → Bool
is_in needle [] = starts_with needle []
is_in needle (c ∷ text) = starts_with needle (c ∷ text) || is_in needle text

abbrev pub insufficient_403_code : ℕ
insufficient_403_code = 40310000

-- Whether the body is a refusal of the order, and whether its shares are held.
unfoldable pub classify_order_403 : ErrorBody → Bool × Bool
classify_order_403 (object message error_code) =
    if is_in (codes "insufficient qty available") message
    then (true, true)
    else if column_is error_code insufficient_403_code
        || is_in (codes "insufficient buying power") message
    then (true, false)
    else if is_in (codes "wash trade") message
    then (true, false)
    else (false, false)
classify_order_403 _ = (false, false)

abbrev pub order_level_403 : Bool → ℕ → Bool × Bool → BrokerError
order_level_403 is_submit status (false, held) = auth_error status
order_level_403 true status (true, held) = rejected status held
order_level_403 false status (true, held) = refused status held

abbrev pub server_error : Bool → ℕ → BrokerError
server_error true status = ambiguous (some status)
server_error false status = unavailable (some status)

unfoldable pub raise_for_status : Bool → Response → Option BrokerError
unfolding classify_order_403
raise_for_status is_submit r =
    if ltb r.status 400
    then none
    else some (
        if r.status == 401
        then auth_error r.status
        else if r.status == 403
        then order_level_403 is_submit r.status (classify_order_403 r.error_body)
        else if r.status == 429
        then broker_rate_limited r.status r.retry_after
        else if (r.status == 400 || r.status == 422) && is_submit
        then rejected r.status false
        else if leb 500 r.status
        then server_error is_submit r.status
        else broker_error r.status)

abbrev pub raised_or {ℓ} : {A : Type ℓ} → Option BrokerError → A → Called A
raised_or none a = returned a
raised_or (some e) a = raised e

abbrev pub request : Bool → Reply → Called Response
request true dropped = raised (ambiguous none)
request false dropped = raised (unavailable none)
request is_submit (responded r) = raised_or (raise_for_status is_submit r) r

-- `self._parse_order(response.json())`
abbrev pub parsed : Called Response → Called OrderTree
parsed (returned r) = elim r.payload [
  | none ↦ crashed
  | some payload ↦ elim (parse_order payload) [ none ↦ crashed | some t ↦ returned t ]
]
parsed (raised e) = raised e
parsed crashed = crashed

abbrev pub submit_order : Reply → Called OrderTree
submit_order reply = parsed (request true reply)

abbrev pub or_missing : Called OrderTree → Called (Option OrderTree)
or_missing (returned t) = returned (some t)
or_missing (raised e) = if column_is (status_code e) 404 then returned none else raised e
or_missing crashed = crashed

-- `get_order` and `get_order_by_client_id`; parsing raises no error of the broker.
abbrev pub get_order : Reply → Called (Option OrderTree)
get_order reply = or_missing (parsed (request false reply))

abbrev pub is_noop : BrokerError → Bool
is_noop e = column_is (status_code e) 404 || column_is (status_code e) 422

abbrev pub cancel_order : Reply → Called (Unit {0})
cancel_order reply = elim (request false reply) [
  | returned r ↦ returned tt
  | raised e ↦ if is_noop e then returned tt else raised e
  | crashed ↦ crashed
]

-- The `except` clauses of `_submit_and_apply` in engine/execution/handler.py.
abbrev pub caught : BrokerError → SubmitAnswer
caught (rejected status held) = order_rejected held
caught (broker_rate_limited status after) = rate_limited
caught (ambiguous status) = ambiguous_state
caught _ = unexpected

abbrev pub submit_answer : Called OrderTree → SubmitAnswer
submit_answer (returned t) = accepted t
submit_answer (raised e) = caught e
submit_answer crashed = unexpected

abbrev pub lookup_answer : Called (Option OrderTree) → Option (Option OrderTree)
lookup_answer (returned found) = some found
lookup_answer _ = none

-- What the client gives to each call of one submission.
pub record Wire : Type 0 where
  pub submit : Reply
  pub lookups : List Reply
  pub nested : Reply
  pub meanwhile : Db → Db

abbrev pub replies_of : Wire → Replies
replies_of wire = record {
  submit = submit_answer (submit_order wire.submit);
  lookups = map (λ reply. lookup_answer (get_order reply)) wire.lookups;
  nested = lookup_answer (get_order wire.nested);
  meanwhile = wire.meanwhile;
}

unfoldable pub submit_over_wire : ℕ → OrderRequest → SubmitIdentity → Wire → World → Ended
unfolding submit_and_apply
submit_over_wire order req identity wire w = submit_and_apply order req identity (replies_of wire) w
