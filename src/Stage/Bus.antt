-- ===== src/Stage/Bus.antt =====
-- The event bus, backend/app/engine/bus.py. A handler takes an event and the state of the stages to
-- what its run comes to. `drain` is the loop until the queue is empty, on fuel: `none` where the
-- fuel does not suffice.
use roi_gen.Base.{
  ℕ, zero, suc, Bool, Option, none, some, List, [], ◌∷◌, ◌++◌, ◌==◌, if◌then◌else◌, select,
}
pub mod Fifo

module _ {ℓ} (S E : Type ℓ) where
  -- A handler returns or raises. In both cases it may have changed the state and published events.
  pub data Outcome : Type ℓ where
    returned raised : S → List E → Outcome

  pub record Subscription : Type ℓ where
    pub event_type : ℕ
    pub handler : E → S → Outcome

module _ {ℓ} {E : Type ℓ} where
  abbrev pub enqueue : E → List E → List E
  enqueue event queue = queue ++ (event ∷ [])

module _ {ℓ} {S E : Type ℓ} where
  -- `subscribe` adds the handler after the ones that are registered.
  abbrev pub subscribe :
      ℕ → (E → S → Outcome S E) → List (Subscription S E) → List (Subscription S E)
  subscribe event_type handler subs =
      subs ++ (record { event_type = event_type; handler = handler } ∷ [])

  -- The `try` around a handler: an exception is logged and dropped.
  abbrev pub shielded : Outcome S E → S × List E
  shielded (returned s published) = (s, published)
  shielded (raised s published) = (s, published)

  -- Each handler in turn.
  unfoldable pub run_handlers : List (Subscription S E) → E → S → S × List E
  run_handlers [] event s = (s, [])
  run_handlers (sub ∷ subs) event s =
      let (s', published) = shielded (sub.handler event s) in
      let (s'', later) = run_handlers subs event s' in (s'', published ++ later)

module _ {ℓ} {S E : Type ℓ} (type_of : E → ℕ) (subs : List (Subscription S E)) where
  -- The handlers of the event's concrete type.
  unfoldable pub dispatch : E → S → S × List E
  unfolding run_handlers
  dispatch event s = run_handlers (select (λ sub. sub.event_type == type_of event) subs) event s

  -- The state of the stages when the queue is empty.
  pub drain : ℕ → List E → S → Option S
  unfolding dispatch
  drain fuel [] s = some s
  drain zero (event ∷ queue) s = none
  drain (suc fuel) (event ∷ queue) s =
      let (s', published) = dispatch event s in drain fuel (queue ++ published) s'
