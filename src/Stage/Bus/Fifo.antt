-- ===== src/Stage/Bus/Fifo.antt =====
-- A drain ends, and is a run of the bus: events first in, first out, each by all of its handlers.
use roi_gen.Base.{
  ℕ, zero, suc, ◌≤◌, ◌<◌, ◌≡◌, refl, true, false, some, List, [], ◌∷◌, ◌++◌, arith, ◌==◌, sum_of,
  sum_of-append, Bool-cases, inl, inr,
}
use roi_gen.Stage.Bus.{
  Outcome, returned, raised, Subscription, shielded, run_handlers, dispatch, drain,
}

-- How the handlers of an event act, one after the other, from one state to another with what they
-- publish.
pub data Served {ℓ} {S E : Type ℓ} (type_of : E → ℕ) (event : E)
    : List (Subscription S E) → S → S → List E → Type ℓ where
  all_called : {s : S} → Served type_of event [] s s []
  not_subscribed :
      {subs : List (Subscription S E)} {s s' : S} {later : List E} (sub : Subscription S E)
      → (sub.event_type == type_of event) ≡ false
      → Served type_of event subs s s' later
      → Served type_of event (sub ∷ subs) s s' later
  call_returned :
      {subs : List (Subscription S E)} {s s' s'' : S} {published later : List E}
      (sub : Subscription S E)
      → (sub.event_type == type_of event) ≡ true
      → sub.handler event s ≡ returned s' published
      → Served type_of event subs s' s'' later
      → Served type_of event (sub ∷ subs) s s'' (published ++ later)
  call_raised :
      {subs : List (Subscription S E)} {s s' s'' : S} {published later : List E}
      (sub : Subscription S E)
      → (sub.event_type == type_of event) ≡ true
      → sub.handler event s ≡ raised s' published
      → Served type_of event subs s' s'' later
      → Served type_of event (sub ∷ subs) s s'' (published ++ later)

-- How a bus empties its queue: the first event is served, and what its handlers publish goes behind
-- the events that wait.
pub data Empties {ℓ} {S E : Type ℓ} (type_of : E → ℕ) (subs : List (Subscription S E))
    : List E → S → S → Type ℓ where
  idle : {s : S} → Empties type_of subs [] s s
  serve :
      {queue published : List E} {s s' s'' : S} (event : E)
      → Served type_of event subs s s' published
      → Empties type_of subs (queue ++ published) s' s''
      → Empties type_of subs (event ∷ queue) s s''

module _ {ℓ} {S E : Type ℓ} (type_of : E → ℕ) where
  called_first :
      (sub : Subscription S E) (subs : List (Subscription S E)) (event : E) (s : S)
      (o : Outcome S E)
      → (sub.event_type == type_of event) ≡ true
      → sub.handler event s ≡ o
      → ((s' : S)
          → Served type_of event subs s'
              (dispatch type_of subs event s').0
              (dispatch type_of subs event s').1)
      → let (s', published) = shielded o in
        Served type_of event
          (sub ∷ subs)
          s
          (dispatch type_of subs event s').0
          (published ++ (dispatch type_of subs event s').1)
  called_first sub subs event s (returned s' published) own e rest =
      call_returned sub own e (rest s')
  called_first sub subs event s (raised s' published) own e rest = call_raised sub own e (rest s')

  dispatch-Served :
      (subs : List (Subscription S E)) (event : E) (s : S)
      → let (s', published) = dispatch type_of subs event s in
        Served type_of event subs s s' published
  unfolding dispatch run_handlers
  dispatch-Served [] event s = all_called
  dispatch-Served (sub ∷ subs) event s = elim (Bool-cases (sub.event_type == type_of event)) [
    | inr other ↦ rw other (not_subscribed sub other (dispatch-Served subs event s))
    | inl own ↦
        rw own (
          called_first sub subs event s (sub.handler event s) own refl (dispatch-Served subs event))
  ]

module _ {ℓ} {S E : Type ℓ} (type_of : E → ℕ) (subs : List (Subscription S E)) (weight : E → ℕ)
    (lighter : (event : E) (s : S)
      → sum_of weight (dispatch type_of subs event s).1 < weight event) where
  -- Where the events that the handlers of an event publish weigh less together than the event, as
  -- in a cascade without cycles, a drain with the weight of the queue as fuel ends, in the state that
  -- serving the events first in, first out comes to: each event, queued or published on the way, by
  -- every handler that is subscribed to its type, in the order of subscription, whichever handlers
  -- before it raised.
  pub drain-Empties :
      (fuel : ℕ) (queue : List E) (s : S)
      → sum_of weight queue ≤ fuel
      → (s' : S) × (drain type_of subs fuel queue s ≡ some s') × Empties type_of subs queue s s'
  unfolding drain
  drain-Empties fuel [] s enough = (s, refl, idle)
  drain-Empties zero (event ∷ queue) s enough = absurd (omega (arith, lighter event s, enough))
  drain-Empties (suc fuel) (event ∷ queue) s enough =
      let (s', published) = dispatch type_of subs event s in
      let fits : sum_of weight (queue ++ published) ≤ fuel =
        omega (arith, sum_of-append weight queue published, lighter event s, enough) in
      let (s'', e, rest) = drain-Empties fuel (queue ++ published) s' fits in
      (s'', e, serve event (dispatch-Served type_of subs event s) rest)
