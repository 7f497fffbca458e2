-- ===== src/Stage/Cascade.antt =====
-- From a signal to a submission: what the risk stage publishes is handled by the execution stage.
use roi_gen.Base.{
  ℕ, ◌≡◌, ◌⊎◌, refl, sym, Bool, true, false, Option, none, some, List, [], ◌∷◌, Option-cases, inl,
  inr, subst,
}
use roi_gen.Models.Rows.{Db}
use roi_gen.Risk.Request.{OrderRequest}
use roi_gen.Risk.Controls.{SignalEvent, RiskState, RiskLimits}
use roi_gen.Risk.Engine.{RiskApproval, RiskDecision, evaluate}
use roi_gen.Risk.Verdict.{Cleared, Protected, Verdict, approved, rejected, evaluate-Verdict}
use roi_gen.Handler.Submit.{Submission, World, Replies}
use roi_gen.Handler.Entry.{on_order}
use roi_gen.Handler.Entry.Guarded.{on_order-Guarded}
use roi_gen.Stage.RiskStage.{
  Published, order_event, flatten_order_event, audit_error, route, route_decided, on_signal,
}

-- The order events in turn; a flatten runs as a task of its own.
pub deliver : Bool → Replies → List Published → World → World
deliver halted replies [] w = w
deliver halted replies (order_event e ∷ ps) w =
    deliver halted replies ps (on_order halted e replies w)
deliver halted replies (flatten_order_event a ∷ ps) w = deliver halted replies ps w

module _ (limits : RiskLimits) (loaded : Option RiskState) (halted : Bool)
    (signal : SignalEvent) where
  -- What one submission of the cascade stands for.
  pub record IsCleared (s : Submission) : Type 0 where
    pub state : RiskState
    pub read : loaded ≡ some state
    pub cleared : Cleared limits signal state
    pub protected_ : Protected signal s.request
    pub running : halted ≡ false

  abbrev pub AtMostOne : World → World → Type 0
  AtMostOne w w' =
      (w'.submissions ≡ w.submissions)
      ⊎ ((s : Submission) × IsCleared s × (w'.submissions ≡ s ∷ w.submissions))

  abbrev Delivered : Replies → World → List Published × Db → Type 0
  Delivered replies w (published, db) =
      AtMostOne w (deliver halted replies published (record w { db = db }))

  approved-AtMostOne :
      (state : RiskState) (request : OrderRequest) (approval : RiskApproval) (replies : Replies)
      (w : World)
      → loaded ≡ some state
      → Cleared limits signal state
      → Protected signal request
      → AtMostOne w
          (on_order halted (record { order_request = request; approval = some approval }) replies w)
  approved-AtMostOne state request approval replies w read cleared safe =
      elim (on_order-Guarded halted (record { order_request = request; approval = some approval })
        replies w) [
          | inl same ↦ inl same
          | inr (s, minted, guarded, one) ↦ inr (
            s,
            record {
              state = state;
              read = read;
              cleared = cleared;
              protected_ = subst (Protected signal) (sym guarded.request) safe;
              running = guarded.running;
            },
            one,
          )
        ]

  decided-AtMostOne :
      (commits : Bool) (state : RiskState) (decision : Option RiskDecision) (replies : Replies)
      (w : World)
      → loaded ≡ some state
      → Verdict limits signal state decision
      → let (published, db) = route_decided commits signal decision w.db in
        AtMostOne w (deliver halted replies published (record w { db = db }))
  unfolding deliver route
  decided-AtMostOne false state none replies w read v = inl refl
  decided-AtMostOne true state none replies w read v = inl refl
  decided-AtMostOne false state (some d) replies w read v = inl refl
  decided-AtMostOne true state _ replies w read (approved approval request clear safe q fits) =
      approved-AtMostOne state request approval replies _ read clear safe
  decided-AtMostOne true state _ replies w read (rejected failed first e unmet) = inl refl

  -- A signal leads to at most one submission to the broker. It leads to one only where the state
  -- was loaded and clears every control for the signal, the loss limits, the sizing and the margin
  -- headroom among them, the request that is submitted is protected by a stop as the risk engine
  -- built it, and the kill switch is not halted at the check.
  pub signal-AtMostOne :
      (client_order_id now : ℕ) (commits : Bool) (replies : Replies) (w : World)
      → let (published, db) = on_signal limits loaded client_order_id now commits signal w.db in
        AtMostOne w (deliver halted replies published (record w { db = db }))
  unfolding on_signal deliver
  signal-AtMostOne id now commits replies w = elim (Option-cases loaded) [
    | inl e ↦
        let runs : on_signal limits loaded id now commits signal w.db
            ≡ ([], audit_error signal w.db) =
          rw (e, on_signal) refl in
        subst (Delivered replies w) (sym runs) (inl refl)
    | inr (state, e) ↦
        let decision = evaluate limits signal state id now in
        let runs : on_signal limits loaded id now commits signal w.db
            ≡ route_decided commits signal decision w.db =
          rw (e, on_signal) refl in
        subst (Delivered replies w) (sym runs) (
          decided-AtMostOne commits state decision replies w e
            (evaluate-Verdict limits signal state id now))
  ]
