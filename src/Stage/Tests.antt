-- ===== src/Stage/Tests.antt =====
-- A bus with two types of events, a bucket of two tokens, and a signal through both stages: the
-- theorems there.
use roi_gen.Base.{
  ℕ, suc, ◌+◌, ◌<◌, ◌≡◌, refl, true, false, none, some, List, [], ◌∷◌, arith, sum_of, if◌then◌else◌,
  ◌==◌, Bool-cases, inl, inr,
}
use roi_gen.Risk.Tests.{limits, state, signal}
use roi_gen.Handler.Submit.{World, Replies, SubmitAnswer}
use roi_gen.Stage.Bus.{Outcome, Subscription, run_handlers, dispatch, drain}
use roi_gen.Stage.Bus.Fifo.{Empties, drain-Empties}
use roi_gen.Stage.TokenBucket.{TokenBucket, acquire_loop}
use roi_gen.Stage.TokenBucket.Bounds.{Spends, acquire_all, acquire_all-Spends}
use roi_gen.Stage.RiskStage.{on_signal}
use roi_gen.Stage.Cascade.{AtMostOne, deliver, signal-AtMostOne}

-- Events are numbers, of type 1 from 1 on. One of type 1 counts, and publishes 0.
abbrev kind : ℕ → ℕ
kind event = if event == 0 then 0 else 1

abbrev counting : List (Subscription ℕ ℕ)
counting = record { event_type = 1; handler = λ event s. Outcome.raised (suc s) (0 ∷ []) } ∷ []

abbrev weight : ℕ → ℕ
weight event = event + 1

counting-lighter : (event s : ℕ) → sum_of weight (dispatch kind counting event s).1 < weight event
unfolding dispatch run_handlers
counting-lighter event s = elim (Bool-cases (event == 0)) [
  | inl e ↦ rw e (omega arith)
  | inr e ↦ rw e (ground (arith, e))
]

drain-Empties_example :
    (s : ℕ) × (drain kind counting 9 (3 ∷ 0 ∷ []) 0 ≡ some s)
    × Empties kind counting (3 ∷ 0 ∷ []) 0 s
drain-Empties_example =
    drain-Empties kind counting weight counting-lighter 9 (3 ∷ 0 ∷ []) 0 (omega arith)

-- Two tokens, one per second.
abbrev bucket : TokenBucket
bucket = record { capacity = 120000000; rate_per_minute = 60; tokens = 120000000; updated_at = 0 }

abbrev requests : List (ℕ × List ℕ)
requests = (120000000, 5 ∷ []) ∷ (60000000, 10 ∷ 1000010 ∷ []) ∷ []

-- The second request waits a second for its token.
granted_test : (acquire_all requests bucket).0 ≡ 180000000
unfolding acquire_all acquire_loop
granted_test = refl

acquire_all-Spends_example :
    Spends (acquire_all requests bucket).0 bucket (acquire_all requests bucket).1
acquire_all-Spends_example = acquire_all-Spends requests bucket

abbrev idle : World
idle = record {
  db = record {
    orders = [];
    fills = [];
    positions = [];
    lots = [];
    lot_closes = [];
    event_log = [];
    next_id = 100;
    now = 5;
  };
  submissions = [];
  canceled = [];
}

abbrev refused : Replies
refused = record {
  submit = SubmitAnswer.order_rejected false;
  lookups = [];
  nested = none;
  meanwhile = λ db. db;
}

signal-AtMostOne_example :
    let (published, db) = on_signal limits (some state) 5 6 true signal idle.db in
    AtMostOne limits
      (some state)
      false
      signal
      idle
      (deliver false refused published (record idle { db = db }))
signal-AtMostOne_example = signal-AtMostOne limits (some state) false signal 5 6 true refused idle
