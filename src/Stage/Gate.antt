-- ===== src/Stage/Gate.antt =====
-- The halt composite that both stages read, `halted` of backend/app/engine_main.py.
use roi_gen.Base.{
  ℕ, ◌≡◌, ◌⊎◌, refl, Bool, true, false, not, ◌||◌, Option, some, List, [], ◌∷◌, arith, any, All,
  Bool-cases, inl, inr,
}
use roi_gen.Kill.Switch.{KillSwitch}
use roi_gen.Handler.Submit.{Submission, World, Replies}
use roi_gen.Handler.Entry.{OrderEvent, on_order}
use roi_gen.Handler.Entry.Guarded.{on_order-Guarded}
use roi_gen.Stage.FeedHealth.{HealthKey, FeedHealth, new_feed_health, poll_all}
use roi_gen.Stage.FeedHealth.Fresh.{EndsFresh, poll_all-EndsFresh}
mod Tests

-- What the closure reads: the event that boot reconciliation sets, whether each critical task is
-- done, the kill switch and the feed's health.
pub record Gate : Type 0 where
  pub boot_reconciled : Bool
  pub critical : List Bool
  pub kill_switch : KillSwitch
  pub feed_health : FeedHealth

abbrev pub halted : Gate → Bool
halted g =
    not g.boot_reconciled
    || any (λ done. done) g.critical
    || g.kill_switch.halted
    || g.feed_health.stale

-- The gate is open.
pub record IsOpen (g : Gate) : Type 0 where
  pub reconciled : g.boot_reconciled ≡ true
  pub alive : All (λ done. done ≡ false) g.critical
  pub running : g.kill_switch.halted ≡ false
  pub live : g.feed_health.stale ≡ false

none_done :
    (critical : List Bool) → any (λ done. done) critical ≡ false → All (λ d. d ≡ false) critical
none_done [] h = tt
none_done (true ∷ critical) h = absurd (cc h)
none_done (false ∷ critical) h = (refl, none_done critical h)

halted-IsOpen : (g : Gate) → halted g ≡ false → IsOpen g
halted-IsOpen g h = record {
  reconciled = ground (arith, h);
  alive = none_done g.critical (ground (arith, h));
  running = ground (arith, h);
  live = ground (arith, h);
}

-- An order event submits only through an open gate: boot reconciliation is over, no critical task has
-- ended, the kill switch is not halted, and the last poll of the feed's health found a key that says
-- ok and is no older than the window stamped into it. Otherwise no submission is made.
pub on_order-Gated :
    (event : OrderEvent) (g : Gate) (reads : List (ℕ × HealthKey)) (replies : Replies) (w : World)
    → g.feed_health ≡ poll_all reads new_feed_health
    → ((on_order (halted g) event replies w).submissions ≡ w.submissions)
      ⊎ (IsOpen g
          × EndsFresh reads
          × ((s : Submission) × ((on_order (halted g) event replies w).submissions
                ≡ s ∷ w.submissions)))
on_order-Gated event g reads replies w fed = elim (on_order-Guarded (halted g) event replies w) [
  | inl same ↦ inl same
  | inr (s, approval, guarded, one) ↦
      let open_gate = halted-IsOpen g guarded.running in
      inr (open_gate, poll_all-EndsFresh reads (rw fed at open_gate.live), (s, one))
]
