-- ===== src/Stage/Gate/Tests.antt =====
-- An approved order while the feed is live, and after it has gone quiet.
use roi_gen.Base.{ℕ, ◌≡◌, ◌⊎◌, refl, true, false, some, List, [], ◌∷◌, pos, ◌-ℤ◌}
use roi_gen.Kill.Switch.{fresh_switch}
use roi_gen.Handler.Submit.{Submission}
use roi_gen.Handler.Entry.{on_order}
use roi_gen.Handler.Tests.{approved, timeout, idle}
use roi_gen.Stage.FeedHealth.{Stamp, HealthKey, new_feed_health, poll_all}
use roi_gen.Stage.FeedHealth.Fresh.{EndsFresh}
use roi_gen.Stage.Gate.{Gate, halted, IsOpen, on_order-Gated}

abbrev key : HealthKey
key =
    HealthKey.document
      (record { status_is_ok = true; stamped_at = Stamp.at 100; window = some (pos 50) })

abbrev gate_after : List (ℕ × HealthKey) → Gate
gate_after reads = record {
  boot_reconciled = true;
  critical = false ∷ false ∷ [];
  kill_switch = fresh_switch;
  feed_health = poll_all reads new_feed_health;
}

-- 150 is still within the window, 151 is not.
halted_test :
    (halted (gate_after ((150, key) ∷ [])) ≡ false)
    × (halted (gate_after ((150, key) ∷ (151, key) ∷ [])) ≡ true)
    × (halted (gate_after []) ≡ true)
unfolding poll_all ◌-ℤ◌
halted_test = (refl, refl, refl)

abbrev reads : List (ℕ × HealthKey)
reads = (150, key) ∷ []

on_order-Gated_example :
    let w' = on_order (halted (gate_after reads)) approved timeout idle in
    (w'.submissions ≡ [])
    ⊎ (IsOpen (gate_after reads) × EndsFresh reads × ((s : Submission) × (w'.submissions ≡ s ∷ [])))
on_order-Gated_example = on_order-Gated approved (gate_after reads) reads timeout idle refl
