-- ===== src/Kill/Guard.antt =====
-- What the resume guard of backend/app/services/engine_commands.py keeps over any interleaving of
-- commands, sweeps and verifications.
use roi_gen.Base.{
  ℕ, suc, ◌≤◌, ◌<◌, ◌≡◌, refl, sym, subst, ◌∙◌, Bool, true, false, not, Option, none, some, List,
  [], ◌∷◌, ◌++◌, arith, ltb, leb, ◌&&◌, if◌then◌else◌, All, All-append, All-weaken, update_where,
  select, Option-cases, Bool-cases, inl, inr,
}
use roi_gen.Models.Enums.{EngineCommandAction}
use roi_gen.Models.Commands.{
  Text, ActionText, EngineCommand, KillState, is_flatten, is_resume, ResultText, derive_kill_state,
}
use roi_gen.Kill.Switch.{
  CommandLog, KillSwitch, Marked, newest, latest_command, mark_flatten_verified, mark_row, has_seq,
  with_result, fresh_switch, load, apply_latest,
}
use roi_gen.Kill.Sweeper.{
  Swept, sweep_write, stamp_applied, supersede_stale_flattens, unseen, with_applied_at, is_stale,
}
use roi_gen.Kill.Service.{
  Issued, last_resume_seq, is_resolved, blocks_resume, insert_by_seq, order_by_seq, unresolved,
  issue_command, issue_stripped, issue_clean, insert_unless, insert_command, strip, read_status,
  default_resume_reason,
}
pub mod Operations
pub mod Issuing
pub mod Reachable

-- A row of an earlier operation: numbered below the next one, and a flatten up to the resume
-- `since` has a verified or superseded outcome.
pub record Settled (next since : ℕ) (row : EngineCommand) : Type 0 where
  pub numbered : row.seq < next
  pub resolved : is_flatten row.action ≡ true → row.seq ≤ since → is_resolved row.result ≡ true

abbrev pub LogIsGuarded : CommandLog → Type 0
LogIsGuarded log =
    (0 < log.next_seq) × All (Settled log.next_seq (last_resume_seq log.rows)) log.rows

-- An update that keeps a row's key and action, and never unsettles a result.
pub record Keeps (old new : EngineCommand) : Type 0 where
  pub seq : new.seq ≡ old.seq
  pub action : new.action ≡ old.action
  pub resolved : is_resolved old.result ≡ true → is_resolved new.result ≡ true

last_resume-update :
    (p : EngineCommand → Bool) (f : EngineCommand → EngineCommand)
    → ((r : EngineCommand) → Keeps r (if p r then f r else r))
    → (rows : List EngineCommand) → last_resume_seq (update_where p f rows) ≡ last_resume_seq rows
last_resume-update p f h [] = refl
last_resume-update p f h (row ∷ rows) =
    rw ((h row).seq, (h row).action, last_resume-update p f h rows) refl

Settled-kept :
    (next since : ℕ) (old new : EngineCommand)
    → Keeps old new
    → Settled next since old
    → Settled next since new
Settled-kept next since old new k s = record {
  numbered = omega (arith, s.numbered, k.seq);
  resolved =
      λ hf hs. k.resolved (s.resolved (ap_flatten (sym k.action) hf) (omega (arith, hs, k.seq)));
}
  where
    ap_flatten : {a b : ActionText} → a ≡ b → is_flatten b ≡ true → is_flatten a ≡ true
    ap_flatten e h = rw (e) h

Settled-update :
    (next since : ℕ) (p : EngineCommand → Bool) (f : EngineCommand → EngineCommand)
    → ((r : EngineCommand) → Keeps r (if p r then f r else r))
    → (rows : List EngineCommand) → All (Settled next since) rows
    → All (Settled next since) (update_where p f rows)
Settled-update next since p f h [] s = tt
Settled-update next since p f h (row ∷ rows) s =
    (Settled-kept next since _ _ (h row) s.0, Settled-update next since p f h rows s.1)

pub LogIsGuarded-update :
    (p : EngineCommand → Bool) (f : EngineCommand → EngineCommand)
    → ((r : EngineCommand) → Keeps r (if p r then f r else r))
    → (rows : List EngineCommand) (next : ℕ)
    → LogIsGuarded (record { rows = rows; next_seq = next })
    → LogIsGuarded (record { rows = update_where p f rows; next_seq = next })
LogIsGuarded-update p f h rows next s =
    (s.0, rw (last_resume-update p f h rows) (Settled-update next _ p f h rows s.1))
