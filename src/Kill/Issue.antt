-- ===== src/Kill/Issue.antt =====
-- What issuing a command does to the status: `issue_command` of
-- backend/app/services/engine_commands.py.
use roi_gen.Base.{ℕ, ◌<◌, ◌≡◌, refl, ap, none, some, List, [], ◌∷◌, ◌++◌, arith, All, All-weaken}
use roi_gen.Models.Enums.{EngineCommandAction}
use roi_gen.Models.Commands.{Text, ActionText, EngineCommand, derive_kill_state}
use roi_gen.Kill.Switch.{CommandLog, latest_command}
use roi_gen.Kill.Service.{
  Issued, issue_command, issue_stripped, issue_clean, insert_unless, insert_command, strip,
  unresolved, default_resume_reason, read_status, status_of, new_row, value_error, resume_refused,
}
use roi_gen.Kill.Guard.{LogIsGuarded}

latest_command-append :
    (rows : List EngineCommand) (row : EngineCommand)
    → All (λ r. r.seq < row.seq) rows
    → latest_command (rows ++ (row ∷ [])) ≡ some row
latest_command-append [] row h = refl
latest_command-append (r ∷ rows) row h =
    rw (latest_command-append rows row h.1) (grind (arith, h.0))

-- An issued command decides the status; anything else leaves the log alone.
pub data Outcome (log : CommandLog) (action : EngineCommandAction)
    : Issued × CommandLog → Type 0 where
  refused_blank : Outcome log action (value_error, log)
  refused_resume : (seqs : List ℕ) → Outcome log action (resume_refused seqs, log)
  taken :
      (row : EngineCommand) (after : CommandLog)
      → after.rows ≡ log.rows ++ (row ∷ [])
      → read_status after ≡ derive_kill_state (some (ActionText.known action)) none
      → Outcome log action (Issued.issued row, after)

insert_command-Outcome :
    (log : CommandLog) (action : EngineCommandAction) (reason actor : Text) (now : ℕ)
    → LogIsGuarded log
    → Outcome log action (insert_command log action reason actor now)
insert_command-Outcome log action reason actor now h =
    let row = new_row log action reason actor now in
    taken row _ refl (
      ap status_of
        (latest_command-append log.rows row (All-weaken _ _ log.rows (λ r s. s.numbered) h.1)))

insert_unless-Outcome :
    (blocking : List EngineCommand) (log : CommandLog) (action : EngineCommandAction)
    (reason actor : Text) (now : ℕ)
    → LogIsGuarded log
    → Outcome log action (insert_unless blocking log action reason actor now)
insert_unless-Outcome [] log action reason actor now h =
    insert_command-Outcome log action reason actor now h
insert_unless-Outcome (r ∷ rows) log action reason actor now h = refused_resume _

issue_clean-Outcome :
    (log : CommandLog) (action : EngineCommandAction) (reason actor : Text) (now : ℕ)
    → LogIsGuarded log
    → Outcome log action (issue_clean log action reason actor now)
issue_clean-Outcome log EngineCommandAction.resume reason actor now h =
    insert_unless-Outcome (unresolved log.rows) log EngineCommandAction.resume reason actor now h
issue_clean-Outcome log EngineCommandAction.halt reason actor now h =
    insert_command-Outcome log EngineCommandAction.halt reason actor now h
issue_clean-Outcome log EngineCommandAction.flatten reason actor now h =
    insert_command-Outcome log EngineCommandAction.flatten reason actor now h

issue_stripped-Outcome :
    (log : CommandLog) (action : EngineCommandAction) (reason actor : Text) (now : ℕ)
    → LogIsGuarded log
    → Outcome log action (issue_stripped log action reason actor now)
issue_stripped-Outcome log action (c ∷ text) actor now h =
    issue_clean-Outcome log action (c ∷ text) actor now h
issue_stripped-Outcome log EngineCommandAction.resume [] actor now h =
    issue_clean-Outcome log EngineCommandAction.resume default_resume_reason actor now h
issue_stripped-Outcome log EngineCommandAction.halt [] actor now h = refused_blank
issue_stripped-Outcome log EngineCommandAction.flatten [] actor now h = refused_blank

-- On a guarded log, issuing a command either raises one of its two errors and leaves the log as it
-- was, or appends the returned row, after which the status is the one of that command.
pub issue_command-Outcome :
    (log : CommandLog) (action : EngineCommandAction) (reason actor : Text) (now : ℕ)
    → LogIsGuarded log
    → Outcome log action (issue_command log action reason actor now)
issue_command-Outcome log action reason actor now h =
    issue_stripped-Outcome log action (strip reason) actor now h
