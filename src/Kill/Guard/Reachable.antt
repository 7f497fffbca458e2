-- ===== src/Kill/Guard/Reachable.antt =====
-- The engine and its operators as a step relation: commands are issued, a sweep reads and later
-- writes, the flatten controller records a verified flatten, the engine restarts.
use roi_gen.Base.{
  ℕ, ◌≤◌, ◌≡◌, ◌⊎◌, refl, true, false, Option, none, some, List, [], ◌∷◌, arith, All, inl, inr,
}
use roi_gen.Models.Enums.{EngineCommandAction}
use roi_gen.Models.Commands.{
  Text, ActionText, EngineCommand, is_flatten, is_resume, derive_kill_state,
}
use roi_gen.Kill.Switch.{
  CommandLog, KillSwitch, latest_command, mark_flatten_verified, fresh_switch, load,
}
use roi_gen.Kill.Sweeper.{sweep_write}
use roi_gen.Kill.Service.{is_resolved, issue_command, read_status, status_of}
use roi_gen.Kill.Latest.{latest_command-none, latest_command-max, latest_command-resume}
use roi_gen.Kill.Guard.{Settled, LogIsGuarded}
use roi_gen.Kill.Guard.Issuing.{issue_command-LogIsGuarded}
use roi_gen.Kill.Guard.Operations.{sweep_write-LogIsGuarded, mark_flatten_verified-LogIsGuarded}

-- The table, the engine's switch, and the row that a sweep in progress has read, if one is.
pub record Engine : Type 0 where
  pub log : CommandLog
  pub switch : KillSwitch
  pub sweeping : Option (Option EngineCommand)

abbrev pub first_engine : Engine
first_engine = record {
  log = record { rows = []; next_seq = 1 };
  switch = fresh_switch;
  sweeping = none;
}

-- A verification may come late, for whichever row it was started.
pub data Step : Engine → Engine → Type 0 where
  issue :
      (e : Engine) (action : EngineCommandAction) (reason actor : Text) (now : ℕ)
      → Step e (record {
        log = (issue_command e.log action reason actor now).1;
        switch = e.switch;
        sweeping = e.sweeping;
      })
  read :
      (e : Engine)
      → Step e
          (record { log = e.log; switch = e.switch; sweeping = some (latest_command e.log.rows) })
  write :
      (e : Engine) (now : ℕ) (latest : Option EngineCommand)
      → e.sweeping ≡ some latest
      → Step e (record {
        log = (sweep_write now e.log latest).log;
        switch = (sweep_write now e.log latest).switch;
        sweeping = none;
      })
  verify :
      (e : Engine) (seq : Option ℕ)
      → Step e (record {
        log = (mark_flatten_verified e.switch e.log seq).log;
        switch = (mark_flatten_verified e.switch e.log seq).switch;
        sweeping = e.sweeping;
      })
  restart : (e : Engine) → Step e (record { log = e.log; switch = load e.log; sweeping = none })

pub data Reachable : Engine → Type 0 where
  start : Reachable first_engine
  step : {d e : Engine} → Reachable d → Step d e → Reachable e

Step-LogIsGuarded : {d e : Engine} → Step d e → LogIsGuarded d.log → LogIsGuarded e.log
Step-LogIsGuarded (issue e action reason actor now) h =
    issue_command-LogIsGuarded e.log action reason actor now h
Step-LogIsGuarded (read e) h = h
Step-LogIsGuarded (write e now latest p) h = sweep_write-LogIsGuarded now e.log latest h
Step-LogIsGuarded (verify e seq) h = mark_flatten_verified-LogIsGuarded e.switch e.log seq h
Step-LogIsGuarded (restart e) h = h

pub Reachable-LogIsGuarded : {e : Engine} → Reachable e → LogIsGuarded e.log
Reachable-LogIsGuarded start = (omega arith, tt)
Reachable-LogIsGuarded (step r s) = Step-LogIsGuarded s (Reachable-LogIsGuarded r)

-- Only no row, or a resume, reads as armed.
armed_command :
    (latest : Option EngineCommand)
    → (status_of latest).halted ≡ false
    → (latest ≡ none)
      ⊎ ((row : EngineCommand) × (latest ≡ some row) × (is_resume row.action ≡ true))
armed_command none h = inl refl
armed_command (some row) h = inr (row, refl, armed_action row.action h)
  where
    armed_action :
        (a : ActionText)
        → (derive_kill_state (some a) row.result).halted ≡ false
        → is_resume a ≡ true
    armed_action (ActionText.known EngineCommandAction.resume) q = refl
    armed_action (ActionText.known EngineCommandAction.halt) q = absurd (grind arith)
    armed_action (ActionText.known EngineCommandAction.flatten) q = absurd (grind arith)
    armed_action (ActionText.unknown text) q = absurd (grind arith)

Settled-up_to :
    (next since top : ℕ) (rows : List EngineCommand)
    → top ≤ since
    → All (λ r. r.seq ≤ top) rows
    → All (Settled next since) rows
    → All (λ r. is_flatten r.action ≡ true → is_resolved r.result ≡ true) rows
Settled-up_to next since top [] le b s = tt
Settled-up_to next since top (r ∷ rows) le b s =
    (λ f. s.0.resolved f (omega (arith, b.0)), Settled-up_to next since top rows le b.1 s.1)

-- In every reachable state whose status reads as armed, each flatten command in the log has a
-- verified or a superseded outcome, whatever commands, sweeps, verifications and restarts led there.
pub armed-resolved :
    {e : Engine}
    → Reachable e
    → (read_status e.log).halted ≡ false
    → All (λ r. is_flatten r.action ≡ true → is_resolved r.result ≡ true) e.log.rows
armed-resolved {e} r h = elim (armed_command (latest_command e.log.rows) h) [
  | inl q ↦ rw (latest_command-none e.log.rows q) tt
  | inr (latest, q, a) ↦
      Settled-up_to _ _ latest.seq e.log.rows (latest_command-resume e.log.rows latest q a)
        (latest_command-max e.log.rows latest q) (Reachable-LogIsGuarded r).1
]
