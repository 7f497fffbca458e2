-- ===== src/Kill/Tests.antt =====
-- Runs of the kill switch, and the theorems at those inputs.
use roi_gen.Base.{◌≡◌, refl, true, none, some, [], ◌∷◌, All}
use roi_gen.Models.Enums.{EngineCommandAction}
use roi_gen.Models.Commands.{Text, is_flatten}
use roi_gen.Kill.Switch.{CommandLog, mark_flatten_verified, fresh_switch, latest_command}
use roi_gen.Kill.Sweeper.{sweep}
use roi_gen.Kill.Service.{
  issue_command, read_status, is_resolved, resume_refused, value_error, strip,
}
use roi_gen.Kill.Guard.Reachable.{
  Engine, first_engine, Reachable, start, step, issue, read, write, verify, armed-resolved,
  Reachable-LogIsGuarded,
}
use roi_gen.Kill.Issue.{Outcome, issue_command-Outcome}
use roi_gen.Kill.Agreement.{state_of, sweep-read_status}

-- "go", with spaces around it.
abbrev go : Text
go = 32 ∷ 103 ∷ 111 ∷ 32 ∷ []

strip-go : strip go ≡ 103 ∷ 111 ∷ []
strip-go = refl

-- A flatten has been issued.
abbrev flattening : CommandLog
flattening = (issue_command first_engine.log EngineCommandAction.flatten go [] 10).1

flatten_blocks :
    (issue_command flattening EngineCommandAction.resume [] [] 11).0 ≡ resume_refused (1 ∷ [])
flatten_blocks = refl

blank_refused :
    (issue_command flattening EngineCommandAction.halt (32 ∷ 9 ∷ []) [] 11).0 ≡ value_error
blank_refused = refl

-- The flatten, a sweep, its verification and a resume.
abbrev after_flatten : Engine
after_flatten = record { log = flattening; switch = fresh_switch; sweeping = none }

abbrev after_read : Engine
after_read = record {
  log = flattening;
  switch = fresh_switch;
  sweeping = some (latest_command flattening.rows);
}

abbrev after_write : Engine
after_write = record {
  log = (sweep 12 flattening).log;
  switch = (sweep 12 flattening).switch;
  sweeping = none;
}

abbrev after_verify : Engine
after_verify = record {
  log = (mark_flatten_verified after_write.switch after_write.log (some 1)).log;
  switch = (mark_flatten_verified after_write.switch after_write.log (some 1)).switch;
  sweeping = none;
}

abbrev after_resume : Engine
after_resume = record {
  log = (issue_command after_verify.log EngineCommandAction.resume [] [] 13).1;
  switch = after_verify.switch;
  sweeping = none;
}

flatten_reached : Reachable after_flatten
flatten_reached = step start (issue first_engine EngineCommandAction.flatten go [] 10)

resume_reached : Reachable after_resume
resume_reached =
    step
      (step
        (step (step flatten_reached (read after_flatten))
          (write after_read 12 (latest_command flattening.rows) refl))
        (verify after_write (some 1)))
      (issue after_verify EngineCommandAction.resume [] [] 13)

armed-resolved_example :
    All (λ r. is_flatten r.action ≡ true → is_resolved r.result ≡ true) after_resume.log.rows
armed-resolved_example = armed-resolved resume_reached refl

issue_command-Outcome_example :
    Outcome flattening EngineCommandAction.halt
      (issue_command flattening EngineCommandAction.halt go [] 14)
issue_command-Outcome_example =
    issue_command-Outcome flattening EngineCommandAction.halt go [] 14
      (Reachable-LogIsGuarded flatten_reached)

-- A halt over the flatten, not yet swept.
abbrev halted : CommandLog
halted = (issue_command flattening EngineCommandAction.halt go [] 14).1

sweep-read_status_example :
    (state_of (sweep 15 halted).switch ≡ read_status (sweep 15 halted).log)
    × (read_status (sweep 15 halted).log ≡ read_status halted)
sweep-read_status_example = sweep-read_status 15 halted
