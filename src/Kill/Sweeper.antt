-- ===== src/Kill/Sweeper.antt =====
-- The sweep of the command table: backend/app/engine/commands.py. A sweep reads the latest row and
-- then writes; other writers can commit between the two, so each half is a definition.
use roi_gen.Base.{
  ℕ, Bool, false, ◌&&◌, Option, none, some, List, ltb, leb, is_some, not, any, update_where, select,
}
use roi_gen.Models.Commands.{ResultText, EngineCommand, is_flatten}
use roi_gen.Kill.Switch.{CommandLog, KillSwitch, apply_latest, latest_command, has_seq, with_result}

abbrev pub unseen : ℕ → EngineCommand → Bool
unseen latest_seq row = not (is_some row.applied_at) && leb row.seq latest_seq

abbrev pub with_applied_at : ℕ → EngineCommand → EngineCommand
with_applied_at now row = record {
  seq = row.seq;
  action = row.action;
  scope = row.scope;
  reason = row.reason;
  actor = row.actor;
  issued_at = row.issued_at;
  applied_at = some now;
  result = row.result;
}

-- The rows after the stamp, and whether the latest row was among those stamped.
abbrev pub stamp_applied : ℕ → ℕ → List EngineCommand → List EngineCommand × Bool
stamp_applied now latest_seq rows = (
  update_where (unseen latest_seq) (with_applied_at now) rows,
  any (has_seq latest_seq) (select (unseen latest_seq) rows),
)

abbrev pub is_stale : ℕ → EngineCommand → Bool
is_stale latest_seq row =
    is_flatten row.action && not (is_some row.result) && ltb row.seq latest_seq

abbrev pub supersede_stale_flattens : ℕ → List EngineCommand → List EngineCommand
supersede_stale_flattens latest_seq rows =
    update_where (is_stale latest_seq) (with_result ResultText.superseded) rows

-- What a sweep leaves: the table, the switch, whether it logged the command as newly applied, and
-- whether it poked the flatten controller.
pub record Swept : Type 0 where
  pub log : CommandLog
  pub switch : KillSwitch
  pub newly_seen : Bool
  pub poked : Bool

-- The rest of a sweep that read `latest`, on the table as it is when the sweep writes.
abbrev pub sweep_write : ℕ → CommandLog → Option EngineCommand → Swept
sweep_write now log none = record {
  log = log;
  switch = apply_latest none;
  newly_seen = false;
  poked = false;
}
sweep_write now log (some latest) =
    let stamped = stamp_applied now latest.seq log.rows in
    let switch = apply_latest (some latest) in
    record {
      log = record {
        rows = supersede_stale_flattens latest.seq stamped.0;
        next_seq = log.next_seq;
      };
      switch = switch;
      newly_seen = stamped.1;
      poked = switch.flattening;
    }

abbrev pub sweep : ℕ → CommandLog → Swept
sweep now log = sweep_write now log (latest_command log.rows)
