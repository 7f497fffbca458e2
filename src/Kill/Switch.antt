-- ===== src/Kill/Switch.antt =====
-- The in-memory view of the command log: backend/app/engine/kill_switch.py.
use roi_gen.Base.{
  ℕ, Bool, true, false, Option, none, some, List, [], ◌∷◌, ltb, ◌==◌, if◌then◌else◌, find,
  update_where,
}
use roi_gen.Models.Commands.{Text, ResultText, EngineCommand, derive_kill_state}

-- The table `engine_commands` and its identity sequence, which starts at 1.
pub record CommandLog : Type 0 where
  pub rows : List EngineCommand
  pub next_seq : ℕ

pub record KillSwitch : Type 0 where
  pub halted : Bool
  pub flattening : Bool
  pub reason : Option Text
  pub latest_seq : Option ℕ

-- The switch as `__init__` leaves it.
abbrev pub fresh_switch : KillSwitch
fresh_switch = record { halted = false; flattening = false; reason = none; latest_seq = none }

-- The row with the larger sequence number.
abbrev pub newest : EngineCommand → Option EngineCommand → Option EngineCommand
newest row none = some row
newest row (some later) = if ltb later.seq row.seq then some row else some later

-- `select(EngineCommand).order_by(EngineCommand.seq.desc()).limit(1)`
abbrev pub latest_command : List EngineCommand → Option EngineCommand
latest_command [] = none
latest_command (row ∷ rows) = newest row (latest_command rows)

abbrev pub flatten_command_seq : KillSwitch → Option ℕ
flatten_command_seq switch = if switch.flattening then switch.latest_seq else none

abbrev pub apply_latest : Option EngineCommand → KillSwitch
apply_latest none = record { halted = false; flattening = false; reason = none; latest_seq = none }
apply_latest (some latest) =
    let state = derive_kill_state (some latest.action) latest.result in
    record {
      halted = state.halted;
      flattening = state.flattening;
      reason = some latest.reason;
      latest_seq = some latest.seq;
    }

abbrev pub load : CommandLog → KillSwitch
load log = apply_latest (latest_command log.rows)

abbrev pub has_seq : ℕ → EngineCommand → Bool
has_seq seq row = row.seq == seq

abbrev pub with_result : ResultText → EngineCommand → EngineCommand
with_result result row = record {
  seq = row.seq;
  action = row.action;
  scope = row.scope;
  reason = row.reason;
  actor = row.actor;
  issued_at = row.issued_at;
  applied_at = row.applied_at;
  result = some result;
}

-- What a call of `mark_flatten_verified` returns and leaves.
pub record Marked : Type 0 where
  pub newly : Bool
  pub switch : KillSwitch
  pub log : CommandLog

abbrev pub mark_row : KillSwitch → CommandLog → ℕ → Option EngineCommand → Marked
mark_row switch log seq none = record { newly = false; switch = switch; log = log }
mark_row switch log seq (some row) = elim row.result [
  | some result ↦ record { newly = false; switch = switch; log = log }
  | none ↦ record {
    newly = true;
    switch = record {
      halted = switch.halted;
      flattening = false;
      reason = switch.reason;
      latest_seq = switch.latest_seq;
    };
    log = record {
      rows = update_where (has_seq seq) (with_result ResultText.flat_verified) log.rows;
      next_seq = log.next_seq;
    };
  }
]

abbrev pub mark_flatten_verified : KillSwitch → CommandLog → Option ℕ → Marked
mark_flatten_verified switch log none = record { newly = false; switch = switch; log = log }
mark_flatten_verified switch log (some seq) = mark_row switch log seq (find (has_seq seq) log.rows)
