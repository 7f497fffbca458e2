-- ===== src/Kill/Service.antt =====
-- The writer of commands and the reader of status that the API and the CLI share:
-- backend/app/services/engine_commands.py.
use roi_gen.Base.{
  ℕ, suc, Bool, true, false, not, ◌&&◌, ◌||◌, Option, none, some, List, [], ◌∷◌, ◌++◌, map, ltb,
  leb, ◌==◌, if◌then◌else◌, select,
}
use roi_gen.Models.Enums.{EngineCommandAction}
use roi_gen.Models.Commands.{
  Text, ActionText, ResultText, EngineCommand, KillState, derive_kill_state, is_flatten, is_resume,
}
use roi_gen.Kill.Switch.{CommandLog, latest_command}

-- `str.isspace` of one code point.
abbrev pub is_space : ℕ → Bool
is_space c =
    leb 9 c && leb c 13
    || leb 28 c && leb c 32
    || c == 133
    || c == 160
    || c == 5760
    || leb 8192 c && leb c 8202
    || c == 8232
    || c == 8233
    || c == 8239
    || c == 8287
    || c == 12288

abbrev pub drop_spaces : Text → Text
drop_spaces [] = []
drop_spaces (c ∷ text) = if is_space c then drop_spaces text else c ∷ text

-- The text without the spaces at its end.
abbrev pub keep_char : ℕ → Text → Text
keep_char c [] = if is_space c then [] else c ∷ []
keep_char c (d ∷ text) = c ∷ d ∷ text

abbrev pub trim_end : Text → Text
trim_end [] = []
trim_end (c ∷ text) = keep_char c (trim_end text)

-- `str.strip`
abbrev pub strip : Text → Text
strip text = trim_end (drop_spaces text)

abbrev pub default_resume_reason : Text
default_resume_reason = 114 ∷ 101 ∷ 115 ∷ 117 ∷ 109 ∷ 101 ∷ []

abbrev pub global_scope : Text
global_scope = 103 ∷ 108 ∷ 111 ∷ 98 ∷ 97 ∷ 108 ∷ []

-- The larger sequence number of the resume rows, 0 where there is none.
abbrev pub last_resume_seq : List EngineCommand → ℕ
last_resume_seq [] = 0
last_resume_seq (row ∷ rows) =
    let rest = last_resume_seq rows in
    if is_resume row.action && ltb rest row.seq then row.seq else rest

-- A result that lets a resume pass.
abbrev pub is_resolved : Option ResultText → Bool
is_resolved none = false
is_resolved (some ResultText.flat_verified) = true
is_resolved (some ResultText.superseded) = true
is_resolved (some (ResultText.other text)) = false

abbrev pub blocks_resume : ℕ → EngineCommand → Bool
blocks_resume since row = is_flatten row.action && not (is_resolved row.result) && ltb since row.seq

-- `order_by(EngineCommand.seq)`
abbrev pub insert_by_seq : EngineCommand → List EngineCommand → List EngineCommand
insert_by_seq row [] = row ∷ []
insert_by_seq row (other ∷ rows) =
    let rest = insert_by_seq row rows in
    if leb row.seq other.seq then row ∷ other ∷ rows else other ∷ rest

abbrev pub order_by_seq : List EngineCommand → List EngineCommand
order_by_seq [] = []
order_by_seq (row ∷ rows) = insert_by_seq row (order_by_seq rows)

abbrev pub unresolved : List EngineCommand → List EngineCommand
unresolved rows = order_by_seq (select (blocks_resume (last_resume_seq rows)) rows)

-- The row that `issue_command` returns, or the error it raises.
pub data Issued : Type 0 where
  value_error : Issued
  resume_refused : List ℕ → Issued
  issued : EngineCommand → Issued

abbrev pub new_row : CommandLog → EngineCommandAction → Text → Text → ℕ → EngineCommand
new_row log action reason actor now = record {
  seq = log.next_seq;
  action = ActionText.known action;
  scope = global_scope;
  reason = reason;
  actor = actor;
  issued_at = now;
  applied_at = none;
  result = none;
}

abbrev pub insert_command : CommandLog → EngineCommandAction → Text → Text → ℕ → Issued × CommandLog
insert_command log action reason actor now =
    let row = new_row log action reason actor now in
    (Issued.issued row, record { rows = log.rows ++ (row ∷ []); next_seq = suc log.next_seq })

abbrev pub insert_unless :
    List EngineCommand → CommandLog → EngineCommandAction → Text → Text → ℕ → Issued × CommandLog
insert_unless [] log action reason actor now = insert_command log action reason actor now
insert_unless (row ∷ rows) log action reason actor now =
    (Issued.resume_refused (map EngineCommand.seq (row ∷ rows)), log)

-- `issue_command` once the reason is clean.
abbrev pub issue_clean : CommandLog → EngineCommandAction → Text → Text → ℕ → Issued × CommandLog
issue_clean log action reason actor now =
    if is_resume (ActionText.known action)
    then insert_unless (unresolved log.rows) log action reason actor now
    else insert_command log action reason actor now

abbrev pub issue_stripped : CommandLog → EngineCommandAction → Text → Text → ℕ → Issued × CommandLog
issue_stripped log action [] actor now =
    if is_resume (ActionText.known action)
    then issue_clean log action default_resume_reason actor now
    else (Issued.value_error, log)
issue_stripped log action (c ∷ text) actor now = issue_clean log action (c ∷ text) actor now

abbrev pub issue_command : CommandLog → EngineCommandAction → Text → Text → ℕ → Issued × CommandLog
issue_command log action reason actor now = issue_stripped log action (strip reason) actor now

-- The part of `read_status` that the table decides.
abbrev pub status_of : Option EngineCommand → KillState
status_of none = derive_kill_state none none
status_of (some latest) = derive_kill_state (some latest.action) latest.result

abbrev pub read_status : CommandLog → KillState
read_status log = status_of (latest_command log.rows)
