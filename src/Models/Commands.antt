-- ===== src/Models/Commands.antt =====
-- The command log of the kill switch: backend/app/models/engine_command.py.
use roi_gen.Base.{ℕ, Bool, true, false, not, Option, none, some, List}
use roi_gen.Models.Enums.{EngineCommandAction}

-- A text is the list of its code points.
abbrev pub Text : Type 0
Text = List ℕ

-- The column `action` is free text: a member of the enumeration, or anything else.
pub data ActionText : Type 0 where
  known : EngineCommandAction → ActionText
  unknown : Text → ActionText

-- The column `result`: the two outcomes the code names, or any other text.
pub data ResultText : Type 0 where
  flat_verified superseded : ResultText
  other : Text → ResultText

pub record EngineCommand : Type 0 where
  pub seq : ℕ
  pub action : ActionText
  pub scope : Text
  pub reason : Text
  pub actor : Text
  pub issued_at : ℕ
  pub applied_at : Option ℕ
  pub result : Option ResultText

pub record KillState : Type 0 where
  pub halted : Bool
  pub flattening : Bool

-- `latest_result == RESULT_FLAT_VERIFIED`
abbrev pub is_flat_verified : Option ResultText → Bool
is_flat_verified (some ResultText.flat_verified) = true
is_flat_verified _ = false

abbrev pub derive_kill_state : Option ActionText → Option ResultText → KillState
derive_kill_state none result = record { halted = false; flattening = false }
derive_kill_state (some (ActionText.known EngineCommandAction.resume)) result = record {
  halted = false;
  flattening = false;
}
derive_kill_state (some (ActionText.known EngineCommandAction.halt)) result = record {
  halted = true;
  flattening = false;
}
derive_kill_state (some (ActionText.known EngineCommandAction.flatten)) result = record {
  halted = true;
  flattening = not (is_flat_verified result);
}
derive_kill_state (some (ActionText.unknown text)) result = record {
  halted = true;
  flattening = false;
}

abbrev pub is_flatten : ActionText → Bool
is_flatten (ActionText.known EngineCommandAction.flatten) = true
is_flatten _ = false

abbrev pub is_resume : ActionText → Bool
is_resume (ActionText.known EngineCommandAction.resume) = true
is_resume _ = false
