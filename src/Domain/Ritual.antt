-- ===== src/Domain/Ritual.antt =====
-- `RitualDefinition`, its validator, and the records of a ritual (crates/fubun-domain/src/lib.rs).
pub mod Validity
use fubun.Prelude.{
  ℕ, suc, ◌+◌, ◌-◌, String, Bool, true, false, not, ◌&&◌, ◌||◌, ltb, leb, ◌==◌, str_eq,
  if◌then◌else◌, List, [], ◌∷◌, length, any, chars, char_count, is_control, Option, none, some,
  Result, ok, err, ◌>>=◌, ◌>>◌, fail_if, map_err,
}
use fubun.Domain.Base.{Uuid, Timestamp}
use fubun.Domain.Action.{ActionSpec, ActionValidationError, action_eq}
use fubun.Domain.Action

pub data ExecutionMode : Type 0 where
  sequential : ExecutionMode

pub data FailureMode : Type 0 where
  stop : FailureMode

pub record RitualExecutionConfig : Type 0 where
  pub mode : ExecutionMode
  pub on_failure : FailureMode
  pub timeout_seconds : ℕ

pub record RitualDefinition : Type 0 where
  pub schema_version : String
  pub name : String
  pub actions : List ActionSpec
  pub execution : RitualExecutionConfig

pub data RitualValidationError : Type 0 where
  unsupported_schema_version : String → RitualValidationError
  invalid_name invalid_action_count invalid_timeout : RitualValidationError
  invalid_action : ℕ → ActionValidationError → RitualValidationError
  consecutive_duplicate : ℕ → RitualValidationError

abbrev pub ritual_schema_version : String
ritual_schema_version = "dev.fubun.ritual/1"

abbrev pub max_ritual_actions : ℕ
max_ritual_actions = 16

-- `index > 0 && self.actions[index - 1] == *action`, for the action before this one.
unfoldable pub repeats : Option ActionSpec → ActionSpec → Bool
repeats none action = false
repeats (some previous) action = action_eq previous action

-- The loop over the actions: `previous` is the one before, `index` the place of the next one.
unfoldable pub validate_actions :
    Option ActionSpec → ℕ → List ActionSpec → Result RitualValidationError (Unit {0})
unfolding repeats
validate_actions previous index [] = ok tt
validate_actions previous index (action ∷ actions) = do
  map_err (invalid_action index) (Action.validate action)
  fail_if (repeats previous action) (consecutive_duplicate index)
  validate_actions (some action) (suc index) actions

unfoldable pub validate : RitualDefinition → Result RitualValidationError (Unit {0})
validate definition = do
  fail_if (not (str_eq definition.schema_version ritual_schema_version))
      (unsupported_schema_version definition.schema_version)
  fail_if
      (not (leb 1 (char_count definition.name) && leb (char_count definition.name) 128)
        || any is_control (chars definition.name))
      invalid_name
  fail_if (length definition.actions == 0 || ltb max_ritual_actions (length definition.actions))
      invalid_action_count
  fail_if
      (definition.execution.timeout_seconds == 0 || ltb 120 definition.execution.timeout_seconds)
      invalid_timeout
  validate_actions none 0 definition.actions

pub data RitualStatus : Type 0 where
  draft active paused archived : RitualStatus

pub record Ritual : Type 0 where
  pub id : Uuid
  pub name : String
  pub status : RitualStatus
  pub current_version_id : Uuid
  pub created_at : Timestamp
  pub updated_at : Timestamp

pub record RitualVersion : Type 0 where
  pub id : Uuid
  pub ritual_id : Uuid
  pub version : ℕ
  pub schema_version : String
  pub canonical_json : String
  pub content_hash : String
  pub created_at : Timestamp

pub record Approval : Type 0 where
  pub id : Uuid
  pub ritual_version_id : Uuid
  pub action_type : String
  pub capability : String
  pub resource_id : Option Uuid
  pub app_id : Option String
  pub content_hash : String
  pub approved_at : Timestamp
