-- ===== src/Domain/Ritual/Validity.antt =====
-- `RitualDefinition::validate` against a description of the definitions that it accepts.
use fubun.Prelude.{
  ℕ, suc, ◌≤◌, ◌≡◌, ◌↔◌, String, true, false, Option, none, some, List, [], ◌∷◌, All, length, arith,
  all, any, chars, byte_len, char_count, is_empty, is_control, eq_iff, ok,
}
use fubun.Domain.Action
use fubun.Domain.Action.{
  ActionSpec, linux_app_ensure_running, linux_path_open, desktop_notification_show,
  browser_tab_ensure_open, is_app_id_byte, action_eq, validate_app_id, validate_notification,
}
use fubun.Domain.Ritual.{
  RitualDefinition, validate_actions, validate, ritual_schema_version, max_ritual_actions,
}

pub record IsNotificationText (maximum : ℕ) (text : String) : Type 0 where
  pub nonempty : is_empty text ≡ false
  pub short : char_count text ≤ maximum
  pub printable : any is_control (chars text) ≡ false

pub record IsAppId (app_id : String) : Type 0 where
  pub nonempty : is_empty app_id ≡ false
  pub short : byte_len app_id ≤ 128
  pub plain : all is_app_id_byte (chars app_id) ≡ true

-- An action that may stand in a ritual.
abbrev pub IsValidAction : ActionSpec → Type 0
IsValidAction (linux_app_ensure_running app_id) = IsAppId app_id
IsValidAction (linux_path_open resource_id) = Unit
IsValidAction (desktop_notification_show title body) =
    IsNotificationText 128 title × IsNotificationText 1024 body
IsValidAction (browser_tab_ensure_open resource_id) = Unit

-- No action is equal to the one before it.
abbrev pub NoRepeat : Option ActionSpec → List ActionSpec → Type 0
NoRepeat previous [] = Unit
NoRepeat none (action ∷ actions) = NoRepeat (some action) actions
NoRepeat (some previous) (action ∷ actions) =
    (action_eq previous action ≡ false) × NoRepeat (some action) actions

pub record IsValidRitual (definition : RitualDefinition) : Type 0 where
  pub schema : definition.schema_version ≡ ritual_schema_version
  pub named : (1 ≤ char_count definition.name) × (char_count definition.name ≤ 128)
  pub printable : any is_control (chars definition.name) ≡ false
  pub nonempty : 1 ≤ length definition.actions
  pub few : length definition.actions ≤ max_ritual_actions
  pub timeout :
      (1 ≤ definition.execution.timeout_seconds) × (definition.execution.timeout_seconds ≤ 120)
  pub valid : All IsValidAction definition.actions
  pub distinct : NoRepeat none definition.actions

validate_notification_iff :
    (field text : String) (maximum : ℕ)
    → (validate_notification field text maximum ≡ ok tt) ↔ IsNotificationText maximum text
unfolding validate_notification
validate_notification_iff field text maximum = ground arith

validate_app_id_iff : (app_id : String) → (validate_app_id app_id ≡ ok tt) ↔ IsAppId app_id
unfolding validate_app_id
validate_app_id_iff app_id = ground arith

pub validate-IsValidAction :
    (action : ActionSpec) → (Action.validate action ≡ ok tt) ↔ IsValidAction action
unfolding Action.validate
validate-IsValidAction (linux_app_ensure_running app_id) = validate_app_id_iff app_id
validate-IsValidAction (linux_path_open resource_id) = ground arith
validate-IsValidAction (desktop_notification_show title body) =
    ground (
      arith,
      validate_notification_iff "title" title 128,
      validate_notification_iff "body" body 1024,
    )
validate-IsValidAction (browser_tab_ensure_open resource_id) = ground arith

-- The loop accepts the actions that are valid and do not repeat.
validate_actions_iff :
    (previous : Option ActionSpec) (index : ℕ) (actions : List ActionSpec)
    → (validate_actions previous index actions ≡ ok tt)
      ↔ (All IsValidAction actions × NoRepeat previous actions)
unfolding validate_actions
validate_actions_iff none index [] = ground arith
validate_actions_iff (some previous) index [] = ground arith
validate_actions_iff none index (action ∷ actions) =
    ground
      (arith, validate-IsValidAction action, validate_actions_iff (some action) (suc index) actions)
validate_actions_iff (some previous) index (action ∷ actions) =
    ground
      (arith, validate-IsValidAction action, validate_actions_iff (some action) (suc index) actions)

validate_sound : (d : RitualDefinition) → validate d ≡ ok tt → IsValidRitual d
unfolding validate
validate_sound d h =
    ground
      (arith, eq_iff d.schema_version ritual_schema_version, validate_actions_iff none 0 d.actions)

validate_complete : (d : RitualDefinition) → IsValidRitual d → validate d ≡ ok tt
unfolding validate
validate_complete d h =
    ground
      (arith, eq_iff d.schema_version ritual_schema_version, validate_actions_iff none 0 d.actions)

-- `RitualDefinition::validate` accepts exactly the definitions of the supported schema with a
-- printable name of 1 to 128 characters, 1 to 16 valid actions of which none equals the one before
-- it, and a timeout of 1 to 120 seconds.
pub validate-IsValidRitual : (d : RitualDefinition) → (validate d ≡ ok tt) ↔ IsValidRitual d
validate-IsValidRitual d = (validate_sound d, validate_complete d)
