-- ===== src/Policy.antt =====
-- crates/fubun-policy/src/lib.rs: the fixed action registry, its risk levels, and what an approval
-- of an action names.
pub mod Registry
use fubun.Prelude.{
  ℕ, String, Option, none, some, List, [], ◌∷◌, str_eq, ltb, if◌then◌else◌, Result, ok, err,
}
use fubun.Domain.Base.{Uuid}
use fubun.Domain.Action.{
  ActionSpec, linux_app_ensure_running, linux_path_open, desktop_notification_show,
  browser_tab_ensure_open,
}

pub data RiskLevel : Type 0 where
  r0 r1 r2 r3 : RiskLevel

-- `risk_level as u8`.
unfoldable pub risk_rank : RiskLevel → ℕ
risk_rank r0 = 0
risk_rank r1 = 1
risk_rank r2 = 2
risk_rank r3 = 3

pub data Idempotency : Type 0 where
  idempotent best_effort non_idempotent : Idempotency

pub data Revertability : Type 0 where
  no_state_change partially_revertable not_revertable : Revertability

pub record ActionDescriptor : Type 0 where
  pub action_type : String
  pub schema_version : String
  pub risk_level : RiskLevel
  pub idempotency : Idempotency
  pub revertability : Revertability
  pub required_capability : String
  pub default_timeout_ms : ℕ

abbrev pub app_ensure_running : ActionDescriptor
app_ensure_running = record {
  action_type = "linux.app.ensure_running.v1";
  schema_version = "1";
  risk_level = r1;
  idempotency = best_effort;
  revertability = not_revertable;
  required_capability = "linux.app.ensure_running.v1";
  default_timeout_ms = 10_000;
}

abbrev pub path_open : ActionDescriptor
path_open = record {
  action_type = "linux.path.open.v1";
  schema_version = "1";
  risk_level = r1;
  idempotency = best_effort;
  revertability = no_state_change;
  required_capability = "linux.path.open.v1";
  default_timeout_ms = 10_000;
}

abbrev pub notification_show : ActionDescriptor
notification_show = record {
  action_type = "desktop.notification.show.v1";
  schema_version = "1";
  risk_level = r0;
  idempotency = non_idempotent;
  revertability = no_state_change;
  required_capability = "desktop.notification.show.v1";
  default_timeout_ms = 10_000;
}

abbrev pub tab_ensure_open : ActionDescriptor
tab_ensure_open = record {
  action_type = "browser.tab.ensure_open.v1";
  schema_version = "1";
  risk_level = r1;
  idempotency = best_effort;
  revertability = partially_revertable;
  required_capability = "browser.tab.ensure_open.v1";
  default_timeout_ms = 10_000;
}

abbrev pub descriptors : List ActionDescriptor
descriptors = app_ensure_running ∷ path_open ∷ notification_show ∷ tab_ensure_open ∷ []

unfoldable pub descriptor : ActionSpec → ActionDescriptor
descriptor (linux_app_ensure_running app_id) = app_ensure_running
descriptor (linux_path_open resource_id) = path_open
descriptor (desktop_notification_show title body) = notification_show
descriptor (browser_tab_ensure_open resource_id) = tab_ensure_open

unfoldable pub descriptor_by_type : String → Option ActionDescriptor
descriptor_by_type action_type =
    if str_eq action_type "linux.app.ensure_running.v1"
    then some app_ensure_running
    else if str_eq action_type "linux.path.open.v1"
    then some path_open
    else if str_eq action_type "desktop.notification.show.v1"
    then some notification_show
    else if str_eq action_type "browser.tab.ensure_open.v1"
    then some tab_ensure_open
    else none

pub record ApprovalFields : Type 0 where
  pub action_type : String
  pub capability : String
  pub resource_id : Option Uuid
  pub app_id : Option String

abbrev fields_of : ActionDescriptor → Option Uuid → Option String → ApprovalFields
fields_of d resource_id app_id = record {
  action_type = d.action_type;
  capability = d.required_capability;
  resource_id = resource_id;
  app_id = app_id;
}

unfoldable pub approval_fields : ActionSpec → ApprovalFields
unfolding descriptor
approval_fields (linux_app_ensure_running app_id) =
    fields_of (descriptor (linux_app_ensure_running app_id)) none (some app_id)
approval_fields (linux_path_open resource_id) =
    fields_of (descriptor (linux_path_open resource_id)) (some resource_id) none
approval_fields (desktop_notification_show title body) =
    fields_of (descriptor (desktop_notification_show title body)) none none
approval_fields (browser_tab_ensure_open resource_id) =
    fields_of (descriptor (browser_tab_ensure_open resource_id)) (some resource_id) none

pub data PolicyError : Type 0 where
  unknown_action risk_not_permitted : PolicyError

unfoldable pub validate_action : ActionSpec → Result PolicyError ActionDescriptor
unfolding descriptor risk_rank
validate_action action =
    if ltb (risk_rank r1) (risk_rank (descriptor action).risk_level)
    then err risk_not_permitted
    else ok (descriptor action)
