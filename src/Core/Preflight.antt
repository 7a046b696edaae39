-- ===== src/Core/Preflight.antt =====
-- `preflight` (crates/fubun-core/src/lib.rs).
pub mod Ready
use fubun.Prelude.{
  ℕ, suc, String, Bool, true, false, not, ◌&&◌, ◌||◌, ◌==◌, str_eq, if◌then◌else◌, List, [], ◌∷◌,
  any, Option, none, some, Result, ok, err,
}
use fubun.Domain.Base.{Uuid}
use fubun.Domain.Action
use fubun.Domain.Action.{
  ActionSpec, ActionValidationError, linux_app_ensure_running, linux_path_open,
  desktop_notification_show, browser_tab_ensure_open,
}
use fubun.Domain.Resource.{Resource, ObservationSource}
use fubun.Domain.Ritual.{RitualVersion, RitualDefinition, Approval}
use fubun.Policy.{PolicyError, ApprovalFields, approval_fields, validate_action}
use fubun.Adapter.Manager.{AdapterEligibilityError}
use fubun.Storage.Rituals.{list_approvals}
use fubun.Storage.Resources.{get_resource, list_observation_scopes}
use fubun.Core.Base.{Failure, rejected, Handler, ◌>>=◌, ◌>>◌, return, reject, or_reject, or_failure}
use fubun.Core.Host.{Host}
use fubun.Core.Events.{permits, or_invalid}
use fubun.Core.Resources.{reject_if}
use fubun.Core.Preview.{
  Registry, eligible_at, path_exists, path_matches, type_is_kind, is_web_page, url_matches,
}

unfoldable pub preflight_eligibility_error : AdapterEligibilityError → Failure
preflight_eligibility_error AdapterEligibilityError.unavailable =
    rejected "adapter_unavailable" "no adapter is connected"
preflight_eligibility_error AdapterEligibilityError.ineligible =
    rejected "capability_unavailable" "no single adapter instance satisfies the action requirements"

-- The derived `PartialEq` of two options.
unfoldable pub same_uuid : Option Uuid → Option Uuid → Bool
same_uuid none none = true
same_uuid (some a) (some b) = a == b
same_uuid _ _ = false

unfoldable pub same_text : Option String → Option String → Bool
same_text none none = true
same_text (some a) (some b) = str_eq a b
same_text _ _ = false

-- The approval is of this version, with its content, and names these fields.
unfoldable pub approves : RitualVersion → ApprovalFields → Approval → Bool
approves version fields approval =
    approval.ritual_version_id == version.id
    && str_eq approval.content_hash version.content_hash
    && str_eq approval.action_type fields.action_type
    && str_eq approval.capability fields.capability
    && same_uuid approval.resource_id fields.resource_id
    && same_text approval.app_id fields.app_id

unfoldable pub preflight_target : Host → ActionSpec → Handler (Unit {0})
preflight_target host (linux_path_open resource_id) = do
  resource ← or_reject (get_resource resource_id) "resource_not_found" "resource was not found"
  reject_if (not (path_exists host resource)) "resource_changed" "resource no longer exists"
  reject_if (not (path_matches host resource)) "resource_changed" "resource canonical path changed"
  reject_if (not (type_is_kind host resource)) "resource_changed" "resource type changed"
preflight_target host (linux_app_ensure_running app_id) = return tt
preflight_target host (desktop_notification_show title body) = return tt
preflight_target host (browser_tab_ensure_open resource_id) = do
  resource ← or_reject (get_resource resource_id) "resource_not_found" "web resource was not found"
  reject_if (not (is_web_page resource) || not (url_matches host resource)) "resource_changed"
      "web resource canonical URL changed"
  scopes ←
      or_reject
        (list_observation_scopes host.uuid_order host.time_order
          (some ObservationSource.browser_chromium))
        "internal_error" "observation scope lookup failed"
  reject_if (not (any (permits resource_id) scopes)) "observation_inactive"
      "browser observation scope is not active"

unfoldable pub preflight_action :
    Host → Registry → ℕ → RitualVersion → List Approval → ActionSpec → Handler (Unit {0})
preflight_action host registry index version approvals action = do
  or_invalid "invalid_ritual" (λ (e : ActionValidationError). "action validation failed")
      (Action.validate action)
  descriptor ←
      or_invalid "unknown_action" (λ (e : PolicyError). "action is not registered")
        (validate_action action)
  adapter ← or_failure preflight_eligibility_error (eligible_at host registry index action)
  reject_if (not (any (approves version (approval_fields action)) approvals)) "ritual_not_approved"
      "ritual version approval is missing or stale"
  preflight_target host action

-- The loop over the actions.
unfoldable pub preflight_actions :
    Host → Registry → ℕ → RitualVersion → List Approval → List ActionSpec → Handler (Unit {0})
preflight_actions host registry index version approvals [] = return tt
preflight_actions host registry index version approvals (action ∷ actions) = do
  preflight_action host registry index version approvals action
  preflight_actions host registry (suc index) version approvals actions

unfoldable pub preflight : Host → Registry → RitualVersion → RitualDefinition → Handler (Unit {0})
preflight host registry version definition = do
  approvals ←
      or_reject (list_approvals host.uuid_order version.id) "internal_error"
        "approval lookup failed"
  preflight_actions host registry 0 version approvals definition.actions
