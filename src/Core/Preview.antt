-- ===== src/Core/Preview.antt =====
-- `build_preview` and `ritual_preview_response` (crates/fubun-core/src/lib.rs).
pub mod Runnable
use Prim.Native.String.{◌++◌ as ◌<>◌}
use fubun.Prelude.{
  ℕ, suc, ◌+◌, ◌%◌, ◌^◌, String, Bool, true, false, not, ◌&&◌, ◌==◌, str_eq, if◌then◌else◌, List,
  [], ◌∷◌, ◌++◌, map, any, Option, none, some, Result, ok, err, is_ok,
}
use fubun.Domain.Base.{Uuid, Timestamp}
use fubun.Domain.Action
use fubun.Domain.Action.{
  ActionSpec, linux_app_ensure_running, linux_path_open, desktop_notification_show,
  browser_tab_ensure_open,
}
use fubun.Domain.Resource.{Resource, ResourceKind, ObservationScope, ObservationSource, kind_eq}
use fubun.Domain.Ritual.{Ritual, RitualVersion, RitualDefinition}
use fubun.Domain.WebUrl.{WebUrlError, canonicalize_web_url}
use fubun.Policy.{RiskLevel, Idempotency, Revertability, ActionDescriptor, descriptor}
use fubun.Adapter.Manager.{
  AdapterManager, AdapterRequirements, AdapterEligibilityError, EligibleAdapter, from_action,
  find_eligible,
}
use fubun.Storage.Sql.{StorageError}
use fubun.Storage.Resources.{get_resource, list_observation_scopes}
use fubun.Core.Base.{Handler, ◌>>=◌, ◌>>◌, return, or_reject, attempt}
use fubun.Core.Host.{Host, FileType}
use fubun.Core.Events.{permits}
use fubun.Core.Rituals.{load_ritual}

-- The derived `Debug`.
unfoldable pub risk_level_text : RiskLevel → String
risk_level_text RiskLevel.r0 = "R0"
risk_level_text RiskLevel.r1 = "R1"
risk_level_text RiskLevel.r2 = "R2"
risk_level_text RiskLevel.r3 = "R3"

unfoldable pub idempotency_text : Idempotency → String
idempotency_text Idempotency.idempotent = "Idempotent"
idempotency_text Idempotency.best_effort = "BestEffort"
idempotency_text Idempotency.non_idempotent = "NonIdempotent"

unfoldable pub revertability_text : Revertability → String
revertability_text Revertability.no_state_change = "NoStateChange"
revertability_text Revertability.partially_revertable = "PartiallyRevertable"
revertability_text Revertability.not_revertable = "NotRevertable"

pub record PreviewAction : Type 0 where
  pub step_index : ℕ
  pub action_type : String
  pub risk_level : String
  pub idempotency : String
  pub revertability : String
  pub required_capability : String
  pub adapter_connected : Bool
  pub required_tool_available : Option Bool
  pub resource_exists : Option Bool
  pub resource_path_matches : Option Bool
  pub resource_kind_matches : Option Bool
  pub desktop_entry_exists : Option Bool
  pub warning : Option String

pub record RitualPreview : Type 0 where
  pub ritual_id : Uuid
  pub ritual_version_id : Uuid
  pub actions : List PreviewAction
  pub timeout_seconds : ℕ
  pub warnings : List String
  pub executable : Bool

unfoldable pub eligibility_warning : AdapterEligibilityError → String
eligibility_warning AdapterEligibilityError.unavailable = "no adapter is connected"
eligibility_warning AdapterEligibilityError.ineligible =
    "no single adapter instance satisfies the action requirements"

-- What the preview finds out about one action beside its adapter.
pub record Checks : Type 0 where
  pub resource_exists : Option Bool
  pub resource_path_matches : Option Bool
  pub resource_kind_matches : Option Bool
  pub desktop_entry_exists : Option Bool
  pub warnings : List String

abbrev pub no_checks : List String → Checks
no_checks warnings = record {
  resource_exists = none;
  resource_path_matches = none;
  resource_kind_matches = none;
  desktop_entry_exists = none;
  warnings = warnings;
}

abbrev pub warn_unless : Bool → String → List String
warn_unless b message = if b then [] else message ∷ []

abbrev pub is_canonical_path : (host : Host) → String → Option host.FilePath → Bool
is_canonical_path host locator none = false
is_canonical_path host locator (some path) = str_eq (host.lossy path) locator

-- `fs::canonicalize(path)` gives the locator again.
unfoldable pub path_matches : Host → Resource → Bool
path_matches host resource =
    is_canonical_path host resource.canonical_locator
      (host.canonicalize (host.path_of resource.canonical_locator))

abbrev pub is_kind_of : ResourceKind → Option FileType → Bool
is_kind_of kind (some FileType.file) = kind_eq kind ResourceKind.file
is_kind_of kind (some FileType.directory) = kind_eq kind ResourceKind.directory
is_kind_of kind _ = false

-- `fs::metadata(path)` gives the kind of the resource.
unfoldable pub type_is_kind : Host → Resource → Bool
type_is_kind host resource =
    is_kind_of resource.kind (host.metadata (host.path_of resource.canonical_locator))

abbrev pub path_exists : Host → Resource → Bool
path_exists host resource = host.exists (host.path_of resource.canonical_locator)

unfoldable pub path_checks : Host → Result StorageError Resource → Checks
path_checks host (err error) = no_checks ("resource was not found" ∷ [])
path_checks host (ok resource) = record {
  resource_exists = some (path_exists host resource);
  resource_path_matches = some (path_exists host resource && path_matches host resource);
  resource_kind_matches = some (path_exists host resource && type_is_kind host resource);
  desktop_entry_exists = none;
  warnings =
      warn_unless (path_exists host resource) "resource does not exist"
      ++ warn_unless (path_exists host resource && path_matches host resource)
          "resource canonical path changed"
      ++ warn_unless (path_exists host resource && type_is_kind host resource)
          "resource type changed";
}

abbrev pub is_canonical_url : String → Result WebUrlError String → Bool
is_canonical_url locator (ok url) = str_eq url locator
is_canonical_url locator (err e) = false

-- `canonicalize_web_url` gives the locator again.
unfoldable pub url_matches : Host → Resource → Bool
url_matches host resource =
    is_canonical_url resource.canonical_locator
      (canonicalize_web_url host.url resource.canonical_locator)

abbrev pub is_web_page : Resource → Bool
is_web_page resource = kind_eq resource.kind ResourceKind.web_page

abbrev pub web_checks : Host → Uuid → Resource → List ObservationScope → Checks
web_checks host resource_id resource scopes = record {
  resource_exists = some true;
  resource_path_matches = some (is_web_page resource && url_matches host resource);
  resource_kind_matches = some (is_web_page resource);
  desktop_entry_exists = none;
  warnings =
      warn_unless (is_web_page resource) "resource is not a web page"
      ++ warn_unless (is_web_page resource && url_matches host resource)
          "web resource canonical URL is invalid"
      ++ warn_unless (any (permits resource_id) scopes) "browser observation scope is not active";
}

unfoldable pub tab_checks : Host → Uuid → Result StorageError Resource → Handler Checks
tab_checks host resource_id (err error) =
    return (record (no_checks ("resource was not found" ∷ [])) { resource_exists = some false })
tab_checks host resource_id (ok resource) = do
  scopes ←
      or_reject
        (list_observation_scopes host.uuid_order host.time_order
          (some ObservationSource.browser_chromium))
        "internal_error" "observation scope lookup failed"
  return (web_checks host resource_id resource scopes)

-- `eligible` says whether an adapter satisfies the requirements of the action.
unfoldable pub check_action : Host → Bool → ActionSpec → Handler Checks
check_action host eligible (linux_path_open resource_id) = do
  found ← attempt (get_resource resource_id)
  return (path_checks host found)
check_action host eligible (linux_app_ensure_running app_id) =
    return
      (record (no_checks
        (warn_unless eligible "desktop entry was not found on an eligible adapter")) {
          desktop_entry_exists = some eligible;
        })
check_action host eligible (desktop_notification_show title body) = return (no_checks [])
check_action host eligible (browser_tab_ensure_open resource_id) = do
  found ← attempt (get_resource resource_id)
  tab_checks host resource_id found

abbrev pub eligibility_warnings : Result AdapterEligibilityError EligibleAdapter → List String
eligibility_warnings (ok adapter) = []
eligibility_warnings (err error) = eligibility_warning error ∷ []

abbrev pub first : List String → Option String
first [] = none
first (message ∷ messages) = some message

abbrev pub tool_report : Bool → Option String → Option Bool
tool_report eligible none = none
tool_report eligible (some tool) = some eligible

-- The warnings of an action, in their order.
abbrev pub action_warnings :
    Result AdapterEligibilityError EligibleAdapter → ActionSpec → Checks → List String
action_warnings adapter action checks =
    eligibility_warnings adapter
    ++ checks.warnings
    ++ warn_unless (is_ok (Action.validate action)) "action validation failed"

abbrev pub preview_row :
    ℕ → ActionSpec → Result AdapterEligibilityError EligibleAdapter → Checks → PreviewAction
preview_row index action adapter checks = record {
  step_index = index % 2 ^ 32;
  action_type = (descriptor action).action_type;
  risk_level = risk_level_text (descriptor action).risk_level;
  idempotency = idempotency_text (descriptor action).idempotency;
  revertability = revertability_text (descriptor action).revertability;
  required_capability = (descriptor action).required_capability;
  adapter_connected = is_ok adapter;
  required_tool_available = tool_report (is_ok adapter) (from_action action).required_tool;
  resource_exists = checks.resource_exists;
  resource_path_matches = checks.resource_path_matches;
  resource_kind_matches = checks.resource_kind_matches;
  desktop_entry_exists = checks.desktop_entry_exists;
  warning = first (action_warnings adapter action checks);
}

-- The registry as each action finds it.
abbrev pub Registry : Type 0
Registry = ℕ → AdapterManager

abbrev pub eligible_at :
    Host → Registry → ℕ → ActionSpec → Result AdapterEligibilityError EligibleAdapter
eligible_at host registry index action =
    find_eligible host.uuid_order (registry index) (from_action action)

unfoldable pub preview_actions :
    Host → Registry → ℕ → List ActionSpec → Handler (List PreviewAction × List String)
preview_actions host registry index [] = return ([], [])
preview_actions host registry index (action ∷ actions) = do
  let adapter = eligible_at host registry index action
  checks ← check_action host (is_ok adapter) action
  (rows, warnings) ← preview_actions host registry (suc index) actions
  return (
    preview_row index action adapter checks ∷ rows,
    map (λ message. "action " <> host.decimal (index + 1) <> ": " <> message)
          (action_warnings adapter action checks)
        ++ warnings,
  )

abbrev pub is_nil : {A : Type 0} → List A → Bool
is_nil [] = true
is_nil (x ∷ xs) = false

unfoldable pub build_preview :
    Host → Registry → Ritual → RitualVersion → RitualDefinition → Handler RitualPreview
build_preview host registry ritual version definition = do
  (actions, warnings) ← preview_actions host registry 0 definition.actions
  return (record {
    ritual_id = ritual.id;
    ritual_version_id = version.id;
    actions = actions;
    timeout_seconds = definition.execution.timeout_seconds;
    warnings = warnings;
    executable = is_nil warnings;
  })

unfoldable pub ritual_preview_response : Host → Registry → Uuid → Handler RitualPreview
ritual_preview_response host registry ritual_id = do
  (ritual, version, definition) ← load_ritual host ritual_id
  build_preview host registry ritual version definition
