-- ===== src/Core/Sound/Readers.antt =====
-- The handlers that only read keep whatever holds of the tables.
use fubun.Prelude.{ℕ, suc, String, Bool, List, [], ◌∷◌, Option, none, some, Result, ok, err}
use fubun.Domain.Base.{Uuid, Timestamp}
use fubun.Domain.Action.{
  ActionSpec, linux_app_ensure_running, linux_path_open, desktop_notification_show,
  browser_tab_ensure_open,
}
use fubun.Domain.Resource.{Resource, ObservationSource}
use fubun.Domain.Ritual.{Ritual, RitualVersion, RitualDefinition, Approval}
use fubun.Adapter.Manager.{AdapterManager, AdapterEligibilityError}
use fubun.Storage.Sql.{Db, StorageError}
use fubun.Storage.Sql.Keeps.{
  Keeps, Keeps-bind, Keeps-query, Keeps-pure, Keeps-raise, Keeps-or_not_found,
}
use fubun.Storage.Counts.{Counts, current_schema_version, counts}
use fubun.Storage.Resources.{get_resource, list_observation_scopes}
use fubun.Storage.Rituals.{get_ritual, list_approvals, or_no_rows, or_invalid_json}
use fubun.Storage.Executions.{get_execution}
use fubun.Core.Handles.{
  IsRejection, Handles, Handles-return, Handles-reject, Handles-or_reject, Handles-next,
  Handles-then,
}
use fubun.Core.Sound.Rules.{
  storage_error-IsRejection, ritual_answer-IsRejection, Handles-or_answer, Handles-attempt,
  Handles-or_failure, Handles-or_invalid, Handles-reject_if,
}
use fubun.Core.Host.{Host}
use fubun.Core.Rituals.{load_ritual}
use fubun.Core.Preview.{Registry, tab_checks, check_action, preview_actions, build_preview}
use fubun.Core.Preflight.{
  preflight_eligibility_error, preflight_target, preflight_action, preflight_actions, preflight,
}
use fubun.Core.Status.{
  status_response, scopes_of, report_on, doctor_response, integrations_response,
}

eligibility-IsRejection :
    (e : AdapterEligibilityError) → IsRejection (preflight_eligibility_error e)
unfolding preflight_eligibility_error
eligibility-IsRejection AdapterEligibilityError.unavailable = tt
eligibility-IsRejection AdapterEligibilityError.ineligible = tt

module _ {P : Db → Type 0} where
  Keeps-or_no_rows : {A : Type 0} (found : Option A) → Keeps P (or_no_rows found)
  unfolding or_no_rows
  Keeps-or_no_rows none = Keeps-raise _
  Keeps-or_no_rows (some a) = Keeps-pure a

  Keeps-or_invalid_json : {A : Type 0} (found : Option A) → Keeps P (or_invalid_json found)
  unfolding or_invalid_json
  Keeps-or_invalid_json none = Keeps-raise _
  Keeps-or_invalid_json (some a) = Keeps-pure a

  pub get_resource-Keeps : (id : Uuid) → Keeps P (get_resource id)
  unfolding get_resource
  get_resource-Keeps id = Keeps-bind _ _ (Keeps-query _) (λ found. Keeps-or_not_found found)

  pub list_observation_scopes-Keeps :
      (uuid_order : Uuid → ℕ) (time_order : Timestamp → ℕ) (source : Option ObservationSource)
      → Keeps P (list_observation_scopes uuid_order time_order source)
  unfolding list_observation_scopes
  list_observation_scopes-Keeps uuid_order time_order source = Keeps-query _

  get_ritual-Keeps :
      (definition_of : String → Option RitualDefinition) (id : Uuid)
      → Keeps P (get_ritual definition_of id)
  unfolding get_ritual
  get_ritual-Keeps definition_of id = Keeps-bind _ _ (Keeps-query _) (λ found.
      Keeps-bind _ _ (Keeps-or_not_found found) (λ ritual.
        Keeps-bind _ _ (Keeps-query _) (λ current.
          Keeps-bind _ _ (Keeps-or_no_rows current)
            (λ version. Keeps-bind _ _ (Keeps-or_invalid_json _) (λ definition. Keeps-pure _)))))

  pub get_execution-Keeps : (id : Uuid) → Keeps P (get_execution id)
  unfolding get_execution
  get_execution-Keeps id = Keeps-bind _ _ (Keeps-query _) (λ found.
      Keeps-bind _ _ (Keeps-or_not_found found)
        (λ execution. Keeps-bind _ _ (Keeps-query _) (λ steps. Keeps-pure _)))

  version-Keeps : Keeps P current_schema_version
  unfolding current_schema_version
  version-Keeps = Keeps-query _

  counts-Keeps : Keeps P counts
  unfolding counts
  counts-Keeps = Keeps-bind _ _ (Keeps-query _) (λ running.
      Keeps-bind _ _ (Keeps-query _)
        (λ draft. Keeps-bind _ _ (Keeps-query _) (λ active. Keeps-pure _)))

  pub load_ritual-Handles : (host : Host) (id : Uuid) → Handles P (load_ritual host id)
  unfolding load_ritual
  load_ritual-Handles host id =
      Handles-or_answer _ _ ritual_answer-IsRejection (get_ritual-Keeps host.definition_of id)

  tab_checks-Handles :
      (host : Host) (id : Uuid) (found : Result StorageError Resource)
      → Handles P (tab_checks host id found)
  unfolding tab_checks
  tab_checks-Handles host id (err e) = Handles-return _
  tab_checks-Handles host id (ok resource) =
      Handles-next _ _ (Handles-or_reject _ _ _ (list_observation_scopes-Keeps _ _ _))
        (λ scopes. Handles-return _)

  check_action-Handles :
      (host : Host) (eligible : Bool) (action : ActionSpec)
      → Handles P (check_action host eligible action)
  unfolding check_action
  check_action-Handles host eligible (linux_path_open id) =
      Handles-next _ _ (Handles-attempt _ (get_resource-Keeps id)) (λ found. Handles-return _)
  check_action-Handles host eligible (linux_app_ensure_running app_id) = Handles-return _
  check_action-Handles host eligible (desktop_notification_show title body) = Handles-return _
  check_action-Handles host eligible (browser_tab_ensure_open id) =
      Handles-next _ _ (Handles-attempt _ (get_resource-Keeps id))
        (λ found. tab_checks-Handles host id found)

  preview_actions-Handles :
      (host : Host) (registry : Registry) (index : ℕ) (actions : List ActionSpec)
      → Handles P (preview_actions host registry index actions)
  unfolding preview_actions
  preview_actions-Handles host registry index [] = Handles-return _
  preview_actions-Handles host registry index (action ∷ actions) =
      Handles-next _ _ (check_action-Handles host _ action) (λ checks.
        Handles-next _ _ (preview_actions-Handles host registry (suc index) actions)
          (λ rest. Handles-return _))

  pub build_preview-Handles :
      (host : Host) (registry : Registry) (ritual : Ritual) (version : RitualVersion)
      (definition : RitualDefinition)
      → Handles P (build_preview host registry ritual version definition)
  unfolding build_preview
  build_preview-Handles host registry ritual version definition =
      Handles-next _ _ (preview_actions-Handles host registry 0 definition.actions)
        (λ rows. Handles-return _)

  preflight_target-Handles :
      (host : Host) (action : ActionSpec) → Handles P (preflight_target host action)
  unfolding preflight_target
  preflight_target-Handles host (linux_path_open id) =
      Handles-next _ _ (Handles-or_reject _ _ _ (get_resource-Keeps id)) (λ resource.
        Handles-then _ _ (Handles-reject_if _ _ _)
          (Handles-then _ _ (Handles-reject_if _ _ _) (Handles-reject_if _ _ _)))
  preflight_target-Handles host (linux_app_ensure_running app_id) = Handles-return tt
  preflight_target-Handles host (desktop_notification_show title body) = Handles-return tt
  preflight_target-Handles host (browser_tab_ensure_open id) =
      Handles-next _ _ (Handles-or_reject _ _ _ (get_resource-Keeps id)) (λ resource.
        Handles-then _ _ (Handles-reject_if _ _ _) (
          Handles-next _ _ (Handles-or_reject _ _ _ (list_observation_scopes-Keeps _ _ _))
            (λ scopes. Handles-reject_if _ _ _)))

  preflight_action-Handles :
      (host : Host) (registry : Registry) (index : ℕ) (version : RitualVersion)
      (approvals : List Approval) (action : ActionSpec)
      → Handles P (preflight_action host registry index version approvals action)
  unfolding preflight_action
  preflight_action-Handles host registry index version approvals action =
      Handles-then _ _ (Handles-or_invalid _ _ _) (
        Handles-next _ _ (Handles-or_invalid _ _ _) (λ descriptor.
          Handles-next _ _ (Handles-or_failure _ _ eligibility-IsRejection) (λ adapter.
            Handles-then _ _ (Handles-reject_if _ _ _) (preflight_target-Handles host action))))

  preflight_actions-Handles :
      (host : Host) (registry : Registry) (index : ℕ) (version : RitualVersion)
      (approvals : List Approval) (actions : List ActionSpec)
      → Handles P (preflight_actions host registry index version approvals actions)
  unfolding preflight_actions
  preflight_actions-Handles host registry index version approvals [] = Handles-return tt
  preflight_actions-Handles host registry index version approvals (action ∷ actions) =
      Handles-then _ _ (preflight_action-Handles host registry index version approvals action)
        (preflight_actions-Handles host registry (suc index) version approvals actions)

  pub preflight-Handles :
      (host : Host) (registry : Registry) (version : RitualVersion) (definition : RitualDefinition)
      → Handles P (preflight host registry version definition)
  unfolding preflight list_approvals
  preflight-Handles host registry version definition =
      Handles-next _ _ (Handles-or_reject _ _ _ (Keeps-query _))
        (λ approvals. preflight_actions-Handles host registry 0 version approvals _)

  pub status_response-Handles : Handles P status_response
  unfolding status_response
  status_response-Handles =
      Handles-next _ _ (Handles-or_answer _ _ storage_error-IsRejection version-Keeps)
        (λ version. Handles-return _)

  scopes_of-Handles : (host : Host) (source : ObservationSource) → Handles P (scopes_of host source)
  scopes_of-Handles host source =
      Handles-next _ _ (Handles-attempt _ (list_observation_scopes-Keeps _ _ _))
        (λ found. Handles-return _)

  report_on-Handles :
      (host : Host) (manager : AdapterManager) (version : Result StorageError ℕ)
      (counted : Result StorageError Counts)
      → Handles P (report_on host manager version counted)
  unfolding report_on
  report_on-Handles host manager (ok version) (ok counted) =
      Handles-next _ _ (scopes_of-Handles host _)
        (λ browser. Handles-next _ _ (scopes_of-Handles host _) (λ vscode. Handles-return _))
  report_on-Handles host manager (ok version) (err e) = Handles-reject _ _
  report_on-Handles host manager (err e) counted = Handles-reject _ _

  pub doctor_response-Handles :
      (host : Host) (manager : AdapterManager) → Handles P (doctor_response host manager)
  unfolding doctor_response
  doctor_response-Handles host manager =
      Handles-next _ _ (Handles-attempt _ version-Keeps) (λ version.
        Handles-next _ _ (Handles-attempt _ counts-Keeps)
          (λ counted. report_on-Handles host manager version counted))

  pub integrations_response-Handles :
      (host : Host) (manager : AdapterManager) → Handles P (integrations_response host manager)
  unfolding integrations_response
  integrations_response-Handles host manager =
      Handles-next _ _ (Handles-attempt _ (list_observation_scopes-Keeps _ _ _))
        (λ found. Handles-next _ _ (Handles-attempt _ version-Keeps) (λ version. Handles-return _))
