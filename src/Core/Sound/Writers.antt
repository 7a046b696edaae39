-- ===== src/Core/Sound/Writers.antt =====
-- The handlers that write keep the tables sound.
use fubun.Prelude.{
  ℕ, suc, ◌≡◌, refl, String, Bool, ◌==◌, find, List, [], ◌∷◌, length, All, some, Result, ok, err,
  ap, arith,
}
use fubun.Domain.Base.{Uuid, Timestamp}
use fubun.Domain.Action.{ActionSpec}
use fubun.Domain.Event.{Event}
use fubun.Domain.Resource
use fubun.Domain.Resource.{Resource, ResourceKind, ResourceValidationError}
use fubun.Domain.Resource.Validity.{IsValidResource, validate-IsValidResource}
use fubun.Domain.Ritual.{Ritual, RitualDefinition, RitualStatus}
use fubun.Domain.WebUrl.{UrlLibrary}
use fubun.Storage.Sql.{Db, Store, StorageError}
use fubun.Storage.Sql.Keeps.{Keeps-query}
use fubun.Storage.Resources.{resource_row, create_resource, list_resources}
use fubun.Storage.Rituals.Reading.{get_ritual-Reads}
use fubun.Storage.Sound.{IsSound}
use fubun.Storage.Sound.Executions.{
  start_execution-IsSound, update_step-IsSound, update_execution-IsSound,
}
use fubun.Storage.Sound.Rituals.{
  create_ritual-IsSound, update_ritual-IsSound, set_ritual_status-IsSound, create_approvals-IsSound,
}
use fubun.Storage.Sound.Records.{
  insert_event-IsSound, create_resource-IsSound, ensure_observation_scope-IsSound,
}
use fubun.Core.Base.{Failure, rejected, panicked, Handler, ◌>>◌, storage_error}
use fubun.Core.Outcomes.{Outcomes, Answer, Outcomes-weaken}
use fubun.Core.Handles.{
  IsRejection, Handles, Handles-return, Handles-reject, Handles-bind, Handles-if, Handles-next,
  Handles-then,
}
use fubun.Core.Engine.{Turn}
use fubun.Core.Loop.Outcome.{IsPending, IsStorageFailure}
use fubun.Core.Loop.Ending.{execute_steps-IsEnded}
use fubun.Core.Loop.Locked.{execute_steps-Preserves}
use fubun.Core.Host.{Host, Draw}
use fubun.Core.Events.{or_invalid, received, ingest_response}
use fubun.Core.Resources.{
  ResourceCreateRequest, BrowserObservationEnableRequest, VscodeObservationEnableRequest,
  resource_create_response, find_listed, reuse, create_or_reuse,
  browser_observation_enable_response, vscode_observation_enable_response,
}
use fubun.Core.Rituals.{
  RitualRecord, load_ritual, ritual_create_response, ritual_update_response, ritual_pause_response,
}
use fubun.Core.Preview.{Registry}
use fubun.Core.Run.{require_active, steps_for, ritual_activate_response, ritual_run_response}
use fubun.Core.Sound.Rules.{
  storage_error-IsRejection, event_answer-IsRejection, resource_answer-IsRejection,
  start_answer-IsRejection, Handles-or_answer, Handles-or_invalid, Handles-or_invalid_resource,
  Handles-reject_if, Outcomes-or_invalid, Outcomes-or_answer,
}
use fubun.Core.Sound.Readers.{load_ritual-Handles, build_preview-Handles, preflight-Handles}

failure-IsRejection : (e : Failure) → IsStorageFailure e → IsRejection e
failure-IsRejection panicked h = h
failure-IsRejection (rejected code message) h = tt

-- A resource whose row is written with other times is as valid.
row-IsValidResource :
    (u : UrlLibrary) (resource : Resource)
    → Resource.validate u resource ≡ ok tt
    → IsValidResource u (resource_row resource)
row-IsValidResource u resource e =
    let valid = (validate-IsValidResource u resource).0 e in
    record { labelled = valid.labelled; located = valid.located }

module _ (host : Host) (draw : Draw) where
  abbrev Sound : Db → Type 0
  Sound = IsSound host.url

  pub ingest_response-Handles :
      (now : Timestamp) (event : Event) → Handles Sound (ingest_response host now event)
  unfolding ingest_response
  ingest_response-Handles now event = Handles-if _ _ _ (Handles-reject _ _) (
      Handles-then _ _ (Handles-or_invalid _ _ _) (
        Handles-then _ _
          (Handles-or_answer _ _ event_answer-IsRejection
            (insert_event-IsSound host.url (received now event)))
          (Handles-return _)))

  -- What follows may rely on the resource being valid.
  validated-Handles :
      {A : Type 0} (code : String) (text : ResourceValidationError → String) (resource : Resource)
      (m : Handler A)
      → (IsValidResource host.url (resource_row resource) → Handles Sound m)
      → Handles Sound (or_invalid code text (Resource.validate host.url resource) >> m)
  unfolding ◌>>◌
  validated-Handles code text resource m k =
      Handles-bind (λ _. IsValidResource host.url (resource_row resource)) _ _ _
        (Outcomes-or_invalid _ code text _ (λ u e. row-IsValidResource host.url resource e))
        (Handles-or_invalid code text _) (λ u valid. k valid)

  pub resource_create_response-Handles :
      (request : ResourceCreateRequest) → Handles Sound (resource_create_response host draw request)
  unfolding resource_create_response
  resource_create_response-Handles request = Handles-then _ _ (Handles-reject_if _ _ _) (
      Handles-next _ _ (Handles-or_invalid_resource _ _) (λ metadata.
        Handles-next _ _ (Handles-or_invalid_resource _ _) (λ canonical.
          Handles-next _ _ (Handles-or_invalid_resource _ _) (λ kind.
            validated-Handles _ _ _ _ (λ valid.
              Handles-or_answer _ _ resource_answer-IsRejection
                (create_resource-IsSound host.url _ valid))))))

  find_listed-Handles :
      (kind : ResourceKind) (canonical conflict : String)
      → Handles Sound (find_listed host kind canonical conflict)
  unfolding find_listed list_resources
  find_listed-Handles kind canonical conflict =
      Handles-next _ _ (Handles-or_answer _ _ storage_error-IsRejection (Keeps-query _))
        (λ resources. Handles-or_invalid_resource _ _)

  reuse-Handled :
      (kind : ResourceKind) (canonical conflict : String) (r : Result StorageError Resource)
      (s : Store)
      → Answer (λ a. Unit {0}) IsRejection (reuse host kind canonical conflict (r, s)).0
        × (Sound s.db → Sound (reuse host kind canonical conflict (r, s)).1.db)
  unfolding reuse storage_error
  reuse-Handled kind canonical conflict (ok resource) s = (tt, λ h. h)
  reuse-Handled kind canonical conflict (err StorageError.duplicate_resource) s =
      let listed = find_listed-Handles kind canonical conflict in
      (listed.answers.at s, λ h. listed.keeps.at s h)
  reuse-Handled kind canonical conflict (err (StorageError.sqlite e)) s = (tt, λ h. h)
  reuse-Handled kind canonical conflict (err StorageError.json) s = (tt, λ h. h)
  reuse-Handled kind canonical conflict (err (StorageError.validation e)) s = (tt, λ h. h)
  reuse-Handled kind canonical conflict (err StorageError.duplicate_event) s = (tt, λ h. h)
  reuse-Handled kind canonical conflict (err StorageError.not_found) s = (tt, λ h. h)
  reuse-Handled kind canonical conflict (err StorageError.ritual_already_running) s = (tt, λ h. h)
  reuse-Handled kind canonical conflict (err (StorageError.invalid_data text)) s = (tt, λ h. h)

  create_or_reuse-Handles :
      (candidate : Resource) (conflict : String)
      → IsValidResource host.url (resource_row candidate)
      → Handles Sound (create_or_reuse host candidate conflict)
  unfolding create_or_reuse
  create_or_reuse-Handles candidate conflict valid = record {
    answers = record {
      at = λ s.
          (reuse-Handled candidate.kind candidate.canonical_locator conflict
            (create_resource candidate s).0 (create_resource candidate s).1).0;
    };
    keeps = record {
      at = λ s h.
          (reuse-Handled candidate.kind candidate.canonical_locator conflict
              (create_resource candidate s).0 (create_resource candidate s).1).1
            ((create_resource-IsSound host.url candidate valid).at s h);
    };
  }

  pub browser_observation_enable_response-Handles :
      (request : BrowserObservationEnableRequest)
      → Handles Sound (browser_observation_enable_response host draw request)
  unfolding browser_observation_enable_response
  browser_observation_enable_response-Handles request =
      Handles-next _ _ (Handles-or_invalid _ _ _) (λ canonical. validated-Handles _ _ _ _ (λ valid.
        Handles-next _ _ (create_or_reuse-Handles _ _ valid) (λ resource.
          Handles-next _ _
            (Handles-or_answer _ _ storage_error-IsRejection
              (ensure_observation_scope-IsSound host.url _))
            (λ scope.
              Handles-next _ _ (Handles-or_invalid _ _ _) (λ origin_pattern. Handles-return _)))))

  pub vscode_observation_enable_response-Handles :
      (request : VscodeObservationEnableRequest)
      → Handles Sound (vscode_observation_enable_response host draw request)
  unfolding vscode_observation_enable_response
  vscode_observation_enable_response-Handles request = Handles-then _ _ (Handles-reject_if _ _ _) (
      Handles-next _ _ (Handles-or_invalid_resource _ _) (λ canonical.
        Handles-then _ _ (Handles-reject_if _ _ _) (
          validated-Handles _ _ _ _ (λ valid.
            Handles-next _ _ (create_or_reuse-Handles _ _ valid) (λ resource.
              Handles-next _ _
                (Handles-or_answer _ _ storage_error-IsRejection
                  (ensure_observation_scope-IsSound host.url _))
                (λ scope. Handles-return _))))))

  pub ritual_create_response-Handles :
      (definition : RitualDefinition) → Handles Sound (ritual_create_response host draw definition)
  unfolding ritual_create_response
  ritual_create_response-Handles definition =
      Handles-next _ _ (Handles-or_invalid _ _ _) (λ canonical.
        Handles-next _ _ (Handles-or_invalid _ _ _) (λ content_hash.
          Handles-or_answer _ _ storage_error-IsRejection
            (create_ritual-IsSound host.url _ _ definition refl)))

  found-id :
      (ritual_id : Uuid) (ritual : Ritual) (rituals : List Ritual)
      → find (λ r. r.id == ritual_id) rituals ≡ some ritual
      → ritual_id ≡ ritual.id
  found-id ritual_id ritual [] e = cc
  found-id ritual_id ritual (r ∷ rituals) e = ground (arith, found-id ritual_id ritual rituals)

  load_ritual-Outcomes :
      (ritual_id : Uuid)
      → Outcomes
          (λ (r : RitualRecord). ritual_id ≡ r.0.id)
          (λ e. Unit {0})
          (load_ritual host ritual_id)
  unfolding load_ritual
  load_ritual-Outcomes ritual_id =
      Outcomes-or_answer _ _ _ _ (get_ritual-Reads host.definition_of ritual_id)
        (λ db r loaded. found-id ritual_id r.0 db.rituals loaded.found)

  pub ritual_update_response-Handles :
      (ritual_id : Uuid) (definition : RitualDefinition)
      → Handles Sound (ritual_update_response host draw ritual_id definition)
  unfolding ritual_update_response
  ritual_update_response-Handles ritual_id definition =
      Handles-next _ _ (Handles-or_invalid _ _ _) (λ canonical.
        Handles-next _ _ (Handles-or_invalid _ _ _) (λ content_hash.
          Handles-bind _ _ _ _ (load_ritual-Outcomes ritual_id) (load_ritual-Handles host ritual_id)
            (λ r own.
              Handles-or_answer _ _ storage_error-IsRejection
                (update_ritual-IsSound host.url _ _ definition own))))

  pub ritual_pause_response-Handles :
      (ritual_id : Uuid) → Handles Sound (ritual_pause_response host draw ritual_id)
  unfolding ritual_pause_response
  ritual_pause_response-Handles ritual_id =
      Handles-next _ _ (load_ritual-Handles host ritual_id) (λ r.
        Handles-then _ _ (Handles-reject_if _ _ _) (
          Handles-then _ _
            (Handles-or_answer _ _ storage_error-IsRejection
              (set_ritual_status-IsSound host.url draw.stored_now ritual_id RitualStatus.paused))
            (Handles-return _)))

  pub ritual_activate_response-Handles :
      (registry : Registry) (ritual_id : Uuid) (approve : Bool)
      → Handles Sound (ritual_activate_response host draw registry ritual_id approve)
  unfolding ritual_activate_response
  ritual_activate_response-Handles registry ritual_id approve =
      Handles-then _ _ (Handles-reject_if _ _ _) (
        Handles-next _ _ (load_ritual-Handles host ritual_id) (λ r.
          Handles-next _ _ (build_preview-Handles host registry _ _ _) (λ preview.
            Handles-then _ _ (Handles-reject_if _ _ _) (
              Handles-then _ _
                (Handles-or_answer _ _ storage_error-IsRejection
                  (create_approvals-IsSound host.url _))
                (Handles-then _ _
                  (Handles-or_answer _ _ storage_error-IsRejection (
                    set_ritual_status-IsSound host.url draw.stored_now ritual_id
                      RitualStatus.active))
                  (Handles-return _))))))

  require_active-Handles : (status : RitualStatus) → Handles Sound (require_active status)
  unfolding require_active
  require_active-Handles RitualStatus.active = Handles-return tt
  require_active-Handles RitualStatus.draft = Handles-reject _ _
  require_active-Handles RitualStatus.paused = Handles-reject _ _
  require_active-Handles RitualStatus.archived = Handles-reject _ _

  pub length-steps_for :
      (index : ℕ) (actions : List ActionSpec)
      → length (steps_for draw index actions) ≡ length actions
  unfolding steps_for
  length-steps_for index [] = refl
  length-steps_for index (action ∷ actions) = ap suc (length-steps_for (suc index) actions)

  pub steps_for-IsPending :
      (index : ℕ) (actions : List ActionSpec) → All IsPending (steps_for draw index actions)
  unfolding steps_for
  steps_for-IsPending index [] = tt
  steps_for-IsPending index (action ∷ actions) = (refl, steps_for-IsPending (suc index) actions)

  pub ritual_run_response-Handles :
      (registry : Registry) (turns : ℕ → Turn) (finished : Timestamp) (ritual_id : Uuid)
      → Handles Sound (ritual_run_response host draw registry turns finished ritual_id)
  unfolding ritual_run_response
  ritual_run_response-Handles registry turns finished ritual_id =
      Handles-next _ _ (load_ritual-Handles host ritual_id) (λ (ritual, version, definition).
        Handles-then _ _ (require_active-Handles ritual.status) (
          Handles-then _ _ (preflight-Handles host registry version definition) (
            Handles-then _ _
              (Handles-or_answer _ _ start_answer-IsRejection
                (start_execution-IsSound host.url _ _))
              (record {
                answers =
                    Outcomes-weaken _ _ _ _ (λ e fails. failure-IsRejection e fails)
                      (execute_steps-IsEnded turns finished _ _ _ refl
                        (length-steps_for 0 definition.actions)
                        (steps_for-IsPending 0 definition.actions));
                keeps =
                    execute_steps-Preserves Sound (update_step-IsSound host.url)
                      (update_execution-IsSound host.url) turns finished _ _ _ refl
                      (length-steps_for 0 definition.actions)
                      (steps_for-IsPending 0 definition.actions);
              }))))
