-- ===== src/Storage/Names/Codec.antt =====
-- The texts that the storage writes are the ones that it reads.
use fubun.Prelude.{
  ◌≡◌, refl, inl, inr, String, str_eq, eq_iff, Bool-cases, if◌then◌else◌, Result, ok, err,
}
use fubun.Domain.Resource.{
  ResourceKind, ObservationSource, ObservationStatus, Sensitivity, ResourceScope,
}
use fubun.Domain.Ritual.{RitualStatus}
use fubun.Domain.Execution.{TriggerKind, ExecutionStatus, ExecutionStepStatus}
use fubun.Storage.Sql.{StorageError, invalid_data}
use fubun.Storage.Names.{
  resource_kind_name, parse_resource_kind, observation_source_name, parse_observation_source,
  observation_status_name, parse_observation_status, sensitivity_name, parse_sensitivity,
  resource_scope_name, parse_resource_scope, ritual_status_name, parse_ritual_status,
  trigger_kind_name, parse_trigger_kind, execution_status_name, parse_execution_status,
  execution_step_status_name, parse_execution_step_status,
}

-- What is written is read back, and what is read was written.
abbrev pub IsCodec : {A : Type 0} → (A → String) → (String → Result StorageError A) → Type 0
IsCodec {A} name parse =
    ((a : A) → parse (name a) ≡ ok a)
    × ((text : String) (a : A) → parse text ≡ ok a → text ≡ name a)

-- The last branch of a reader.
no_branch :
    {A : Type 0} (name : A → String) (text : String) (a : A) (error : StorageError)
    → err error ≡ ok a
    → text ≡ name a
no_branch name text a error h = cc

-- One branch of a reader.
branch :
    {A : Type 0} (name : A → String) (text known : String) (b a : A) (rest : Result StorageError A)
    → name b ≡ known
    → (rest ≡ ok a → text ≡ name a)
    → (if str_eq text known then ok b else rest) ≡ ok a
    → text ≡ name a
branch name text known b a rest n later h = elim (Bool-cases (str_eq text known)) [
  | inl t ↦ let e = (eq_iff text known).0 t in let g = rw t at h in cc
  | inr f ↦ later (rw f at h)
]

resource_kind-IsCodec : IsCodec resource_kind_name parse_resource_kind
unfolding resource_kind_name parse_resource_kind
resource_kind-IsCodec = (
  written,
  λ text a. branch resource_kind_name text _ ResourceKind.file a _ refl (
      branch resource_kind_name text _ ResourceKind.directory a _ refl (
        branch resource_kind_name text _ ResourceKind.web_page a _ refl
          (no_branch resource_kind_name text a (invalid_data "resource kind")))),
)
  where
    written : (a : ResourceKind) → parse_resource_kind (resource_kind_name a) ≡ ok a
    written ResourceKind.file = refl
    written ResourceKind.directory = refl
    written ResourceKind.web_page = refl

observation_source-IsCodec : IsCodec observation_source_name parse_observation_source
unfolding observation_source_name parse_observation_source
observation_source-IsCodec = (
  written,
  λ text a. branch observation_source_name text _ ObservationSource.browser_chromium a _ refl (
      branch observation_source_name text _ ObservationSource.vscode_workspace a _ refl
        (no_branch observation_source_name text a (invalid_data "observation source"))),
)
  where
    written : (a : ObservationSource) → parse_observation_source (observation_source_name a) ≡ ok a
    written ObservationSource.browser_chromium = refl
    written ObservationSource.vscode_workspace = refl

observation_status-IsCodec : IsCodec observation_status_name parse_observation_status
unfolding observation_status_name parse_observation_status
observation_status-IsCodec = (
  written,
  λ text a. branch observation_status_name text _ ObservationStatus.active a _ refl (
      branch observation_status_name text _ ObservationStatus.paused a _ refl
        (no_branch observation_status_name text a (invalid_data "observation status"))),
)
  where
    written : (a : ObservationStatus) → parse_observation_status (observation_status_name a) ≡ ok a
    written ObservationStatus.active = refl
    written ObservationStatus.paused = refl

sensitivity-IsCodec : IsCodec sensitivity_name parse_sensitivity
unfolding sensitivity_name parse_sensitivity
sensitivity-IsCodec = (
  written,
  λ text a. branch sensitivity_name text _ Sensitivity.normal a _ refl (
      branch sensitivity_name text _ Sensitivity.sensitive a _ refl
        (no_branch sensitivity_name text a (invalid_data "sensitivity"))),
)
  where
    written : (a : Sensitivity) → parse_sensitivity (sensitivity_name a) ≡ ok a
    written Sensitivity.normal = refl
    written Sensitivity.sensitive = refl

resource_scope-IsCodec : IsCodec resource_scope_name parse_resource_scope
unfolding resource_scope_name parse_resource_scope
resource_scope-IsCodec = (
  written,
  λ text a.
      branch resource_scope_name text _ ResourceScope.exact a _ refl
        (no_branch resource_scope_name text a (invalid_data "resource scope")),
)
  where
    written : (a : ResourceScope) → parse_resource_scope (resource_scope_name a) ≡ ok a
    written ResourceScope.exact = refl

ritual_status-IsCodec : IsCodec ritual_status_name parse_ritual_status
unfolding ritual_status_name parse_ritual_status
ritual_status-IsCodec = (
  written,
  λ text a. branch ritual_status_name text _ RitualStatus.draft a _ refl (
      branch ritual_status_name text _ RitualStatus.active a _ refl (
        branch ritual_status_name text _ RitualStatus.paused a _ refl (
          branch ritual_status_name text _ RitualStatus.archived a _ refl
            (no_branch ritual_status_name text a (invalid_data "ritual status"))))),
)
  where
    written : (a : RitualStatus) → parse_ritual_status (ritual_status_name a) ≡ ok a
    written RitualStatus.draft = refl
    written RitualStatus.active = refl
    written RitualStatus.paused = refl
    written RitualStatus.archived = refl

trigger_kind-IsCodec : IsCodec trigger_kind_name parse_trigger_kind
unfolding trigger_kind_name parse_trigger_kind
trigger_kind-IsCodec = (
  written,
  λ text a.
      branch trigger_kind_name text _ TriggerKind.manual a _ refl
        (no_branch trigger_kind_name text a (invalid_data "trigger kind")),
)
  where
    written : (a : TriggerKind) → parse_trigger_kind (trigger_kind_name a) ≡ ok a
    written TriggerKind.manual = refl

execution_status-IsCodec : IsCodec execution_status_name parse_execution_status
unfolding execution_status_name parse_execution_status
execution_status-IsCodec = (
  written,
  λ text a. branch execution_status_name text _ ExecutionStatus.planned a _ refl (
      branch execution_status_name text _ ExecutionStatus.running a _ refl (
        branch execution_status_name text _ ExecutionStatus.succeeded a _ refl (
          branch execution_status_name text _ ExecutionStatus.failed a _ refl (
            branch execution_status_name text _ ExecutionStatus.partial a _ refl (
              branch execution_status_name text _ ExecutionStatus.aborted a _ refl
                (no_branch execution_status_name text a (invalid_data "execution status"))))))),
)
  where
    written : (a : ExecutionStatus) → parse_execution_status (execution_status_name a) ≡ ok a
    written ExecutionStatus.planned = refl
    written ExecutionStatus.running = refl
    written ExecutionStatus.succeeded = refl
    written ExecutionStatus.failed = refl
    written ExecutionStatus.partial = refl
    written ExecutionStatus.aborted = refl

execution_step_status-IsCodec : IsCodec execution_step_status_name parse_execution_step_status
unfolding execution_step_status_name parse_execution_step_status
execution_step_status-IsCodec = (
  written,
  λ text a. branch execution_step_status_name text _ ExecutionStepStatus.pending a _ refl (
      branch execution_step_status_name text _ ExecutionStepStatus.running a _ refl (
        branch execution_step_status_name text _ ExecutionStepStatus.succeeded a _ refl (
          branch execution_step_status_name text _ ExecutionStepStatus.skipped a _ refl (
            branch execution_step_status_name text _ ExecutionStepStatus.failed a _ refl (
              branch execution_step_status_name text _ ExecutionStepStatus.aborted a _ refl (
                no_branch execution_step_status_name text a
                  (invalid_data "execution step status"))))))),
)
  where
    written :
        (a : ExecutionStepStatus)
        → parse_execution_step_status (execution_step_status_name a) ≡ ok a
    written ExecutionStepStatus.pending = refl
    written ExecutionStepStatus.running = refl
    written ExecutionStepStatus.succeeded = refl
    written ExecutionStepStatus.skipped = refl
    written ExecutionStepStatus.failed = refl
    written ExecutionStepStatus.aborted = refl

-- Each text that the storage writes for a kind of resource, a source or status of observation, a
-- sensitivity, a scope, a ritual's status, a trigger, or the status of an execution or of a step is
-- read back as that value, and the reader takes no other text for it.
pub names-IsCodec :
    IsCodec resource_kind_name parse_resource_kind
    × IsCodec observation_source_name parse_observation_source
    × IsCodec observation_status_name parse_observation_status
    × IsCodec sensitivity_name parse_sensitivity
    × IsCodec resource_scope_name parse_resource_scope
    × IsCodec ritual_status_name parse_ritual_status
    × IsCodec trigger_kind_name parse_trigger_kind
    × IsCodec execution_status_name parse_execution_status
    × IsCodec execution_step_status_name parse_execution_step_status
names-IsCodec = (
  resource_kind-IsCodec, observation_source-IsCodec, observation_status-IsCodec,
  sensitivity-IsCodec, resource_scope-IsCodec, ritual_status-IsCodec, trigger_kind-IsCodec,
  execution_status-IsCodec, execution_step_status-IsCodec,
)
