-- ===== src/Domain/Execution.antt =====
-- The records of an execution and of its steps (crates/fubun-domain/src/lib.rs).
use fubun.Prelude.{ℕ, String, Option}
use fubun.Domain.Base.{Uuid, Timestamp}

pub data TriggerKind : Type 0 where
  manual : TriggerKind

pub data ExecutionStatus : Type 0 where
  planned running succeeded failed partial aborted : ExecutionStatus

pub record Execution : Type 0 where
  pub id : Uuid
  pub ritual_id : Uuid
  pub ritual_version_id : Uuid
  pub status : ExecutionStatus
  pub trigger_kind : TriggerKind
  pub started_at : Timestamp
  pub finished_at : Option Timestamp
  pub failure_code : Option String
  pub created_at : Timestamp

pub data ExecutionStepStatus : Type 0 where
  pending running succeeded skipped failed aborted : ExecutionStepStatus

pub record ExecutionStep : Type 0 where
  pub id : Uuid
  pub execution_id : Uuid
  pub step_index : ℕ
  pub action_type : String
  pub status : ExecutionStepStatus
  pub adapter_id : Option String
  pub adapter_instance_id : Option Uuid
  pub started_at : Timestamp
  pub finished_at : Option Timestamp
  pub result_code : Option String
  pub redacted_message : Option String
