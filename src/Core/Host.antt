-- ===== src/Core/Host.antt =====
-- What the handlers of crates/fubun-core/src/lib.rs take from outside the repository: the file
-- system with the path of the database, the version of the build, the `url` crate, serde and SHA-256, the texts that thiserror derives, and the order of
-- UUIDs and moments as texts.
use fubun.Prelude.{ℕ, String, Bool, Option}
use fubun.Domain.Base.{Uuid, Timestamp}
use fubun.Domain.Event.{ValidationError}
use fubun.Domain.Resource.{ResourceValidationError}
use fubun.Domain.Ritual.{RitualDefinition, RitualValidationError}
use fubun.Domain.WebUrl.{UrlLibrary}
use fubun.Policy.{PolicyError}

-- `Metadata::is_file`, `Metadata::is_dir`, or neither.
pub data FileType : Type 0 where
  file directory other : FileType

pub record Host : Type 1 where
  pub url : UrlLibrary
  pub FilePath : Type 0
  pub path_of : String → FilePath
  pub lossy : FilePath → String
  pub exists : FilePath → Bool
  pub metadata : FilePath → Option FileType
  pub canonicalize : FilePath → Option FilePath
  pub canonical_json : RitualDefinition → Option String
  pub content_hash : RitualDefinition → Option String
  pub definition_of : String → Option RitualDefinition
  pub url_hash : String → String
  pub decimal : ℕ → String
  pub time_text : Timestamp → String
  pub database_path : String
  pub server_version : String
  pub event_error : ValidationError → String
  pub resource_error : ResourceValidationError → String
  pub ritual_error : RitualValidationError → String
  pub policy_error : PolicyError → String
  pub uuid_order : Uuid → ℕ
  pub time_order : Timestamp → ℕ

-- What one request draws: its new UUIDs in order, and the time that it and the storage read.
pub record Draw : Type 0 where
  pub uuid : ℕ → Uuid
  pub now : Timestamp
  pub stored_now : Timestamp
