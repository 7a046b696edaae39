-- ===== src/Core/Resources.antt =====
-- `resource_create_response`, `browser_observation_enable_response` and
-- `vscode_observation_enable_response` (crates/fubun-core/src/lib.rs).
use Prim.Native.String.{◌++◌}
use fubun.Prelude.{
  ℕ, String, Bool, true, false, not, ◌&&◌, ◌||◌, ◌==◌, ltb, str_eq, if◌then◌else◌, any, find, chars,
  byte_len, Option, none, some, Result, ok, err,
}
use fubun.Domain.Base.{Uuid}
use fubun.Domain.Resource
use fubun.Domain.Resource.{
  Resource, ResourceKind, ResourceScope, ResourceValidationError, Sensitivity, ObservationScope,
  ObservationSource, ObservationStatus, kind_eq, is_absolute,
}
use fubun.Domain.WebUrl.{WebUrlError, canonicalize_web_url, or_parse_error, missing_host}
use fubun.Storage.Sql.{Store, StorageError}
use fubun.Storage.Resources.{create_resource, list_resources, ensure_observation_scope}
use fubun.Core.Base.{
  Failure, rejected, Handler, ◌>>=◌, ◌>>◌, return, reject, or_answer, storage_error,
}
use fubun.Core.Host.{Host, Draw, FileType}
use fubun.Core.Events.{or_invalid}

pub record ResourceCreateRequest : Type 0 where
  pub label : String
  pub path : String
  pub sensitivity : Sensitivity

-- `None` and `Err(_)` answer with an invalid resource.
unfoldable pub or_invalid_resource : {A : Type 0} → Option A → String → Handler A
or_invalid_resource none message = reject "invalid_resource" message
or_invalid_resource (some a) message = return a

unfoldable pub reject_if : Bool → String → String → Handler (Unit {0})
reject_if b code message = if b then reject code message else return tt

-- `if metadata.is_file() { ... } else if metadata.is_dir() { ... } else { ... }`.
unfoldable pub kind_of : FileType → Option ResourceKind
kind_of FileType.file = some ResourceKind.file
kind_of FileType.directory = some ResourceKind.directory
kind_of FileType.other = none

unfoldable pub resource_answer : StorageError → Failure
resource_answer StorageError.duplicate_resource =
    rejected "duplicate_resource" "a resource with the same canonical path already exists"
resource_answer error = storage_error error

unfoldable pub resource_create_response : Host → Draw → ResourceCreateRequest → Handler Resource
resource_create_response host draw request = do
  let input = host.path_of request.path
  reject_if
      (not (is_absolute request.path)
        || ltb 4096 (byte_len request.path)
        || any (λ byte. byte == 0 || ltb byte 32) (chars request.path))
      "invalid_resource" "resource path must be an absolute existing path"
  metadata ← or_invalid_resource (host.metadata input) "resource path does not exist"
  canonical ← or_invalid_resource (host.canonicalize input) "resource path cannot be canonicalized"
  kind ← or_invalid_resource (kind_of metadata) "resource must be a file or directory"
  let resource : Resource = record {
    id = draw.uuid 0;
    kind = kind;
    label = request.label;
    locator = request.path;
    canonical_locator = host.lossy canonical;
    sensitivity = request.sensitivity;
    scope = ResourceScope.exact;
    created_at = draw.now;
    updated_at = draw.now;
  }
  or_invalid "invalid_resource" host.resource_error (Resource.validate host.url resource)
  or_answer (create_resource resource) resource_answer

-- The resource that an observation is about: the new one, or the listed one of this kind and
-- canonical locator.
abbrev pub is_at : ResourceKind → String → Resource → Bool
is_at kind canonical resource =
    kind_eq resource.kind kind && str_eq resource.canonical_locator canonical

unfoldable pub find_listed : Host → ResourceKind → String → String → Handler Resource
find_listed host kind canonical conflict = do
  resources ← or_answer (list_resources host.uuid_order host.time_order) storage_error
  or_invalid_resource (find (is_at kind canonical) resources) conflict

-- `Err(StorageError::DuplicateResource)` goes on with the list.
unfoldable pub reuse :
    Host
    → ResourceKind
    → String
    → String
    → Result StorageError Resource × Store
    → Result Failure Resource × Store
reuse host kind canonical conflict (ok resource, s) = (ok resource, s)
reuse host kind canonical conflict (err StorageError.duplicate_resource, s) =
    find_listed host kind canonical conflict s
reuse host kind canonical conflict (err error, s) = (err (storage_error error), s)

unfoldable pub create_or_reuse : Host → Resource → String → Handler Resource
create_or_reuse host candidate conflict s =
    reuse host candidate.kind candidate.canonical_locator conflict (create_resource candidate s)

-- The resource at its canonical locator.
abbrev pub observed_resource : Draw → ResourceKind → String → String → String → Resource
observed_resource draw kind label locator canonical = record {
  id = draw.uuid 0;
  kind = kind;
  label = label;
  locator = locator;
  canonical_locator = canonical;
  sensitivity = Sensitivity.normal;
  scope = ResourceScope.exact;
  created_at = draw.now;
  updated_at = draw.now;
}

abbrev pub new_scope : Draw → ObservationSource → Uuid → ObservationScope
new_scope draw source resource_id = record {
  id = draw.uuid 1;
  source = source;
  resource_id = resource_id;
  status = ObservationStatus.active;
  created_at = draw.now;
  updated_at = draw.now;
}

pub record BrowserObservationEnableRequest : Type 0 where
  pub label : String
  pub url : String

pub record BrowserObservationEnabled : Type 0 where
  pub resource : Resource
  pub scope : ObservationScope
  pub canonical_url_hash : String
  pub origin_pattern : String

abbrev pub port_suffix : Host → Option ℕ → String
port_suffix host none = ""
port_suffix host (some port) = ":" ++ host.decimal port

abbrev pub origin_with : (host : Host) → host.url.Url → Option String → Result WebUrlError String
origin_with host url none = err missing_host
origin_with host url (some name) =
    ok (host.url.scheme url ++ "://" ++ name ++ port_suffix host (host.url.port url) ++ "/*")

unfoldable pub web_origin_pattern : Host → String → Result WebUrlError String
web_origin_pattern host canonical_url = elim (or_parse_error (host.url.parse canonical_url)) [
  | ok url ↦ origin_with host url (host.url.host_str url)
  | err e ↦ err e
]

unfoldable pub browser_observation_enable_response :
    Host → Draw → BrowserObservationEnableRequest → Handler BrowserObservationEnabled
browser_observation_enable_response host draw request = do
  canonical ←
      or_invalid "invalid_resource" (λ (e : WebUrlError). "invalid web URL")
        (canonicalize_web_url host.url request.url)
  let candidate = observed_resource draw ResourceKind.web_page request.label canonical canonical
  or_invalid "invalid_resource" (λ (e : ResourceValidationError). "invalid web resource")
      (Resource.validate host.url candidate)
  resource ← create_or_reuse host candidate "web resource conflict"
  scope ←
      or_answer
        (ensure_observation_scope (new_scope draw ObservationSource.browser_chromium resource.id))
        storage_error
  origin_pattern ←
      or_invalid "invalid_resource" (λ (e : WebUrlError). "invalid web origin")
        (web_origin_pattern host canonical)
  return (record {
    resource = resource;
    scope = scope;
    canonical_url_hash = host.url_hash canonical;
    origin_pattern = origin_pattern;
  })

pub record VscodeObservationEnableRequest : Type 0 where
  pub label : String
  pub absolute_path : String

pub record VscodeObservationEnabled : Type 0 where
  pub resource : Resource
  pub scope : ObservationScope
  pub canonical_path_hash : String

abbrev pub is_directory : Option FileType → Bool
is_directory (some FileType.directory) = true
is_directory _ = false

unfoldable pub vscode_observation_enable_response :
    Host → Draw → VscodeObservationEnableRequest → Handler VscodeObservationEnabled
vscode_observation_enable_response host draw request = do
  reject_if (not (is_absolute request.absolute_path)) "invalid_resource"
      "workspace path must be absolute"
  canonical ←
      or_invalid_resource (host.canonicalize (host.path_of request.absolute_path))
        "workspace path cannot be canonicalized"
  reject_if (not (is_directory (host.metadata canonical))) "invalid_resource"
      "workspace must be a directory"
  let candidate =
      observed_resource draw ResourceKind.directory request.label request.absolute_path
        (host.lossy canonical)
  or_invalid "invalid_resource" (λ (e : ResourceValidationError). "invalid workspace resource")
      (Resource.validate host.url candidate)
  resource ← create_or_reuse host candidate "workspace conflict"
  scope ←
      or_answer
        (ensure_observation_scope (new_scope draw ObservationSource.vscode_workspace resource.id))
        storage_error
  return (record {
    resource = resource;
    scope = scope;
    canonical_path_hash = host.url_hash ("file://" ++ resource.canonical_locator);
  })
