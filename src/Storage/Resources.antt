-- ===== src/Storage/Resources.antt =====
-- Resources and observation scopes (crates/fubun-storage/src/lib.rs).
pub mod Reading
pub mod Catalog
use fubun.Prelude.{
  ℕ, Bool, true, not, ◌&&◌, ◌||◌, ◌==◌, str_eq, if◌then◌else◌, List, ◌∷◌, any, keep, find, Option,
  none, some, ok,
}
use fubun.Prelude.Sort.{sort_by_key}
use fubun.Domain.Base.{Uuid, Timestamp}
use fubun.Domain.Resource.{
  Resource, ObservationScope, ObservationSource, ObservationStatus, source_eq, is_active,
}
use fubun.Storage.Sql.{
  Sql, Statement, StorageError, ◌>>=◌, ◌>>◌, pure, execute_or, execute_ignoring, query,
  or_not_found,
}
use fubun.Storage.Executions.Statements.{insert_if, update_rows, count}

-- The row that is stored: `updated_at` is written from the same argument as `created_at`.
abbrev pub resource_row : Resource → Resource
resource_row resource = record resource { updated_at = resource.created_at }

-- The primary key and the canonical locator are free.
unfoldable pub insert_resource : Resource → Statement
insert_resource resource db =
    insert_if
      (not (
        any
          (λ (r : Resource).
            r.id == resource.id || str_eq r.canonical_locator resource.canonical_locator)
          db.resources))
      (record db { resources = resource_row resource ∷ db.resources })

-- The caller gets the resource that it passed.
unfoldable pub create_resource : Resource → Sql Resource
create_resource resource = do
  n ← execute_or StorageError.duplicate_resource (insert_resource resource)
  pure resource

-- `ORDER BY created_at ASC, id ASC`, both as texts.
unfoldable pub list_resources : (Uuid → ℕ) → (Timestamp → ℕ) → Sql (List Resource)
list_resources uuid_order time_order = query λ db.
    sort_by_key (λ r. time_order r.created_at) (sort_by_key (λ r. uuid_order r.id) db.resources)

unfoldable pub get_resource : Uuid → Sql Resource
get_resource resource_id = do
  found ← query (λ db. find (λ r. r.id == resource_id) db.resources)
  or_not_found found

abbrev pub same_target : ObservationScope → ObservationScope → Bool
same_target a b = source_eq a.source b.source && a.resource_id == b.resource_id

-- The primary key and the pair of source and resource are free; the resource exists.
unfoldable pub insert_scope : ObservationScope → Statement
insert_scope scope db =
    insert_if
      (not (
          any (λ (s : ObservationScope). s.id == scope.id || same_target s scope)
            db.observation_scopes)
        && any (λ (r : Resource). r.id == scope.resource_id) db.resources)
      (record db { observation_scopes = scope ∷ db.observation_scopes })

unfoldable pub activate_scope : Timestamp → Uuid → Statement
activate_scope updated_at id db = ok (
  count (λ (s : ObservationScope). s.id == id) db.observation_scopes,
  record db {
    observation_scopes =
        update_rows (λ s. s.id == id)
          (λ s. record s { status = ObservationStatus.active; updated_at = updated_at })
          db.observation_scopes;
  },
)

unfoldable pub pause_active_scope : Timestamp → Uuid → Statement
pause_active_scope now id db = ok (
  count (λ (s : ObservationScope). s.id == id && is_active s.status) db.observation_scopes,
  record db {
    observation_scopes =
        update_rows (λ s. s.id == id && is_active s.status)
          (λ s. record s { status = ObservationStatus.paused; updated_at = now })
          db.observation_scopes;
  },
)

-- An existing scope of that source and resource is made active; else the new one is stored.
unfoldable pub ensure_with : ObservationScope → Option ObservationScope → Sql ObservationScope
ensure_with scope (some existing) = do
  execute_ignoring (activate_scope scope.updated_at existing.id)
  pure (record existing { status = ObservationStatus.active; updated_at = scope.updated_at })
ensure_with scope none = do execute_ignoring (insert_scope scope); pure scope

unfoldable pub ensure_observation_scope : ObservationScope → Sql ObservationScope
ensure_observation_scope scope = do
  existing ← query (λ db. find (λ s. same_target s scope) db.observation_scopes)
  ensure_with scope existing

abbrev of_source : Option ObservationSource → ObservationScope → Bool
of_source none scope = true
of_source (some source) scope = source_eq scope.source source

-- `ORDER BY created_at ASC, id ASC`, both as texts.
unfoldable pub list_observation_scopes :
    (Uuid → ℕ) → (Timestamp → ℕ) → Option ObservationSource → Sql (List ObservationScope)
list_observation_scopes uuid_order time_order source = query λ db.
    sort_by_key (λ s. time_order s.created_at)
      (sort_by_key (λ s. uuid_order s.id) (keep (of_source source) db.observation_scopes))

unfoldable pub pause_scope : Timestamp → ObservationScope → Sql ObservationScope
pause_scope now scope =
    if is_active scope.status
    then (do
      execute_ignoring (pause_active_scope now scope.id)
      pure (record scope { status = ObservationStatus.paused; updated_at = now }))
    else pure scope

unfoldable pub pause_observation_scope : Timestamp → Uuid → Sql ObservationScope
pause_observation_scope now scope_id = do
  found ← query (λ db. find (λ s. s.id == scope_id) db.observation_scopes)
  scope ← or_not_found found
  pause_scope now scope
