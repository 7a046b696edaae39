-- ===== src/Storage/Resources/Reading.antt =====
-- What the readings of resources and scopes return.
use fubun.Prelude.{ℕ, ◌≡◌, ◌∙◌, Bool, ◌&&◌, keep, ◌==◌, List, any, find, any-keep, some}
use fubun.Prelude.Sort.{any-sort_by_key, sort_by_key}
use fubun.Domain.Base.{Uuid, Timestamp}
use fubun.Domain.Resource.{ObservationScope, ObservationSource, source_eq}
use fubun.Storage.Sql.{Db}
use fubun.Storage.Sql.Reads.{Reads, Reads-query, Reads-or_not_found, Reads-bind, Reads-imp}
use fubun.Storage.Resources.{get_resource, list_observation_scopes}

pub get_resource-Reads :
    (resource_id : Uuid)
    → Reads
        (λ db r. find (λ r. r.id == resource_id) db.resources ≡ some r)
        (get_resource resource_id)
unfolding get_resource
get_resource-Reads resource_id =
    Reads-imp _ _ _ (λ db r h. cc)
      (Reads-bind _ _ _ _ (Reads-query _) (λ found. Reads-or_not_found found))

-- A test that a listed scope of the source meets is one that a stored one meets.
abbrev SameScopes : ObservationSource → Db → List ObservationScope → Type 0
SameScopes source db scopes =
    (p : ObservationScope → Bool)
    → any p scopes ≡ any (λ s. source_eq s.source source && p s) db.observation_scopes

SameScopes-sorted :
    (uuid_order : Uuid → ℕ) (time_order : Timestamp → ℕ) (source : ObservationSource) (db : Db)
    (scopes : List ObservationScope)
    → scopes
      ≡ sort_by_key
          (λ s. time_order s.created_at)
          (sort_by_key
            (λ s. uuid_order s.id)
            (keep (λ s. source_eq s.source source) db.observation_scopes))
    → SameScopes source db scopes
SameScopes-sorted uuid_order time_order source db scopes e p =
    rw e (any-sort_by_key _ p _ ∙ any-sort_by_key _ p _ ∙ any-keep p _ db.observation_scopes)

pub list_observation_scopes-Reads :
    (uuid_order : Uuid → ℕ) (time_order : Timestamp → ℕ) (source : ObservationSource)
    → Reads (SameScopes source) (list_observation_scopes uuid_order time_order (some source))
unfolding list_observation_scopes
list_observation_scopes-Reads uuid_order time_order source =
    Reads-imp _ _ _ (SameScopes-sorted uuid_order time_order source) (Reads-query _)
