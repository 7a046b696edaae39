-- ===== src/Storage/Resources/Catalog.antt =====
-- The stored resources and scopes, whatever statements fail.
use fubun.Prelude.{
  ◌≡◌, refl, subst, inl, inr, Bool-cases, Bool, true, false, ◌&&◌, ◌||◌, ◌==◌, str_eq, List, [],
  ◌∷◌, any, all, All, Option, none, some, arith,
}
use fubun.Domain.Base.{Uuid, Timestamp}
use fubun.Domain.WebUrl.{UrlLibrary}
use fubun.Domain.Resource.{Resource, ObservationScope, ObservationStatus, is_active}
use fubun.Domain.Resource.Validity.{IsValidResource}
use fubun.Storage.Sql.{Db}
use fubun.Storage.Sql.Keeps.{
  Keeps, Preserves, Keeps-bind, Keeps-then, Keeps-execute_or, Keeps-execute_ignoring, Keeps-query,
  Keeps-pure, Keeps-if, Keeps-or_not_found,
}
use fubun.Storage.Executions.Statements.{update_rows}
use fubun.Storage.Resources.{
  resource_row, insert_resource, create_resource, same_target, insert_scope, activate_scope,
  pause_active_scope, ensure_with, ensure_observation_scope, pause_scope, pause_observation_scope,
}

abbrev resource_clashes : Resource → Resource → Bool
resource_clashes new old = old.id == new.id || str_eq old.canonical_locator new.canonical_locator

-- No resource has the id or the canonical locator of a later one.
abbrev HasDistinctResources : List Resource → Type 0
HasDistinctResources [] = Unit
HasDistinctResources (r ∷ rs) = (any (resource_clashes r) rs ≡ false) × HasDistinctResources rs

abbrev scope_clashes : ObservationScope → ObservationScope → Bool
scope_clashes new old = old.id == new.id || same_target old new

-- No scope has the id of a later one, or its source and resource.
abbrev HasDistinctScopes : List ObservationScope → Type 0
HasDistinctScopes [] = Unit
HasDistinctScopes (s ∷ ss) = (any (scope_clashes s) ss ≡ false) × HasDistinctScopes ss

abbrev has_resource : List Resource → ObservationScope → Bool
has_resource resources s = any (λ r. r.id == s.resource_id) resources

-- Each stored resource is valid, and each scope is about a stored resource.
pub record IsCatalog (u : UrlLibrary) (db : Db) : Type 0 where
  pub valid : All (IsValidResource u) db.resources
  pub distinct : HasDistinctResources db.resources
  pub targets : HasDistinctScopes db.observation_scopes
  pub referring : all (has_resource db.resources) db.observation_scopes ≡ true

all_referring-cons :
    (r : Resource) (resources : List Resource) (ss : List ObservationScope)
    → all (has_resource resources) ss ≡ true
    → all (has_resource (r ∷ resources)) ss ≡ true
all_referring-cons r resources [] h = refl
all_referring-cons r resources (s ∷ ss) h = ground (arith, all_referring-cons r resources ss)

insert_resource-IsCatalog :
    (u : UrlLibrary) (resource : Resource)
    → IsValidResource u (resource_row resource)
    → Preserves (IsCatalog u) (insert_resource resource)
unfolding insert_resource
insert_resource-IsCatalog u resource v = record {
  on_ok = λ db after n h e. record {
    valid = ground arith;
    distinct = ground arith;
    targets = ground arith;
    referring =
        ground
          (arith, all_referring-cons (resource_row resource) db.resources db.observation_scopes);
  };
}

pub create_resource-IsCatalog :
    (u : UrlLibrary) (resource : Resource)
    → IsValidResource u (resource_row resource)
    → Keeps (IsCatalog u) (create_resource resource)
unfolding create_resource
create_resource-IsCatalog u resource v =
    Keeps-bind _ _ (Keeps-execute_or _ _ (insert_resource-IsCatalog u resource v))
      (λ n. Keeps-pure _)

insert_scope-IsCatalog :
    (u : UrlLibrary) (scope : ObservationScope) → Preserves (IsCatalog u) (insert_scope scope)
unfolding insert_scope
insert_scope-IsCatalog u scope = record {
  on_ok = λ db after n h e. record {
    valid = ground arith;
    distinct = ground arith;
    targets = ground arith;
    referring = ground arith;
  };
}

-- A change of the rows that keeps ids, sources and resources.
module _ (p : ObservationScope → Bool) (change : ObservationScope → ObservationScope)
    (same : (s : ObservationScope)
      → ((change s).id ≡ s.id)
        × ((change s).source ≡ s.source)
        × ((change s).resource_id ≡ s.resource_id)) where
  any_clashes-update :
      (a b : ObservationScope) (ss : List ObservationScope)
      → (a.id ≡ b.id) × (a.source ≡ b.source) × (a.resource_id ≡ b.resource_id)
      → any (scope_clashes b) ss ≡ false
      → any (scope_clashes a) (update_rows p change ss) ≡ false
  any_clashes-update a b [] e h = refl
  any_clashes-update a b (s ∷ ss) e h = ground (arith, any_clashes-update a b ss, same s)

  HasDistinctScopes-update :
      (ss : List ObservationScope)
      → HasDistinctScopes ss
      → HasDistinctScopes (update_rows p change ss)
  HasDistinctScopes-update [] h = tt
  HasDistinctScopes-update (s ∷ ss) h = elim (Bool-cases (p s)) [
    | inl t ↦
        rw t (any_clashes-update (change s) s ss (same s) h.0, HasDistinctScopes-update ss h.1)
    | inr f ↦
        rw f (any_clashes-update s s ss (refl, refl, refl) h.0, HasDistinctScopes-update ss h.1)
  ]

  all_referring-update :
      (resources : List Resource) (ss : List ObservationScope)
      → all (has_resource resources) ss ≡ true
      → all (has_resource resources) (update_rows p change ss) ≡ true
  all_referring-update resources [] h = refl
  all_referring-update resources (s ∷ ss) h =
      ground (arith, all_referring-update resources ss, same s)

  IsCatalog-update :
      (u : UrlLibrary) (db : Db)
      → IsCatalog u db
      → IsCatalog u (record db { observation_scopes = update_rows p change db.observation_scopes })
  IsCatalog-update u db h = record {
    valid = h.valid;
    distinct = h.distinct;
    targets = HasDistinctScopes-update db.observation_scopes h.targets;
    referring = all_referring-update db.resources db.observation_scopes h.referring;
  }

activate_scope-IsCatalog :
    (u : UrlLibrary) (now : Timestamp) (id : Uuid) → Preserves (IsCatalog u) (activate_scope now id)
unfolding activate_scope
activate_scope-IsCatalog u now id = record {
  on_ok = λ db after n h e. subst (IsCatalog u) (ground arith) (
      IsCatalog-update (λ s. s.id == id)
        (λ s. record s { status = ObservationStatus.active; updated_at = now })
        (λ s. (refl, refl, refl)) u db h);
}

pause_active_scope-IsCatalog :
    (u : UrlLibrary) (now : Timestamp) (id : Uuid)
    → Preserves (IsCatalog u) (pause_active_scope now id)
unfolding pause_active_scope
pause_active_scope-IsCatalog u now id = record {
  on_ok = λ db after n h e. subst (IsCatalog u) (ground arith) (
      IsCatalog-update (λ s. s.id == id && is_active s.status)
        (λ s. record s { status = ObservationStatus.paused; updated_at = now })
        (λ s. (refl, refl, refl)) u db h);
}

ensure_with-IsCatalog :
    (u : UrlLibrary) (scope : ObservationScope) (found : Option ObservationScope)
    → Keeps (IsCatalog u) (ensure_with scope found)
unfolding ensure_with
ensure_with-IsCatalog u scope none =
    Keeps-then _ _ (Keeps-execute_ignoring _ (insert_scope-IsCatalog u scope)) (Keeps-pure _)
ensure_with-IsCatalog u scope (some existing) =
    Keeps-then _ _ (Keeps-execute_ignoring _ (activate_scope-IsCatalog u _ _)) (Keeps-pure _)

pub ensure_observation_scope-IsCatalog :
    (u : UrlLibrary) (scope : ObservationScope)
    → Keeps (IsCatalog u) (ensure_observation_scope scope)
unfolding ensure_observation_scope
ensure_observation_scope-IsCatalog u scope =
    Keeps-bind _ _ (Keeps-query _) (λ found. ensure_with-IsCatalog u scope found)

pub pause_observation_scope-IsCatalog :
    (u : UrlLibrary) (now : Timestamp) (scope_id : Uuid)
    → Keeps (IsCatalog u) (pause_observation_scope now scope_id)
unfolding pause_observation_scope pause_scope
pause_observation_scope-IsCatalog u now scope_id = Keeps-bind _ _ (Keeps-query _) (λ found.
    Keeps-bind _ _ (Keeps-or_not_found _) (λ scope.
      Keeps-if (is_active scope.status) _ _
        (Keeps-then _ _ (Keeps-execute_ignoring _ (pause_active_scope-IsCatalog u _ _))
          (Keeps-pure _))
        (Keeps-pure _)))
