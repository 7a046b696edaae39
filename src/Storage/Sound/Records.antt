-- ===== src/Storage/Sound/Records.antt =====
-- The operations on events, resources and scopes keep the tables sound.
use fubun.Prelude.{refl, arith, Option, none, some, ltb}
use fubun.Domain.WebUrl.{UrlLibrary}
use fubun.Domain.Base.{Uuid, Timestamp}
use fubun.Domain.Event.{Event, max_sequence_no}
use fubun.Domain.Resource.{Resource, ObservationScope, is_active}
use fubun.Domain.Resource.Validity.{IsValidResource}
use fubun.Storage.Sql.{Db, Sql}
use fubun.Storage.Sql.Keeps.{
  Keeps, Preserves, Keeps-bind, Keeps-then, Keeps-execute_or, Keeps-execute_ignoring, Keeps-if,
  Keeps-pure, Keeps-raise, Keeps-query, Keeps-or_not_found, Keeps-transaction,
}
use fubun.Storage.Executions.Statements.{commit}
use fubun.Storage.Events.{upsert_adapter, insert_event_row, insert_event}
use fubun.Storage.Events.Sequence.{IsLogged, insert_event-IsLogged}
use fubun.Storage.Resources.{
  resource_row, insert_resource, create_resource, insert_scope, activate_scope, pause_active_scope,
  ensure_with, ensure_observation_scope, pause_scope, pause_observation_scope,
}
use fubun.Storage.Resources.Catalog.{
  IsCatalog, create_resource-IsCatalog, ensure_observation_scope-IsCatalog,
  pause_observation_scope-IsCatalog,
}
use fubun.Storage.Sound.{
  IsSound, SameExecutions, SameEvents, SameRituals, SameCatalog, SameExecutions-IsLocked,
  SameEvents-IsLogged, SameRituals-HasCurrent, SameCatalog-IsCatalog,
}

-- Executions and rituals are the same.
record HasSameRuns (before after : Db) : Type 0 where
  executions : SameExecutions before after
  rituals : SameRituals before after

HasSameRuns-refl : (db : Db) → HasSameRuns db db
HasSameRuns-refl db = record {
  executions = record { executions = refl; locks = refl };
  rituals = record { rituals = refl; versions = refl };
}

SameCatalog-refl : (db : Db) → SameCatalog db db
SameCatalog-refl db = record { resources = refl; scopes = refl }

SameEvents-refl : (db : Db) → SameEvents db db
SameEvents-refl db = record { events = refl; adapters = refl }

-- Work that keeps executions and rituals, and the rest in order, keeps the tables sound.
IsSound-of :
    {A : Type 0} (u : UrlLibrary) (m : Sql A)
    → ((before : Db) → Keeps (HasSameRuns before) m)
    → Keeps IsLogged m
    → Keeps (IsCatalog u) m
    → Keeps (IsSound u) m
IsSound-of u m runs logged catalog = record {
  at = λ s h.
      let same = (runs s.db).at s (HasSameRuns-refl s.db) in
      record {
        locked = SameExecutions-IsLocked _ _ same.executions h.locked;
        logged = logged.at s h.logged;
        current = SameRituals-HasCurrent _ _ same.rituals h.current;
        catalog = catalog.at s h.catalog;
      };
}

IsLogged-of :
    {A : Type 0} (m : Sql A) → ((before : Db) → Keeps (SameEvents before) m) → Keeps IsLogged m
IsLogged-of m same = record {
  at = λ s h. SameEvents-IsLogged _ _ ((same s.db).at s (SameEvents-refl s.db)) h;
}

IsCatalog-of :
    {A : Type 0} (u : UrlLibrary) (m : Sql A)
    → ((before : Db) → Keeps (SameCatalog before) m)
    → Keeps (IsCatalog u) m
IsCatalog-of u m same = record {
  at = λ s h. SameCatalog-IsCatalog u _ _ ((same s.db).at s (SameCatalog-refl s.db)) h;
}

-- What an operation keeps if each of its statements does.
module _ (P : Db → Type 0) where
  insert_event-Keeps :
      (event : Event)
      → Preserves P (upsert_adapter event)
      → Preserves P (insert_event_row event)
      → Preserves P commit
      → Keeps P (insert_event event)
  unfolding insert_event
  insert_event-Keeps event k l m =
      Keeps-if (ltb max_sequence_no event.adapter.sequence_no) _ _ (Keeps-raise _) (
        Keeps-transaction _ (
          Keeps-then _ _ (Keeps-execute_ignoring _ k)
            (Keeps-bind _ _ (Keeps-execute_or _ _ l) (λ n. Keeps-execute_ignoring _ m))))

  create_resource-Keeps :
      (resource : Resource)
      → Preserves P (insert_resource resource)
      → Keeps P (create_resource resource)
  unfolding create_resource
  create_resource-Keeps resource k = Keeps-bind _ _ (Keeps-execute_or _ _ k) (λ n. Keeps-pure _)

  ensure_observation_scope-Keeps :
      (scope : ObservationScope)
      → Preserves P (insert_scope scope)
      → ((id : Uuid) → Preserves P (activate_scope scope.updated_at id))
      → Keeps P (ensure_observation_scope scope)
  unfolding ensure_observation_scope ensure_with
  ensure_observation_scope-Keeps scope k l = Keeps-bind _ _ (Keeps-query _) found_with
    where
      found_with : (found : Option ObservationScope) → Keeps P (ensure_with scope found)
      found_with none = Keeps-then _ _ (Keeps-execute_ignoring _ k) (Keeps-pure _)
      found_with (some existing) =
          Keeps-then _ _ (Keeps-execute_ignoring _ (l existing.id)) (Keeps-pure _)

  pause_observation_scope-Keeps :
      (now : Timestamp) (scope_id : Uuid)
      → ((id : Uuid) → Preserves P (pause_active_scope now id))
      → Keeps P (pause_observation_scope now scope_id)
  unfolding pause_observation_scope pause_scope
  pause_observation_scope-Keeps now scope_id k = Keeps-bind _ _ (Keeps-query _) (λ found.
      Keeps-bind _ _ (Keeps-or_not_found _) (λ scope.
        Keeps-if (is_active scope.status) _ _
          (Keeps-then _ _ (Keeps-execute_ignoring _ (k scope.id)) (Keeps-pure _)) (Keeps-pure _)))

module _ (u : UrlLibrary) where
  pub insert_event-IsSound : (event : Event) → Keeps (IsSound u) (insert_event event)
  unfolding upsert_adapter insert_event_row commit
  insert_event-IsSound event =
      IsSound-of u _
        (λ before.
          insert_event-Keeps _ event (record { on_ok = λ db after n h e. ground arith })
            (record { on_ok = λ db after n h e. ground arith })
            (record { on_ok = λ db after n h e. ground arith }))
        (insert_event-IsLogged event)
        (IsCatalog-of u _ (λ before.
          insert_event-Keeps _ event (record { on_ok = λ db after n h e. ground arith })
            (record { on_ok = λ db after n h e. ground arith })
            (record { on_ok = λ db after n h e. ground arith })))

  pub create_resource-IsSound :
      (resource : Resource)
      → IsValidResource u (resource_row resource)
      → Keeps (IsSound u) (create_resource resource)
  unfolding insert_resource
  create_resource-IsSound resource valid =
      IsSound-of u _
        (λ before.
          create_resource-Keeps _ resource (record { on_ok = λ db after n h e. ground arith }))
        (IsLogged-of _ (λ before.
          create_resource-Keeps _ resource (record { on_ok = λ db after n h e. ground arith })))
        (create_resource-IsCatalog u resource valid)

  pub ensure_observation_scope-IsSound :
      (scope : ObservationScope) → Keeps (IsSound u) (ensure_observation_scope scope)
  unfolding insert_scope activate_scope
  ensure_observation_scope-IsSound scope =
      IsSound-of u _
        (λ before.
          ensure_observation_scope-Keeps _ scope (record { on_ok = λ db after n h e. ground arith })
            (λ id. record { on_ok = λ db after n h e. ground arith }))
        (IsLogged-of _ (λ before.
          ensure_observation_scope-Keeps _ scope (record { on_ok = λ db after n h e. ground arith })
            (λ id. record { on_ok = λ db after n h e. ground arith })))
        (ensure_observation_scope-IsCatalog u scope)

  pub pause_observation_scope-IsSound :
      (now : Timestamp) (scope_id : Uuid) → Keeps (IsSound u) (pause_observation_scope now scope_id)
  unfolding pause_active_scope
  pause_observation_scope-IsSound now scope_id =
      IsSound-of u _
        (λ before.
          pause_observation_scope-Keeps _ now scope_id
            (λ id. record { on_ok = λ db after n h e. ground arith }))
        (IsLogged-of _ (λ before.
          pause_observation_scope-Keeps _ now scope_id
            (λ id. record { on_ok = λ db after n h e. ground arith })))
        (pause_observation_scope-IsCatalog u now scope_id)
