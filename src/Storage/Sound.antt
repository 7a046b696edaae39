-- ===== src/Storage/Sound.antt =====
-- What holds of the tables of crates/fubun-storage/src/lib.rs between any two operations, and which
-- tables an operation leaves alone.
pub mod Executions
pub mod Rituals
pub mod Records
use fubun.Prelude.{◌≡◌, refl, sym, ap, subst}
use fubun.Domain.WebUrl.{UrlLibrary}
use fubun.Storage.Sql.{Db, Sql, Store}
use fubun.Storage.Sql.Keeps.{Keeps}
use fubun.Storage.Events.Sequence.{IsLogged}
use fubun.Storage.Executions.Locks.{IsLocked}
use fubun.Storage.Resources.Catalog.{IsCatalog}
use fubun.Storage.Rituals.Current.{HasCurrent}

-- Running executions are locked, the events are in sequence, the rituals have their versions, and
-- the resources and scopes are in order.
pub record IsSound (u : UrlLibrary) (db : Db) : Type 0 where
  pub locked : IsLocked db
  pub logged : IsLogged db
  pub current : HasCurrent db
  pub catalog : IsCatalog u db

pub record SameExecutions (before after : Db) : Type 0 where
  pub executions : after.executions ≡ before.executions
  pub locks : after.ritual_execution_locks ≡ before.ritual_execution_locks

pub record SameEvents (before after : Db) : Type 0 where
  pub events : after.events ≡ before.events
  pub adapters : after.adapters ≡ before.adapters

pub record SameRituals (before after : Db) : Type 0 where
  pub rituals : after.rituals ≡ before.rituals
  pub versions : after.ritual_versions ≡ before.ritual_versions

pub record SameCatalog (before after : Db) : Type 0 where
  pub resources : after.resources ≡ before.resources
  pub scopes : after.observation_scopes ≡ before.observation_scopes

pub SameExecutions-IsLocked :
    (before after : Db) → SameExecutions before after → IsLocked before → IsLocked after
SameExecutions-IsLocked before after same h = record {
  running_locked = rw (same.executions, same.locks) h.running_locked;
  unique = rw (same.locks) h.unique;
}

pub SameEvents-IsLogged :
    (before after : Db) → SameEvents before after → IsLogged before → IsLogged after
SameEvents-IsLogged before after same h = record {
  covered = rw (same.events, same.adapters) h.covered;
  distinct = rw (same.events) h.distinct;
}

pub SameRituals-HasCurrent :
    (before after : Db) → SameRituals before after → HasCurrent before → HasCurrent after
SameRituals-HasCurrent before after same h = rw (same.rituals, same.versions) h

pub SameCatalog-IsCatalog :
    (u : UrlLibrary) (before after : Db)
    → SameCatalog before after
    → IsCatalog u before
    → IsCatalog u after
SameCatalog-IsCatalog u before after same h = record {
  valid = rw (same.resources) h.valid;
  distinct = rw (same.resources) h.distinct;
  targets = rw (same.scopes) h.targets;
  referring = rw (same.resources, same.scopes) h.referring;
}
