-- ===== src/Storage/Sound/Rituals.antt =====
-- The operations on rituals and approvals keep the tables sound.
use fubun.Prelude.{◌≡◌, refl, ℕ, List, [], ◌∷◌, arith, ◌==◌}
use fubun.Domain.WebUrl.{UrlLibrary}
use fubun.Domain.Base.{Uuid, Timestamp}
use fubun.Domain.Ritual.{Ritual, RitualVersion, RitualDefinition, RitualStatus, Approval}
use fubun.Storage.Sql.{Db, Sql}
use fubun.Storage.Sql.Keeps.{
  Keeps, Preserves, Keeps-bind, Keeps-then, Keeps-execute, Keeps-execute_ignoring, Keeps-if,
  Keeps-pure, Keeps-raise, Keeps-transaction,
}
use fubun.Storage.Executions.{require_changed}
use fubun.Storage.Executions.Statements.{commit}
use fubun.Storage.Rituals.{
  insert_ritual, insert_version_row, insert_ritual_version, create_ritual, set_ritual,
  update_ritual, set_status_row, set_ritual_status, insert_approval, insert_approvals,
  create_approvals,
}
use fubun.Storage.Rituals.Current.{
  HasCurrent, create_ritual-HasCurrent, update_ritual-HasCurrent, set_ritual_status-HasCurrent,
}
use fubun.Storage.Sound.{
  IsSound, SameExecutions, SameEvents, SameCatalog, SameExecutions-IsLocked, SameEvents-IsLogged,
  SameCatalog-IsCatalog,
}

-- Only rituals, versions and approvals differ.
record HasSameRest (before after : Db) : Type 0 where
  executions : SameExecutions before after
  events : SameEvents before after
  catalog : SameCatalog before after

HasSameRest-refl : (db : Db) → HasSameRest db db
HasSameRest-refl db = record {
  executions = record { executions = refl; locks = refl };
  events = record { events = refl; adapters = refl };
  catalog = record { resources = refl; scopes = refl };
}

-- Work that keeps the rest and the rituals in order keeps the tables sound.
IsSound-of :
    {A : Type 0} (u : UrlLibrary) (m : Sql A)
    → Keeps HasCurrent m
    → ((before : Db) → Keeps (HasSameRest before) m)
    → Keeps (IsSound u) m
IsSound-of u m k rest = record {
  at = λ s h.
      let same = (rest s.db).at s (HasSameRest-refl s.db) in
      record {
        locked = SameExecutions-IsLocked _ _ same.executions h.locked;
        logged = SameEvents-IsLogged _ _ same.events h.logged;
        current = k.at s h.current;
        catalog = SameCatalog-IsCatalog u _ _ same.catalog h.catalog;
      };
}

module _ (before : Db) where
  insert_ritual-HasSameRest :
      (ritual : Ritual) (version : RitualVersion)
      → Preserves (HasSameRest before) (insert_ritual ritual version)
  unfolding insert_ritual
  insert_ritual-HasSameRest ritual version = record { on_ok = λ db after n h e. ground arith }

  insert_version_row-HasSameRest :
      (version : RitualVersion) → Preserves (HasSameRest before) (insert_version_row version)
  unfolding insert_version_row
  insert_version_row-HasSameRest version = record { on_ok = λ db after n h e. ground arith }

  set_ritual-HasSameRest :
      (ritual : Ritual) (version : RitualVersion)
      → Preserves (HasSameRest before) (set_ritual ritual version)
  unfolding set_ritual
  set_ritual-HasSameRest ritual version = record { on_ok = λ db after n h e. ground arith }

  set_status_row-HasSameRest :
      (id : Uuid) (status : RitualStatus) (now : Timestamp)
      → Preserves (HasSameRest before) (set_status_row id status now)
  unfolding set_status_row
  set_status_row-HasSameRest id status now = record { on_ok = λ db after n h e. ground arith }

  insert_approval-HasSameRest :
      (approval : Approval) → Preserves (HasSameRest before) (insert_approval approval)
  unfolding insert_approval
  insert_approval-HasSameRest approval = record { on_ok = λ db after n h e. ground arith }

  commit-HasSameRest : Preserves (HasSameRest before) commit
  unfolding commit
  commit-HasSameRest = record { on_ok = λ db after n h e. ground arith }

  create_ritual-HasSameRest :
      (ritual : Ritual) (version : RitualVersion) (definition : RitualDefinition)
      → Keeps (HasSameRest before) (create_ritual ritual version definition)
  unfolding create_ritual insert_ritual_version
  create_ritual-HasSameRest ritual version definition = Keeps-transaction _ (
      Keeps-then _ _ (Keeps-execute_ignoring _ (insert_ritual-HasSameRest ritual version)) (
        Keeps-then _ _ (Keeps-execute_ignoring _ (insert_version_row-HasSameRest version))
          (Keeps-then _ _ (Keeps-execute_ignoring _ commit-HasSameRest) (Keeps-pure _))))

  changed-HasSameRest : (changed : ℕ) → Keeps (HasSameRest before) (require_changed changed)
  unfolding require_changed
  changed-HasSameRest changed = Keeps-if (changed == 0) _ _ (Keeps-raise _) (Keeps-pure _)

  update_ritual-HasSameRest :
      (ritual : Ritual) (version : RitualVersion) (definition : RitualDefinition)
      → Keeps (HasSameRest before) (update_ritual ritual version definition)
  unfolding update_ritual insert_ritual_version
  update_ritual-HasSameRest ritual version definition = Keeps-transaction _ (
      Keeps-bind _ _ (Keeps-execute _ (set_ritual-HasSameRest ritual version)) (λ changed.
        Keeps-then _ _ (changed-HasSameRest changed) (
          Keeps-then _ _ (Keeps-execute_ignoring _ (insert_version_row-HasSameRest version))
            (Keeps-then _ _ (Keeps-execute_ignoring _ commit-HasSameRest) (Keeps-pure _)))))

  set_ritual_status-HasSameRest :
      (now : Timestamp) (id : Uuid) (status : RitualStatus)
      → Keeps (HasSameRest before) (set_ritual_status now id status)
  unfolding set_ritual_status
  set_ritual_status-HasSameRest now id status =
      Keeps-bind _ _ (Keeps-execute _ (set_status_row-HasSameRest id status now))
        (λ changed. changed-HasSameRest changed)

insert_approval-HasCurrent : (approval : Approval) → Preserves HasCurrent (insert_approval approval)
unfolding insert_approval
insert_approval-HasCurrent approval = record { on_ok = λ db after n h e. ground arith }

commit-HasCurrent : Preserves HasCurrent commit
unfolding commit
commit-HasCurrent = record { on_ok = λ db after n h e. ground arith }

-- Approvals are stored in one transaction of statements that each keep `P`.
pub create_approvals-Keeps :
    (P : Db → Type 0)
    → ((approval : Approval) → Preserves P (insert_approval approval))
    → Preserves P commit
    → (approvals : List Approval) → Keeps P (create_approvals approvals)
unfolding create_approvals insert_approvals
create_approvals-Keeps P k committed approvals =
    Keeps-transaction _ (Keeps-then _ _ (each approvals) (Keeps-execute_ignoring _ committed))
  where
    each : (approvals : List Approval) → Keeps P (insert_approvals approvals)
    each [] = Keeps-pure tt
    each (approval ∷ approvals) =
        Keeps-then _ _ (Keeps-execute_ignoring _ (k approval)) (each approvals)

module _ (u : UrlLibrary) where
  pub create_ritual-IsSound :
      (ritual : Ritual) (version : RitualVersion) (definition : RitualDefinition)
      → version.ritual_id ≡ ritual.id
      → Keeps (IsSound u) (create_ritual ritual version definition)
  create_ritual-IsSound ritual version definition own =
      IsSound-of u _ (create_ritual-HasCurrent ritual version definition own)
        (λ before. create_ritual-HasSameRest before ritual version definition)

  pub update_ritual-IsSound :
      (ritual : Ritual) (version : RitualVersion) (definition : RitualDefinition)
      → version.ritual_id ≡ ritual.id
      → Keeps (IsSound u) (update_ritual ritual version definition)
  update_ritual-IsSound ritual version definition own =
      IsSound-of u _ (update_ritual-HasCurrent ritual version definition own)
        (λ before. update_ritual-HasSameRest before ritual version definition)

  pub set_ritual_status-IsSound :
      (now : Timestamp) (id : Uuid) (status : RitualStatus)
      → Keeps (IsSound u) (set_ritual_status now id status)
  set_ritual_status-IsSound now id status =
      IsSound-of u _ (set_ritual_status-HasCurrent now id status)
        (λ before. set_ritual_status-HasSameRest before now id status)

  pub create_approvals-IsSound :
      (approvals : List Approval) → Keeps (IsSound u) (create_approvals approvals)
  create_approvals-IsSound approvals =
      IsSound-of u _
        (create_approvals-Keeps _ insert_approval-HasCurrent commit-HasCurrent approvals)
        (λ before.
          create_approvals-Keeps _ (insert_approval-HasSameRest before) (commit-HasSameRest before)
            approvals)
