-- ===== src/Storage/Rituals/Current.antt =====
-- Each stored ritual has its current version, whatever statements fail.
use fubun.Prelude.{ℕ, ◌≡◌, refl, Bool, true, ◌&&◌, ◌||◌, ◌==◌, List, [], ◌∷◌, any, all, ok, arith}
use fubun.Domain.Base.{Uuid, Timestamp}
use fubun.Domain.Ritual.{Ritual, RitualVersion, RitualDefinition, RitualStatus}
use fubun.Storage.Sql.{Db, execute}
use fubun.Storage.Sql.Keeps.{
  Keeps, Preserves, Keeps-then, Keeps-execute_ignoring, Keeps-pure, Keeps-if, Keeps-raise,
  keeps_rules,
}
use fubun.Storage.Sql.Ensures.{
  Keeps-transaction-Ensures, Ensures-execute_or, Ensures-bind, Ensures-then, Ensures-of_Keeps,
  Ensures-execute_ignoring,
}
use fubun.Storage.Executions.{require_changed}
use fubun.Storage.Executions.Statements.{update_rows, commit}
use fubun.Storage.Rituals.{
  insert_ritual, insert_version_row, insert_ritual_version, create_ritual, renewed_row, set_ritual,
  update_ritual, set_status_row, set_ritual_status,
}

-- A version of this very ritual is stored under the id of its current version.
abbrev has_current : List RitualVersion → Ritual → Bool
has_current versions r = any (λ v. v.id == r.current_version_id && v.ritual_id == r.id) versions

abbrev pub HasCurrent : Db → Type 0
HasCurrent db = all (has_current db.ritual_versions) db.rituals ≡ true

-- The ritual's current version is the one about to be stored.
abbrev is_new : Uuid → RitualVersion → Ritual → Bool
is_new ritual_id version r = r.current_version_id == version.id && r.id == ritual_id

abbrev HasCurrentBut : Uuid → RitualVersion → Db → Type 0
HasCurrentBut ritual_id version db =
    all (λ r. is_new ritual_id version r || has_current db.ritual_versions r) db.rituals ≡ true

all_old :
    (ritual_id : Uuid) (version : RitualVersion) (versions : List RitualVersion) (rs : List Ritual)
    → all (has_current versions) rs ≡ true
    → all (λ r. is_new ritual_id version r || has_current versions r) rs ≡ true
all_old ritual_id version versions [] h = refl
all_old ritual_id version versions (r ∷ rs) h =
    ground (arith, all_old ritual_id version versions rs)

all_renewed :
    (ritual : Ritual) (version : RitualVersion) (versions : List RitualVersion) (rs : List Ritual)
    → all (has_current versions) rs ≡ true
    → all
        (λ r. is_new ritual.id version r || has_current versions r)
        (update_rows (λ r. r.id == ritual.id) (renewed_row ritual version) rs)
      ≡ true
all_renewed ritual version versions [] h = refl
all_renewed ritual version versions (r ∷ rs) h =
    ground (arith, all_renewed ritual version versions rs)

all_stored :
    (ritual_id : Uuid) (version : RitualVersion) (versions : List RitualVersion) (rs : List Ritual)
    → version.ritual_id ≡ ritual_id
    → all (λ r. is_new ritual_id version r || has_current versions r) rs ≡ true
    → all (has_current (version ∷ versions)) rs ≡ true
all_stored ritual_id version versions [] e h = refl
all_stored ritual_id version versions (r ∷ rs) e h =
    ground (arith, all_stored ritual_id version versions rs)

all_restated :
    (ritual_id : Uuid) (status : RitualStatus) (now : Timestamp) (versions : List RitualVersion)
    (rs : List Ritual)
    → all (has_current versions) rs ≡ true
    → all (has_current versions) (
        update_rows
          (λ r. r.id == ritual_id)
          (λ r. record r { status = status; updated_at = now })
          rs)
      ≡ true
all_restated ritual_id status now versions [] h = refl
all_restated ritual_id status now versions (r ∷ rs) h =
    ground (arith, all_restated ritual_id status now versions rs)

insert_ritual-HasCurrentBut :
    (ritual : Ritual) (version : RitualVersion) (db after : Db) (n : ℕ)
    → HasCurrent db
    → insert_ritual ritual version db ≡ ok (n, after)
    → HasCurrentBut ritual.id version after
unfolding insert_ritual
insert_ritual-HasCurrentBut ritual version db after n h e =
    ground (arith, all_old ritual.id version db.ritual_versions db.rituals)

set_ritual-HasCurrentBut :
    (ritual : Ritual) (version : RitualVersion) (db after : Db) (n : ℕ)
    → HasCurrent db
    → set_ritual ritual version db ≡ ok (n, after)
    → HasCurrentBut ritual.id version after
unfolding set_ritual
set_ritual-HasCurrentBut ritual version db after n h e =
    ground (arith, all_renewed ritual version db.ritual_versions db.rituals)

insert_version_row-HasCurrent :
    (ritual : Ritual) (version : RitualVersion)
    → version.ritual_id ≡ ritual.id
    → (db after : Db) (n : ℕ) → HasCurrentBut ritual.id version db
    → insert_version_row version db ≡ ok (n, after)
    → HasCurrent after
unfolding insert_version_row
insert_version_row-HasCurrent ritual version own db after n h e =
    ground (arith, all_stored ritual.id version db.ritual_versions db.rituals own)

commit-HasCurrent : Preserves HasCurrent commit
unfolding commit
commit-HasCurrent = record { on_ok = λ db after n h e. ground arith }

-- Creating a ritual with a version of it, whichever statements fail, keeps it true that each stored
-- ritual has its current version among its stored versions.
pub create_ritual-HasCurrent :
    (ritual : Ritual) (version : RitualVersion) (definition : RitualDefinition)
    → version.ritual_id ≡ ritual.id
    → Keeps HasCurrent (create_ritual ritual version definition)
unfolding create_ritual insert_ritual_version
create_ritual-HasCurrent ritual version definition own = Keeps-transaction-Ensures _ (
    Ensures-then _ _ (Ensures-execute_ignoring _ (insert_ritual-HasCurrentBut ritual version)) (
      Ensures-then _ _
        (Ensures-execute_ignoring _ (insert_version_row-HasCurrent ritual version own))
        (Ensures-of_Keeps _
          (Keeps-then _ _ (Keeps-execute_ignoring _ commit-HasCurrent) (Keeps-pure _)))))

-- Storing a new version of a ritual, whichever statements fail, keeps it true that each stored
-- ritual has its current version among its stored versions.
pub update_ritual-HasCurrent :
    (ritual : Ritual) (version : RitualVersion) (definition : RitualDefinition)
    → version.ritual_id ≡ ritual.id
    → Keeps HasCurrent (update_ritual ritual version definition)
unfolding update_ritual insert_ritual_version execute require_changed
update_ritual-HasCurrent ritual version definition own = Keeps-transaction-Ensures _ (
    Ensures-bind _ _ (Ensures-execute_or _ _ (set_ritual-HasCurrentBut ritual version)) (λ changed.
      Ensures-then _ _ (Ensures-of_Keeps _ (Keeps-if _ _ _ (Keeps-raise _) (Keeps-pure _))) (
        Ensures-then _ _
          (Ensures-execute_ignoring _ (insert_version_row-HasCurrent ritual version own))
          (Ensures-of_Keeps _
            (Keeps-then _ _ (Keeps-execute_ignoring _ commit-HasCurrent) (Keeps-pure _))))))

set_status_row-HasCurrent :
    (ritual_id : Uuid) (status : RitualStatus) (now : Timestamp)
    → Preserves HasCurrent (set_status_row ritual_id status now)
unfolding set_status_row
set_status_row-HasCurrent ritual_id status now = record {
  on_ok = λ db after n h e.
      ground (arith, all_restated ritual_id status now db.ritual_versions db.rituals);
}

pub set_ritual_status-HasCurrent :
    (now : Timestamp) (ritual_id : Uuid) (status : RitualStatus)
    → Keeps HasCurrent (set_ritual_status now ritual_id status)
unfolding set_ritual_status require_changed
set_ritual_status-HasCurrent now ritual_id status =
    search (keeps_rules, set_status_row-HasCurrent ritual_id status now)
