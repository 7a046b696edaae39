-- ===== src/Storage/Rituals/Reading.antt =====
-- What the readings of a ritual and of its approvals return.
use fubun.Prelude.{
  ℕ, ◌≡◌, refl, Bool, ◌==◌, String, List, find, any, keep, Option, none, some, ◌∙◌, any-keep, ◌&&◌,
}
use fubun.Prelude.Sort.{sort_by_key, any-sort_by_key}
use fubun.Domain.Base.{Uuid}
use fubun.Domain.Ritual.{Ritual, RitualVersion, RitualDefinition, Approval}
use fubun.Storage.Sql.{Db, pure, raise}
use fubun.Storage.Sql.Reads.{Reads, Reads-query, Reads-or_not_found, Reads-bind, Reads-imp}
use fubun.Storage.Rituals.{get_ritual, list_approvals, or_no_rows, or_invalid_json}

Reads-or_no_rows :
    {A : Type 0} (found : Option A) → Reads (λ db a. found ≡ some a) (or_no_rows found)
unfolding or_no_rows pure raise
Reads-or_no_rows none = record { on_ok = λ s a e. cc; same = λ s. refl }
Reads-or_no_rows (some b) = record { on_ok = λ s a e. cc; same = λ s. refl }

Reads-or_invalid_json :
    {A : Type 0} (found : Option A) → Reads (λ db a. found ≡ some a) (or_invalid_json found)
unfolding or_invalid_json pure raise
Reads-or_invalid_json none = record { on_ok = λ s a e. cc; same = λ s. refl }
Reads-or_invalid_json (some b) = record { on_ok = λ s a e. cc; same = λ s. refl }

Reads-pure : {A : Type 0} (a : A) → Reads (λ db b. b ≡ a) (pure a)
unfolding pure
Reads-pure a = record { on_ok = λ s b e. cc; same = λ s. refl }

-- The stored ritual of that id, its current version, and the definition that this one holds.
pub record IsLoaded (definition_of : String → Option RitualDefinition) (ritual_id : Uuid) (db : Db)
    (ritual : Ritual) (version : RitualVersion) (definition : RitualDefinition) : Type 0 where
  pub found : find (λ r. r.id == ritual_id) db.rituals ≡ some ritual
  pub current : find (λ v. v.id == ritual.current_version_id) db.ritual_versions ≡ some version
  pub defined : definition_of version.canonical_json ≡ some definition

pub get_ritual-Reads :
    (definition_of : String → Option RitualDefinition) (ritual_id : Uuid)
    → Reads
        (λ db (r : Ritual × RitualVersion × RitualDefinition).
          IsLoaded definition_of ritual_id db r.0 r.1 r.2)
        (get_ritual definition_of ritual_id)
unfolding get_ritual
get_ritual-Reads definition_of ritual_id =
    Reads-imp _ _ _
      (λ db a (found, at, (ritual, f, (current, c, (version, v, (definition, d, e))))).
        rw (e) (record { found = cc; current = cc; defined = d }))
      (Reads-bind _ _ _ _ (Reads-query _) (λ found.
        Reads-bind _ _ _ _ (Reads-or_not_found found) (λ ritual.
          Reads-bind _ _ _ _ (Reads-query _) (λ current.
            Reads-bind _ _ _ _ (Reads-or_no_rows current) (λ version.
              Reads-bind _ _ _ _ (Reads-or_invalid_json _) (λ definition. Reads-pure _))))))

-- A test that a listed approval meets is one that a stored one of the version meets.
abbrev SameApprovals : Uuid → Db → List Approval → Type 0
SameApprovals version_id db approvals =
    (p : Approval → Bool)
    → any p approvals ≡ any (λ a. a.ritual_version_id == version_id && p a) db.ritual_approvals

SameApprovals-sorted :
    (uuid_order : Uuid → ℕ) (version_id : Uuid) (db : Db) (approvals : List Approval)
    → approvals
      ≡ sort_by_key
          (λ a. uuid_order a.id)
          (keep (λ a. a.ritual_version_id == version_id) db.ritual_approvals)
    → SameApprovals version_id db approvals
SameApprovals-sorted uuid_order version_id db approvals e p =
    rw e (any-sort_by_key _ p _ ∙ any-keep p _ db.ritual_approvals)

pub list_approvals-Reads :
    (uuid_order : Uuid → ℕ) (version_id : Uuid)
    → Reads (SameApprovals version_id) (list_approvals uuid_order version_id)
unfolding list_approvals
list_approvals-Reads uuid_order version_id =
    Reads-imp _ _ _ (SameApprovals-sorted uuid_order version_id) (Reads-query _)
