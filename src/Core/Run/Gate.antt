-- ===== src/Core/Run/Gate.antt =====
-- Which rituals `ritual_run_response` executes.
use fubun.Prelude.{ℕ, ◌≡◌, refl, ◌⊎◌, inr}
use fubun.Domain.Base.{Uuid, Timestamp}
use fubun.Domain.Ritual.{Ritual, RitualVersion, RitualDefinition, RitualStatus}
use fubun.Storage.Sql.{Db, Store}
use fubun.Storage.Rituals.Reading.{IsLoaded, get_ritual-Reads}
use fubun.Core.Base.{Handler, ◌>>◌, return, reject}
use fubun.Core.Host.{Host, Draw}
use fubun.Core.Engine.{Turn}
use fubun.Core.Finds.{Finds, Finds-or_answer, guarded}
use fubun.Core.Rituals.{RitualRecord, load_ritual}
use fubun.Core.Preview.{Registry}
use fubun.Core.Preflight.Ready.{AreReady, preflight-Finds}
use fubun.Core.Run.{require_active, ritual_run_response}

pub load_ritual-Finds :
    (host : Host) (ritual_id : Uuid)
    → Finds
        (λ db (r : RitualRecord). IsLoaded host.definition_of ritual_id db r.0 r.1 r.2)
        (load_ritual host ritual_id)
unfolding load_ritual
load_ritual-Finds host ritual_id =
    Finds-or_answer _ _ _ (get_ritual-Reads host.definition_of ritual_id)

require_active-Finds :
    (status : RitualStatus) → Finds (λ db u. status ≡ RitualStatus.active) (require_active status)
unfolding require_active return reject
require_active-Finds RitualStatus.active = record { same = λ s. refl; on_ok = λ s a e. refl }
require_active-Finds RitualStatus.draft = record { same = λ s. refl; on_ok = λ s a e. cc }
require_active-Finds RitualStatus.paused = record { same = λ s. refl; on_ok = λ s a e. cc }
require_active-Finds RitualStatus.archived = record { same = λ s. refl; on_ok = λ s a e. cc }

-- The stored ritual is active, and every action of its current version is ready.
pub record IsPermitted (host : Host) (registry : Registry) (ritual_id : Uuid) (db : Db)
    : Type 0 where
  pub ritual : Ritual
  pub version : RitualVersion
  pub definition : RitualDefinition
  pub loaded : IsLoaded host.definition_of ritual_id db ritual version definition
  pub active : ritual.status ≡ RitualStatus.active
  pub ready : AreReady host registry version 0 definition.actions db

guarded-then :
    {B : Type 0} (Q : Db → Unit {0} → Type 0) (R : Db → Type 0) (m : Handler (Unit {0}))
    (f : Handler B) (db : Db)
    → Finds Q m
    → (Q db tt → (s : Store) → s.db ≡ db → ((f s).1.db ≡ db) ⊎ R db)
    → (s : Store) → s.db ≡ db
    → (((m >> f) s).1.db ≡ db) ⊎ R db
unfolding ◌>>◌
guarded-then Q R m f db h k = guarded Q R m (λ u. f) db h (λ u. k)

-- A run changes the tables only where the ritual is active, every action of its current version is
-- valid, is approved by an approval of this version with its very content hash, has an eligible
-- adapter, and has its target where it was: a stored file or directory that exists, has the same
-- canonical path and is of the same kind, or a stored web page that is canonical and that the
-- browser actively observes.
pub ritual_run_response-IsPermitted :
    (host : Host) (draw : Draw) (registry : Registry) (turns : ℕ → Turn) (finished : Timestamp)
    (ritual_id : Uuid) (s : Store)
    → ((ritual_run_response host draw registry turns finished ritual_id s).1.db ≡ s.db)
      ⊎ IsPermitted host registry ritual_id s.db
unfolding ritual_run_response
ritual_run_response-IsPermitted host draw registry turns finished ritual_id s =
    guarded _ (IsPermitted host registry ritual_id) _ _ s.db (load_ritual-Finds host ritual_id)
      (λ (ritual, version, definition) loaded.
        guarded-then _ (IsPermitted host registry ritual_id) _ _ s.db
          (require_active-Finds ritual.status)
          (λ active.
            guarded-then _ (IsPermitted host registry ritual_id) _ _ s.db
              (preflight-Finds host registry version definition)
              (λ ready after e. inr (record {
                ritual = ritual;
                version = version;
                definition = definition;
                loaded = loaded;
                active = active;
                ready = ready;
              }))))
      s refl
