-- ===== src/Core/Run/Secured.antt =====
-- After an activation the ritual may run.
use fubun.Prelude.{
  ℕ, suc, ◌≡◌, refl, sym, subst, String, Bool, true, false, ◌==◌, List, [], ◌∷◌, any, find, some,
  Result, ok, err, arith,
}
use fubun.Domain.Base.{Uuid, Timestamp}
use fubun.Domain.Action.{
  ActionSpec, linux_app_ensure_running, linux_path_open, desktop_notification_show,
  browser_tab_ensure_open,
}
use fubun.Domain.Ritual.{Ritual, RitualVersion, RitualDefinition, RitualStatus, Approval}
use fubun.Storage.Sql.{Db, Store, Sql, StorageError, execute}
use fubun.Storage.Sound.Rituals.{create_approvals-Keeps}
use fubun.Storage.Sql.Keeps.{Preserves, Keeps-if, Keeps-raise, Keeps-pure}
use fubun.Storage.Sql.Ensures.{Ensures, Ensures-execute_or, Ensures-bind, Ensures-of_Keeps}
use fubun.Storage.Executions.{require_changed}
use fubun.Storage.Executions.Statements.{commit, update_rows}
use fubun.Storage.Rituals.{insert_approval, create_approvals, set_status_row, set_ritual_status}
use fubun.Storage.Rituals.Reading.{IsLoaded}
use fubun.Core.Base.{Failure, Handler, resume, ◌>>=◌, ◌>>◌, return, with_answer, or_answer}
use fubun.Core.Host.{Host, Draw}
use fubun.Core.Finds.{Finds, Finds-reject_if}
use fubun.Core.Resources.{reject_if}
use fubun.Core.Preview.{Registry}
use fubun.Core.Preview.Runnable.{AreRunnable, build_preview-Finds}
use fubun.Core.Preflight.Ready.{AreReady, IsTarget, of_not}
use fubun.Core.Run.{approvals_for, ritual_activate_response}
use fubun.Core.Run.Gate.{IsPermitted, load_ritual-Finds}
use fubun.Core.Run.Activation.{
  AreApproved, approves_action, approvals_for-AreApproved, create_approvals-Ensures,
}

-- What a handler has made true where it answers with a value.
record Secures {A : Type 0} (P : Db → Type 0) (Q : A → Db → Type 0) (m : Handler A) : Type 0 where
  on_ok : (s : Store) (a : A) → P s.db → (m s).0 ≡ ok a → Q a (m s).1.db

resume-secured :
    {A B : Type 0} (Q : A → Db → Type 0) (R : B → Db → Type 0) (f : A → Handler B)
    → ((a : A) → Secures (Q a) R (f a))
    → (r : Result Failure A) (s : Store) (b : B) → ((a : A) → r ≡ ok a → Q a s.db)
    → (resume f (r, s)).0 ≡ ok b
    → R b (resume f (r, s)).1.db
resume-secured Q R f k (ok a) s b h e = (k a).on_ok s b (h a refl) e
resume-secured Q R f k (err c) s b h e = cc

Secures-bind :
    {A B : Type 0} (P : Db → Type 0) (Q : A → Db → Type 0) (R : B → Db → Type 0) (m : Handler A)
    (f : A → Handler B)
    → Secures P Q m
    → ((a : A) → Secures (Q a) R (f a))
    → Secures P R (m >>= f)
unfolding ◌>>=◌
Secures-bind P Q R m f h k = record {
  on_ok = λ s b p e. resume-secured Q R f k (m s).0 (m s).1 b (λ a g. h.on_ok s a p g) e;
}

Secures-then :
    {B : Type 0} (P : Db → Type 0) (Q : Db → Type 0) (R : B → Db → Type 0) (m : Handler (Unit {0}))
    (f : Handler B)
    → Secures P (λ u. Q) m
    → Secures Q R f
    → Secures P R (m >> f)
unfolding ◌>>◌
Secures-then P Q R m f h k = Secures-bind P (λ u. Q) R m (λ u. f) h (λ u. k)

with_answer-secured :
    {A : Type 0} (Q : A → Db → Type 0) (answer : StorageError → Failure) (r : Result StorageError A)
    (s : Store) (a : A)
    → (r ≡ ok a → Q a s.db)
    → (with_answer answer (r, s)).0 ≡ ok a
    → Q a (with_answer answer (r, s)).1.db
with_answer-secured Q answer (ok b) s a h e = h cc
with_answer-secured Q answer (err c) s a h e = cc

Secures-or_answer :
    (P : Db → Type 0) (Q : Db → Type 0) (m : Sql (Unit {0})) (answer : StorageError → Failure)
    → Ensures P Q m
    → Secures P (λ u. Q) (or_answer m answer)
unfolding or_answer
Secures-or_answer P Q m answer h = record {
  on_ok = λ s a p e. with_answer-secured (λ u. Q) answer (m s).0 (m s).1 a (λ g. h.on_ok s a p g) e;
}

-- A reading, from tables about which `K` is known.
Secures-Finds :
    {A : Type 0} (K : Db → Type 0) (F : Db → A → Type 0) (m : Handler A)
    → Finds F m
    → Secures K (λ a db. K db × F db a) m
Secures-Finds K F m h = record {
  on_ok = λ s a k e. subst (λ db. K db × F db a) (sym (h.same s)) (k, h.on_ok s a e);
}

Secures-return :
    {A : Type 0} (P : Db → Type 0) (Q : A → Db → Type 0) (a : A)
    → ((b : A) (db : Db) → P db → Q b db)
    → Secures P Q (return a)
unfolding return
Secures-return P Q a k = record { on_ok = λ s b p e. k b s.db p }

-- What the approvals and the new status leave alone.
record HasSameTargets (before after : Db) : Type 0 where
  resources : after.resources ≡ before.resources
  scopes : after.observation_scopes ≡ before.observation_scopes
  versions : after.ritual_versions ≡ before.ritual_versions

-- The rituals are the same too, and the actions are approved.
record IsApproved (before : Db) (version : RitualVersion) (actions : List ActionSpec) (after : Db)
    : Type 0 where
  same : HasSameTargets before after
  rituals : after.rituals ≡ before.rituals
  approved : AreApproved version actions after.ritual_approvals

record HasSameRituals (before after : Db) : Type 0 where
  same : HasSameTargets before after
  rituals : after.rituals ≡ before.rituals

insert_approval-HasSameRituals :
    (before : Db) (a : Approval) → Preserves (HasSameRituals before) (insert_approval a)
unfolding insert_approval
insert_approval-HasSameRituals before a = record { on_ok = λ db after n h e. ground arith }

commit-HasSameRituals : (before : Db) → Preserves (HasSameRituals before) commit
unfolding commit
commit-HasSameRituals before = record { on_ok = λ db after n h e. ground arith }

-- Each of the actions is approved by its own approval.
all_approved :
    (version : RitualVersion) (actions : List ActionSpec) (approvals : List Approval) (db : Db)
    → ((p : Approval → Bool) → any p approvals ≡ true → any p db.ritual_approvals ≡ true)
    → AreApproved version actions approvals
    → AreApproved version actions db.ritual_approvals
all_approved version [] approvals db k h = tt
all_approved version (action ∷ actions) approvals db k h =
    (k (approves_action version action) h.0, all_approved version actions approvals db k h.1)

create_approvals-IsApproved :
    (before : Db) (draw : Draw) (version : RitualVersion) (actions : List ActionSpec)
    → Ensures
        (λ db. db ≡ before)
        (IsApproved before version actions)
        (create_approvals (approvals_for draw version 0 actions))
create_approvals-IsApproved before draw version actions = record {
  on_ok = λ s u p e.
      let kept =
        (create_approvals-Keeps (HasSameRituals before) (insert_approval-HasSameRituals before)
            (commit-HasSameRituals before) (approvals_for draw version 0 actions)).at
          s
          (rw p (record {
            same = record { resources = refl; scopes = refl; versions = refl };
            rituals = refl;
          })) in
      record {
        same = kept.same;
        rituals = kept.rituals;
        approved =
            all_approved version actions (approvals_for draw version 0 actions)
              (create_approvals (approvals_for draw version 0 actions) s).1.db
              (λ q h. (create_approvals-Ensures q _ h).on_ok s u tt e)
              (approvals_for-AreApproved draw version 0 actions);
      };
}

abbrev activated : Timestamp → Ritual → Ritual
activated now r = record r { status = RitualStatus.active; updated_at = now }

-- The ritual is active too.
record IsActivated (now : Timestamp) (ritual_id : Uuid) (before : Db) (version : RitualVersion)
    (actions : List ActionSpec) (after : Db) : Type 0 where
  same : HasSameTargets before after
  rituals : after.rituals ≡ update_rows (λ r. r.id == ritual_id) (activated now) before.rituals
  approved : AreApproved version actions after.ritual_approvals

set_status_row-IsActivated :
    (now : Timestamp) (ritual_id : Uuid) (before : Db) (version : RitualVersion)
    (actions : List ActionSpec) (db after : Db) (n : ℕ)
    → IsApproved before version actions db
    → set_status_row ritual_id RitualStatus.active now db ≡ ok (n, after)
    → IsActivated now ritual_id before version actions after
unfolding set_status_row
set_status_row-IsActivated now ritual_id before version actions db after n h e =
    let eq : after
        ≡ record db { rituals = update_rows (λ r. r.id == ritual_id) (activated now) db.rituals } =
      ground arith in
    rw eq (record {
      same = record {
        resources = h.same.resources;
        scopes = h.same.scopes;
        versions = h.same.versions;
      };
      rituals = rw (h.rituals) refl;
      approved = h.approved;
    })

set_ritual_status-IsActivated :
    (now : Timestamp) (ritual_id : Uuid) (before : Db) (version : RitualVersion)
    (actions : List ActionSpec)
    → Ensures
        (IsApproved before version actions)
        (IsActivated now ritual_id before version actions)
        (set_ritual_status now ritual_id RitualStatus.active)
unfolding set_ritual_status require_changed execute
set_ritual_status-IsActivated now ritual_id before version actions =
    Ensures-bind _ _
      (Ensures-execute_or _ _ (set_status_row-IsActivated now ritual_id before version actions))
      (λ changed. Ensures-of_Keeps _ (Keeps-if (changed == 0) _ _ (Keeps-raise _) (Keeps-pure tt)))

find-activated :
    (now : Timestamp) (ritual_id : Uuid) (ritual : Ritual) (rituals : List Ritual)
    → find (λ r. r.id == ritual_id) rituals ≡ some ritual
    → find (λ r. r.id == ritual_id) (update_rows (λ r. r.id == ritual_id) (activated now) rituals)
      ≡ some (activated now ritual)
find-activated now ritual_id ritual [] e = cc
find-activated now ritual_id ritual (r ∷ rituals) e =
    ground (arith, find-activated now ritual_id ritual rituals)

IsTarget-same :
    (host : Host) (action : ActionSpec) (before after : Db)
    → HasSameTargets before after
    → IsTarget host action before
    → IsTarget host action after
IsTarget-same host (linux_path_open id) before after same h = record {
  resource = h.resource;
  found = rw (same.resources) h.found;
  exists = h.exists;
  canonical = h.canonical;
  kind = h.kind;
}
IsTarget-same host (linux_app_ensure_running app_id) before after same h = tt
IsTarget-same host (desktop_notification_show title body) before after same h = tt
IsTarget-same host (browser_tab_ensure_open id) before after same h = record {
  resource = h.resource;
  found = rw (same.resources) h.found;
  web_page = h.web_page;
  canonical = h.canonical;
  observed = rw (same.scopes) h.observed;
}

ready_of :
    (host : Host) (registry : Registry) (version : RitualVersion) (index : ℕ)
    (actions : List ActionSpec) (before after : Db)
    → HasSameTargets before after
    → AreRunnable host registry index actions before
    → AreApproved version actions after.ritual_approvals
    → AreReady host registry version index actions after
ready_of host registry version index [] before after same h k = tt
ready_of host registry version index (action ∷ actions) before after same h k = (
  record {
    valid = h.0.valid;
    eligible = h.0.eligible;
    approved = k.0;
    target = IsTarget-same host action before after same h.0.target;
  },
  ready_of host registry version (suc index) actions before after same h.1 k.1,
)

activated-IsPermitted :
    (host : Host) (registry : Registry) (now : Timestamp) (ritual_id : Uuid) (ritual : Ritual)
    (version : RitualVersion) (definition : RitualDefinition) (before after : Db)
    → IsLoaded host.definition_of ritual_id before ritual version definition
    → AreRunnable host registry 0 definition.actions before
    → IsActivated now ritual_id before version definition.actions after
    → IsPermitted host registry ritual_id after
activated-IsPermitted host registry now ritual_id ritual version definition before after l h a =
    record {
      ritual = activated now ritual;
      version = version;
      definition = definition;
      loaded = record {
        found = rw (a.rituals) (find-activated now ritual_id ritual before.rituals l.found);
        current = rw (a.same.versions) l.current;
        defined = l.defined;
      };
      active = refl;
      ready = ready_of host registry version 0 definition.actions before after a.same h a.approved;
    }

reject_if-secured :
    (K : Db → Type 0) (b : Bool) (code message : String)
    → Secures K (λ u db. K db × (b ≡ false)) (reject_if b code message)
reject_if-secured K b code message = Secures-Finds K _ _ (Finds-reject_if b code message)

-- A fact that the work has no part in.
Ensures-and :
    {A : Type 0} (P Q K : Db → Type 0) (C : Type 0) (m : Sql A)
    → ((db : Db) → K db → P db × C)
    → Ensures P Q m
    → Ensures K (λ db. Q db × C) m
Ensures-and P Q K C m k h = record { on_ok = λ s a e g. (h.on_ok s a (k s.db e).0 g, (k s.db e).1) }

-- Where an activation succeeds, a run of the ritual is permitted after it, with the same files and
-- adapters: the stored ritual is active, and every action of its current version is valid, is
-- approved, has an eligible adapter and its target.
pub ritual_activate_response-IsPermitted :
    (host : Host) (draw : Draw) (registry : Registry) (ritual_id : Uuid) (approve : Bool)
    (s : Store) (ritual : Ritual)
    → (ritual_activate_response host draw registry ritual_id approve s).0 ≡ ok ritual
    → IsPermitted host registry ritual_id
        (ritual_activate_response host draw registry ritual_id approve s).1.db
unfolding ritual_activate_response
ritual_activate_response-IsPermitted host draw registry ritual_id approve s ritual e =
    (secured s.db).on_ok s ritual refl e
  where
    Facts : Db → Ritual → RitualVersion → RitualDefinition → Type 0
    Facts before found version definition =
        IsLoaded host.definition_of ritual_id before found version definition
        × AreRunnable host registry 0 definition.actions before

    secured :
        (before : Db)
        → Secures
            (λ db. db ≡ before)
            (λ r db. IsPermitted host registry ritual_id db)
            (ritual_activate_response host draw registry ritual_id approve)
    secured before = Secures-then _ _ _ _ _ (reject_if-secured _ _ _ _) (
        Secures-bind _ _ _ _ _ (Secures-Finds _ _ _ (load_ritual-Finds host ritual_id))
          (λ (found, version, definition).
            Secures-bind _ _ _ _ _
              (Secures-Finds _ _ _ (build_preview-Finds host registry found version definition))
              (λ preview. Secures-then _ _ _ _ _ (reject_if-secured _ _ _ _) (
                Secures-then _ _ _ _ _
                  (Secures-or_answer _ _ _ _ (
                    Ensures-and _ _ _ (Facts before found version definition) _
                      (λ db ((((same, approving), loaded), runnable), blocked).
                        (same, (rw same at loaded, rw same at (runnable (of_not _ blocked)))))
                      (create_approvals-IsApproved before draw version definition.actions)))
                  (Secures-then _ _ _ _ _
                    (Secures-or_answer _ _ _ _ (
                      Ensures-and _ _ _ (Facts before found version definition) _
                        (λ db facts. facts)
                        (set_ritual_status-IsActivated draw.stored_now ritual_id before version
                          definition.actions)))
                    (Secures-return _ _ _ (λ r db (done, (loaded, runnable)).
                      activated-IsPermitted host registry draw.stored_now ritual_id found version
                        definition before db loaded runnable done)))))))
