-- ===== src/Core/Preview/Runnable.antt =====
-- What a preview without warnings says of the tables, the files and the adapters.
use fubun.Prelude.{
  ℕ, suc, ◌≡◌, refl, sym, ◌∙◌, Bool, true, false, ◌&&◌, ◌==◌, List, [], ◌∷◌, ◌++◌, map, any, find,
  some, Result, ok, err, is_ok, String,
}
use fubun.Domain.Base.{Uuid}
use fubun.Domain.Action
use fubun.Domain.Action.{
  ActionSpec, linux_app_ensure_running, linux_path_open, desktop_notification_show,
  browser_tab_ensure_open,
}
use fubun.Domain.Resource.{Resource, ObservationScope, ObservationSource, source_eq}
use fubun.Domain.Ritual.{Ritual, RitualVersion, RitualDefinition}
use fubun.Adapter.Manager.{EligibleAdapter, AdapterEligibilityError}
use fubun.Storage.Sql.{Db, Sql, StorageError}
use fubun.Storage.Sql.Reads.{Reads}
use fubun.Storage.Resources.Reading.{get_resource-Reads, list_observation_scopes-Reads}
use fubun.Core.Base.{attempt, return}
use fubun.Core.Host.{Host}
use fubun.Core.Events.{permits}
use fubun.Core.Finds.{Finds, Finds-returned, Finds-or_reject, Finds-bind, Finds-imp}
use fubun.Core.Preview.{
  Registry, PreviewAction, Checks, eligible_at, path_exists, path_matches, type_is_kind,
  is_web_page, url_matches, warn_unless, path_checks, web_checks, tab_checks, check_action,
  eligibility_warnings, is_nil, preview_actions, build_preview, action_warnings,
}
use fubun.Core.Preflight.Ready.{IsUnmoved, IsOpenable, IsTarget}

-- The action is valid, an adapter can execute it, and its target is there.
pub record IsRunnable (host : Host) (registry : Registry) (index : ℕ) (action : ActionSpec)
    (db : Db) : Type 0 where
  pub valid : Action.validate action ≡ ok tt
  pub eligible : (adapter : EligibleAdapter) × (eligible_at host registry index action ≡ ok adapter)
  pub target : IsTarget host action db

abbrev pub AreRunnable : Host → Registry → ℕ → List ActionSpec → Db → Type 0
AreRunnable host registry index [] db = Unit
AreRunnable host registry index (action ∷ actions) db =
    IsRunnable host registry index action db × AreRunnable host registry (suc index) actions db

is_nil-append :
    {A : Type 0} (xs ys : List A)
    → is_nil (xs ++ ys) ≡ true
    → (is_nil xs ≡ true) × (is_nil ys ≡ true)
is_nil-append [] ys e = (refl, e)
is_nil-append (x ∷ xs) ys e = cc

is_nil-map : {A B : Type 0} (f : A → B) (xs : List A) → is_nil (map f xs) ≡ true → is_nil xs ≡ true
is_nil-map f [] e = refl
is_nil-map f (x ∷ xs) e = cc

is_nil-warn_unless :
    (b : Bool) (message : String) → is_nil (warn_unless b message) ≡ true → b ≡ true
is_nil-warn_unless true message e = refl
is_nil-warn_unless false message e = cc

no_warnings :
    (a b c : Bool) (first second third : String)
    → is_nil (warn_unless a first ++ warn_unless b second ++ warn_unless c third) ≡ true
    → (a ≡ true) × (b ≡ true) × (c ≡ true)
no_warnings true true true first second third e = (refl, refl, refl)
no_warnings true true false first second third e = cc
no_warnings true false c first second third e = cc
no_warnings false b c first second third e = cc

both : (a b : Bool) → (a && b) ≡ true → b ≡ true
both true b e = e
both false b e = cc

Finds-attempt :
    {A : Type 0} (Q : Db → A → Type 0) (m : Sql A)
    → Reads Q m
    → Finds (λ db (r : Result StorageError A). (a : A) → r ≡ ok a → Q db a) (attempt m)
unfolding attempt
Finds-attempt Q m reads = record {
  same = λ s. reads.same s;
  on_ok = λ s r e a g. reads.on_ok s a cc;
}

path_checks-IsUnmoved :
    (host : Host) (id : Uuid) (db : Db) (r : Result StorageError Resource)
    → ((resource : Resource)
        → r ≡ ok resource
        → find (λ r. r.id == id) db.resources ≡ some resource)
    → is_nil (path_checks host r).warnings ≡ true
    → IsUnmoved host id db
unfolding path_checks
path_checks-IsUnmoved host id db (err e) found quiet = cc
path_checks-IsUnmoved host id db (ok resource) found quiet =
    let (exists, canonical, kind) =
      no_warnings (path_exists host resource)
        (path_exists host resource && path_matches host resource)
        (path_exists host resource && type_is_kind host resource) _ _ _ quiet in
    record {
      resource = resource;
      found = found resource refl;
      exists = exists;
      canonical = both _ _ canonical;
      kind = both _ _ kind;
    }

web_checks-IsOpenable :
    (host : Host) (id : Uuid) (db : Db) (resource : Resource) (scopes : List ObservationScope)
    → find (λ r. r.id == id) db.resources ≡ some resource
    → any (permits id) scopes
      ≡ any
          (λ s. source_eq s.source ObservationSource.browser_chromium && permits id s)
          db.observation_scopes
    → is_nil (web_checks host id resource scopes).warnings ≡ true
    → IsOpenable host id db
web_checks-IsOpenable host id db resource scopes found listed quiet =
    let (web_page, canonical, active) =
      no_warnings (is_web_page resource) (is_web_page resource && url_matches host resource)
        (any (permits id) scopes) _ _ _ quiet in
    record {
      resource = resource;
      found = found;
      web_page = web_page;
      canonical = both _ _ canonical;
      observed = sym listed ∙ active;
    }

tab_checks-Finds :
    (host : Host) (id : Uuid) (r : Result StorageError Resource)
    → Finds
        (λ db checks.
          ((resource : Resource)
            → r ≡ ok resource
            → find (λ r. r.id == id) db.resources ≡ some resource)
          → is_nil checks.warnings ≡ true
          → IsOpenable host id db)
        (tab_checks host id r)
unfolding tab_checks return
tab_checks-Finds host id (err e) =
    Finds-imp _ _ _ (λ db checks eq found quiet. absurd (let bad = rw eq at quiet in cc))
      (Finds-returned _)
tab_checks-Finds host id (ok resource) =
    Finds-bind _ _ _ _
      (Finds-or_reject _ _ _ _ (
        list_observation_scopes-Reads host.uuid_order host.time_order
          ObservationSource.browser_chromium))
      (λ scopes.
        Finds-imp _ _ _
          (λ db checks eq listed found quiet.
            web_checks-IsOpenable host id db resource scopes (found resource refl)
              (listed (permits id)) (rw eq at quiet))
          (Finds-returned _))

check_action-Finds :
    (host : Host) (eligible : Bool) (action : ActionSpec)
    → Finds
        (λ db checks. is_nil checks.warnings ≡ true → IsTarget host action db)
        (check_action host eligible action)
unfolding check_action
check_action-Finds host eligible (linux_path_open id) =
    Finds-bind _ _ _ _ (Finds-attempt _ _ (get_resource-Reads id)) (λ r.
      Finds-imp _ _ _
        (λ db checks eq found quiet. path_checks-IsUnmoved host id db r found (rw eq at quiet))
        (Finds-returned _))
check_action-Finds host eligible (linux_app_ensure_running app_id) =
    Finds-imp _ _ _ (λ db checks eq quiet. tt) (Finds-returned _)
check_action-Finds host eligible (desktop_notification_show title body) =
    Finds-imp _ _ _ (λ db checks eq quiet. tt) (Finds-returned _)
check_action-Finds host eligible (browser_tab_ensure_open id) =
    Finds-bind _ _ _ _ (Finds-attempt _ _ (get_resource-Reads id))
      (λ r. Finds-imp _ _ _ (λ db checks k found. k found) (tab_checks-Finds host id r))

eligible-ok :
    (r : Result AdapterEligibilityError EligibleAdapter)
    → is_nil (eligibility_warnings r) ≡ true
    → (adapter : EligibleAdapter) × (r ≡ ok adapter)
eligible-ok (ok adapter) e = (adapter, refl)
eligible-ok (err error) e = cc

valid-ok :
    (r : Result Action.ActionValidationError (Unit {0})) (message : String)
    → is_nil (warn_unless (is_ok r) message) ≡ true
    → r ≡ ok tt
valid-ok (ok u) message e = refl
valid-ok (err error) message e = cc

-- An action whose warnings are none.
action_warnings-IsRunnable :
    (host : Host) (registry : Registry) (index : ℕ) (action : ActionSpec) (checks : Checks)
    (db : Db)
    → (is_nil checks.warnings ≡ true → IsTarget host action db)
    → is_nil (action_warnings (eligible_at host registry index action) action checks) ≡ true
    → IsRunnable host registry index action db
action_warnings-IsRunnable host registry index action checks db target quiet =
    let (before, valid) = is_nil-append _ _ quiet in
    let (eligible, checked) = is_nil-append _ _ before in
    record {
      valid = valid-ok _ _ valid;
      eligible = eligible-ok _ eligible;
      target = target checked;
    }

preview_actions-Finds :
    (host : Host) (registry : Registry) (index : ℕ) (actions : List ActionSpec)
    → Finds
        (λ db (r : List PreviewAction × List String).
          is_nil r.1 ≡ true → AreRunnable host registry index actions db)
        (preview_actions host registry index actions)
unfolding preview_actions
preview_actions-Finds host registry index [] =
    Finds-imp _ _ _ (λ db r eq quiet. tt) (Finds-returned _)
preview_actions-Finds host registry index (action ∷ actions) =
    Finds-bind _ _ _ _ (check_action-Finds host _ action) (λ checks.
      Finds-bind _ _ _ _ (preview_actions-Finds host registry (suc index) actions)
        (λ (rows, warnings).
          Finds-imp _ _ _
            (λ db r eq later target quiet.
              let (here, rest) = is_nil-append _ warnings (rw eq at quiet) in
              (
                action_warnings-IsRunnable host registry index action checks db target
                    (is_nil-map _ _ here),
                later rest,
              ))
            (Finds-returned _)))

-- A preview is executable only if every action is runnable.
pub build_preview-Finds :
    (host : Host) (registry : Registry) (ritual : Ritual) (version : RitualVersion)
    (definition : RitualDefinition)
    → Finds
        (λ db preview.
          preview.executable ≡ true → AreRunnable host registry 0 definition.actions db)
        (build_preview host registry ritual version definition)
unfolding build_preview
build_preview-Finds host registry ritual version definition =
    Finds-bind _ _ _ _ (preview_actions-Finds host registry 0 definition.actions)
      (λ (rows, warnings).
        Finds-imp _ _ _ (λ db preview eq later executable. later (rw eq at executable))
          (Finds-returned _))
