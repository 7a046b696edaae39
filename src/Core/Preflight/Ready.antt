-- ===== src/Core/Preflight/Ready.antt =====
-- What an accepted preflight says of the tables, the files and the adapters.
use fubun.Prelude.{
  ℕ, suc, ◌≡◌, refl, sym, ◌∙◌, Bool, true, false, not, ◌&&◌, ◌||◌, ◌==◌, List, [], ◌∷◌, any, find,
  some, ok,
}
use fubun.Domain.Base.{Uuid}
use fubun.Domain.Action
use fubun.Domain.Action.{
  ActionSpec, linux_app_ensure_running, linux_path_open, desktop_notification_show,
  browser_tab_ensure_open,
}
use fubun.Domain.Resource.{Resource, ObservationSource, source_eq, is_active}
use fubun.Domain.Ritual.{RitualVersion, RitualDefinition, Approval}
use fubun.Policy.{approval_fields}
use fubun.Adapter.Manager.{EligibleAdapter}
use fubun.Storage.Sql.{Db}
use fubun.Storage.Resources.Reading.{get_resource-Reads, list_observation_scopes-Reads}
use fubun.Storage.Rituals.Reading.{list_approvals-Reads}
use fubun.Core.Host.{Host}
use fubun.Core.Events.{permits}
use fubun.Core.Finds.{
  Finds, Finds-return, Finds-or_reject, Finds-or_failure, Finds-or_invalid, Finds-reject_if,
  Finds-bind, Finds-then, Finds-imp,
}
use fubun.Core.Preview.{
  Registry, eligible_at, path_exists, path_matches, type_is_kind, is_web_page, url_matches,
}
use fubun.Core.Preflight.{
  approves, preflight_target, preflight_action, preflight_actions, preflight,
}

-- The file or directory is where it was, and of the same kind.
pub record IsUnmoved (host : Host) (resource_id : Uuid) (db : Db) : Type 0 where
  pub resource : Resource
  pub found : find (λ r. r.id == resource_id) db.resources ≡ some resource
  pub exists : path_exists host resource ≡ true
  pub canonical : path_matches host resource ≡ true
  pub kind : type_is_kind host resource ≡ true

-- The web page is canonical and the browser may observe it.
pub record IsOpenable (host : Host) (resource_id : Uuid) (db : Db) : Type 0 where
  pub resource : Resource
  pub found : find (λ r. r.id == resource_id) db.resources ≡ some resource
  pub web_page : is_web_page resource ≡ true
  pub canonical : url_matches host resource ≡ true
  pub observed :
      any
        (λ s.
          source_eq s.source ObservationSource.browser_chromium
          && (s.resource_id == resource_id && is_active s.status))
        db.observation_scopes
      ≡ true

abbrev pub IsTarget : Host → ActionSpec → Db → Type 0
IsTarget host (linux_path_open resource_id) db = IsUnmoved host resource_id db
IsTarget host (linux_app_ensure_running app_id) db = Unit
IsTarget host (desktop_notification_show title body) db = Unit
IsTarget host (browser_tab_ensure_open resource_id) db = IsOpenable host resource_id db

-- The action is valid, an adapter can execute it, an approval of this very content names it, and
-- its target is there.
pub record IsReady (host : Host) (registry : Registry) (version : RitualVersion) (index : ℕ)
    (action : ActionSpec) (db : Db) : Type 0 where
  pub valid : Action.validate action ≡ ok tt
  pub eligible : (adapter : EligibleAdapter) × (eligible_at host registry index action ≡ ok adapter)
  pub approved :
      any
        (λ (a : Approval).
          a.ritual_version_id == version.id && approves version (approval_fields action) a)
        db.ritual_approvals
      ≡ true
  pub target : IsTarget host action db

abbrev pub AreReady : Host → Registry → RitualVersion → ℕ → List ActionSpec → Db → Type 0
AreReady host registry version index [] db = Unit
AreReady host registry version index (action ∷ actions) db =
    IsReady host registry version index action db
    × AreReady host registry version (suc index) actions db

pub of_not : (b : Bool) → not b ≡ false → b ≡ true
of_not true e = refl
of_not false e = cc

of_neither : (a b : Bool) → (not a || not b) ≡ false → (a ≡ true) × (b ≡ true)
of_neither true true e = (refl, refl)
of_neither true false e = cc
of_neither false b e = cc

preflight_target-Finds :
    (host : Host) (action : ActionSpec)
    → Finds (λ db u. IsTarget host action db) (preflight_target host action)
unfolding preflight_target
preflight_target-Finds host (linux_path_open id) =
    Finds-bind (λ db r. find (λ r. r.id == id) db.resources ≡ some r) _ _ _
      (Finds-or_reject _ _ _ _ (get_resource-Reads id))
      (λ resource. Finds-then _ _ _ _ (Finds-reject_if _ _ _) (
        Finds-then _ _ _ _ (Finds-reject_if _ _ _) (
          Finds-imp _ _ _
            (λ db u k c e found. record {
              resource = resource;
              found = found;
              exists = of_not _ e;
              canonical = of_not _ c;
              kind = of_not _ k;
            })
            (Finds-reject_if _ _ _))))
preflight_target-Finds host (linux_app_ensure_running app_id) = Finds-return tt
preflight_target-Finds host (desktop_notification_show title body) = Finds-return tt
preflight_target-Finds host (browser_tab_ensure_open id) =
    Finds-bind (λ db r. find (λ r. r.id == id) db.resources ≡ some r) _ _ _
      (Finds-or_reject _ _ _ _ (get_resource-Reads id))
      (λ resource. Finds-then _ _ _ _ (Finds-reject_if _ _ _) (
        Finds-bind _ _ _ _
          (Finds-or_reject _ _ _ _ (
            list_observation_scopes-Reads host.uuid_order host.time_order
              ObservationSource.browser_chromium))
          (λ scopes.
            Finds-imp _ _ _
              (λ db u active listed matches found. record {
                resource = resource;
                found = found;
                web_page = (of_neither _ _ matches).0;
                canonical = (of_neither _ _ matches).1;
                observed = sym (listed (permits id)) ∙ of_not _ active;
              })
              (Finds-reject_if _ _ _))))

preflight_action-Finds :
    (host : Host) (registry : Registry) (index : ℕ) (version : RitualVersion)
    (approvals : List Approval) (action : ActionSpec)
    → Finds
        (λ db u.
          ((p : Approval → Bool)
            → any p approvals
              ≡ any (λ a. a.ritual_version_id == version.id && p a) db.ritual_approvals)
          → IsReady host registry version index action db)
        (preflight_action host registry index version approvals action)
unfolding preflight_action
preflight_action-Finds host registry index version approvals action =
    Finds-then _ _ _ _ (Finds-or_invalid _ _ _) (
      Finds-bind _ _ _ _ (Finds-or_invalid _ _ _) (λ descriptor.
        Finds-bind _ _ _ _ (Finds-or_failure _ _) (λ adapter.
          Finds-then _ _ _ _ (Finds-reject_if _ _ _) (
            Finds-imp _ _ _
              (λ db u target approved eligible registered valid listed. record {
                valid = valid;
                eligible = (adapter, eligible);
                approved =
                    sym (listed (approves version (approval_fields action))) ∙ of_not _ approved;
                target = target;
              })
              (preflight_target-Finds host action)))))

preflight_actions-Finds :
    (host : Host) (registry : Registry) (index : ℕ) (version : RitualVersion)
    (approvals : List Approval) (actions : List ActionSpec)
    → Finds
        (λ db u.
          ((p : Approval → Bool)
            → any p approvals
              ≡ any (λ a. a.ritual_version_id == version.id && p a) db.ritual_approvals)
          → AreReady host registry version index actions db)
        (preflight_actions host registry index version approvals actions)
unfolding preflight_actions
preflight_actions-Finds host registry index version approvals [] =
    Finds-imp _ _ _ (λ db u k listed. tt) (Finds-return tt)
preflight_actions-Finds host registry index version approvals (action ∷ actions) =
    Finds-then _ _ _ _ (preflight_action-Finds host registry index version approvals action) (
      Finds-imp _ _ _ (λ db u later ready listed. (ready listed, later listed))
        (preflight_actions-Finds host registry (suc index) version approvals actions))

pub preflight-Finds :
    (host : Host) (registry : Registry) (version : RitualVersion) (definition : RitualDefinition)
    → Finds
        (λ db u. AreReady host registry version 0 definition.actions db)
        (preflight host registry version definition)
unfolding preflight
preflight-Finds host registry version definition =
    Finds-bind _ _ _ _ (Finds-or_reject _ _ _ _ (list_approvals-Reads host.uuid_order version.id))
      (λ approvals. preflight_actions-Finds host registry 0 version approvals definition.actions)
