-- ===== src/Adapter/Manager.antt =====
-- `AdapterRequirements` and `AdapterManager` (crates/fubun-core/src/adapter.rs). Each function is
-- one critical section of the source: what runs between two of them is a matter of `Schedule`.
-- A new token, the current time and the order of UUIDs as texts are arguments; a sent reply is an
-- entry of `replies`.
pub mod Selection
pub mod Schedule
use fubun.Prelude.{
  ℕ, String, Bool, true, false, not, ◌&&◌, ◌||◌, ◌==◌, str_eq, if◌then◌else◌, List, [], ◌∷◌, ◌++◌,
  any, keep, map, length, Option, none, some, Result, ok, err, ◌>>=◌, ◌>>◌,
}
use fubun.Prelude.Map.{Map, get, remove, put}
use fubun.Prelude.Sort.{sort_by_key}
use fubun.Domain.Base.{Uuid, Timestamp}
use fubun.Domain.Action.{
  ActionSpec, linux_app_ensure_running, linux_path_open, desktop_notification_show,
  browser_tab_ensure_open,
}
use fubun.Protocol.Message.{
  AdapterHello, ActionResult, AdapterResponseBody, AdapterResponseEnvelope, action_result,
  status_report, event_emit,
}
use fubun.Adapter.Hello.{
  AdapterRegistrationError, validate_hello, linux_adapter_id, browser_adapter_id, contains,
}

pub data AdapterDispatchErrorKind : Type 0 where
  unavailable capability_unavailable timeout disconnected protocol : AdapterDispatchErrorKind

pub record AdapterRequirements : Type 0 where
  pub capability : String
  pub required_tool : Option String
  pub desktop_entry_id : Option String
  pub browser_resource_id : Option Uuid

unfoldable pub from_action : ActionSpec → AdapterRequirements
from_action (linux_app_ensure_running app_id) = record {
  capability = "linux.app.ensure_running.v1";
  required_tool = some "gtk-launch";
  desktop_entry_id = some app_id;
  browser_resource_id = none;
}
from_action (linux_path_open resource_id) = record {
  capability = "linux.path.open.v1";
  required_tool = some "xdg-open";
  desktop_entry_id = none;
  browser_resource_id = none;
}
from_action (desktop_notification_show title body) = record {
  capability = "desktop.notification.show.v1";
  required_tool = some "notify-send";
  desktop_entry_id = none;
  browser_resource_id = none;
}
from_action (browser_tab_ensure_open resource_id) = record {
  capability = "browser.tab.ensure_open.v1";
  required_tool = none;
  desktop_entry_id = none;
  browser_resource_id = some resource_id;
}

pub record EligibleAdapter : Type 0 where
  pub adapter_id : String
  pub instance_id : Uuid

abbrev pub ConnectionToken : Type 0
ConnectionToken = Uuid

pub data AdapterEligibilityError : Type 0 where
  unavailable ineligible : AdapterEligibilityError

pub record DispatchedActionError : Type 0 where
  pub identity : Option EligibleAdapter
  pub kind : AdapterDispatchErrorKind

pub record DispatchedActionResult : Type 0 where
  pub identity : EligibleAdapter
  pub result : ActionResult

pub record PendingRequest : Type 0 where
  pub identity : EligibleAdapter
  pub connection_token : ConnectionToken
  pub action_execution_id : Uuid

pub record AdapterConnection : Type 0 where
  pub connection_token : ConnectionToken
  pub hello : AdapterHello
  pub connected_at : Timestamp
  pub last_seen_at : Timestamp

abbrev pub Reply : Type 0
Reply = Result AdapterDispatchErrorKind ActionResult

pub record AdapterManager : Type 0 where
  pub connections : Map AdapterConnection
  pub pending : Map PendingRequest
  pub replies : List (Uuid × Reply)

-- `AdapterManager::default`.
abbrev pub initial : AdapterManager
initial = record { connections = []; pending = []; replies = [] }

unfoldable pub adapter_id_allowed_for_capability : String → String → Bool
adapter_id_allowed_for_capability adapter_id capability =
    if str_eq capability "browser.tab.ensure_open.v1"
    then str_eq adapter_id browser_adapter_id
    else if str_eq capability "linux.app.ensure_running.v1"
        || str_eq capability "linux.path.open.v1"
        || str_eq capability "desktop.notification.show.v1"
    then str_eq adapter_id linux_adapter_id
    else false

-- `Option::is_none_or`.
abbrev pub is_none_or : {A : Type 0} → Option A → (A → Bool) → Bool
is_none_or none p = true
is_none_or (some a) p = p a

unfoldable pub has_tool : AdapterHello → String → Bool
has_tool hello tool =
    any (λ candidate. str_eq candidate.name tool && candidate.available) hello.status.tools

unfoldable pub connection_satisfies : AdapterConnection → AdapterRequirements → Bool
connection_satisfies connection requirements =
    adapter_id_allowed_for_capability connection.hello.adapter_id requirements.capability
    && contains connection.hello.action_capabilities requirements.capability
    && is_none_or requirements.required_tool (has_tool connection.hello)
    && is_none_or requirements.desktop_entry_id (contains connection.hello.status.desktop_entry_ids)
    && is_none_or requirements.browser_resource_id (λ resource_id.
      str_eq connection.hello.adapter_id browser_adapter_id
      && any (λ candidate. candidate == resource_id) connection.hello.status.permitted_resource_ids)

abbrev pub Candidate : Type 0
Candidate = EligibleAdapter × ConnectionToken

-- The candidate that an entry of the registry gives.
abbrev pub candidate_of : Uuid × AdapterConnection → Candidate
candidate_of (instance_id, connection) = (
  record { adapter_id = connection.hello.adapter_id; instance_id = instance_id },
  connection.connection_token,
)

unfoldable pub candidates : Map AdapterConnection → AdapterRequirements → List Candidate
unfolding connection_satisfies
candidates connections requirements =
    map candidate_of (keep (λ entry. connection_satisfies entry.1 requirements) connections)

abbrev pub first_candidate : List Candidate → Result AdapterEligibilityError Candidate
first_candidate [] = err AdapterEligibilityError.ineligible
first_candidate (candidate ∷ rest) = ok candidate

-- `text_order` gives the place of a UUID among the UUIDs sorted by their text.
unfoldable pub select_from :
    (Uuid → ℕ)
    → Map AdapterConnection
    → AdapterRequirements
    → Result AdapterEligibilityError Candidate
unfolding sort_by_key
select_from text_order [] requirements = err AdapterEligibilityError.unavailable
select_from text_order (entry ∷ connections) requirements = first_candidate (
    sort_by_key (λ (c : Candidate). text_order c.0.instance_id)
      (candidates (entry ∷ connections) requirements))

unfoldable pub select_eligible :
    (Uuid → ℕ) → AdapterManager → AdapterRequirements → Result AdapterEligibilityError Candidate
select_eligible text_order manager requirements =
    select_from text_order manager.connections requirements

unfoldable pub find_eligible :
    (Uuid → ℕ)
    → AdapterManager
    → AdapterRequirements
    → Result AdapterEligibilityError EligibleAdapter
find_eligible text_order manager requirements = do
  (identity, token) ← select_eligible text_order manager requirements
  ok identity

-- The replies to the pending requests of one connection: each waiting dispatch learns that its
-- adapter is gone.
unfoldable pub fail_pending_for_token : ConnectionToken → AdapterManager → AdapterManager
fail_pending_for_token token manager = record manager {
  pending = keep (λ entry. not (entry.1.connection_token == token)) manager.pending;
  replies =
      manager.replies
      ++ map (λ entry. (entry.0, err disconnected))
          (keep (λ entry. entry.1.connection_token == token) manager.pending);
}

-- The first half of `register`: the registry takes the new connection, and the token of the one
-- that it replaces is returned. `register` goes on with `fail_pending_for_token` at that token.
unfoldable pub insert_connection :
    AdapterHello
    → ConnectionToken
    → Timestamp
    → AdapterManager
    → AdapterManager × Option ConnectionToken
insert_connection hello token now manager = (
  record manager {
    connections =
        put hello.instance_id
          (record {
            connection_token = token;
            hello = hello;
            connected_at = now;
            last_seen_at = now;
          })
          manager.connections;
  },
  elim (get hello.instance_id manager.connections) [
    | none ↦ none
    | some previous ↦ some previous.connection_token
  ],
)

unfoldable pub register :
    AdapterHello
    → ConnectionToken
    → Timestamp
    → AdapterManager
    → Result AdapterRegistrationError (ConnectionToken × AdapterManager)
unfolding insert_connection fail_pending_for_token
register hello token now manager = do
  validate_hello hello
  let (inserted, replaced) = insert_connection hello token now manager
  ok (
    token,
    elim replaced [ none ↦ inserted | some previous ↦ fail_pending_for_token previous inserted ],
  )
