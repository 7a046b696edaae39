-- ===== src/Adapter/Dispatch.antt =====
-- The rest of `AdapterManager` (crates/fubun-core/src/adapter.rs): disconnection, shutdown, the
-- pending requests, and `execute` with the outcomes that its environment can give.
use fubun.Prelude.{
  ℕ, String, Bool, true, false, not, ◌==◌, str_eq, if◌then◌else◌, [], ◌∷◌, ◌++◌, any, keep, map,
  length, Option, none, some, Result, ok, err,
}
use fubun.Prelude.Map.{Map, get, remove, put}
use fubun.Domain.Base.{Uuid, Timestamp}
use fubun.Protocol.Message.{
  AdapterResponseBody, AdapterResponseEnvelope, action_result, status_report, event_emit,
}
use fubun.Adapter.Manager.{
  AdapterManager, AdapterConnection, PendingRequest, EligibleAdapter, ConnectionToken, Reply,
  AdapterDispatchErrorKind, AdapterEligibilityError, DispatchedActionError, DispatchedActionResult,
  fail_pending_for_token, has_tool,
}

abbrev holds_token : ConnectionToken → Option AdapterConnection → Bool
holds_token token none = false
holds_token token (some connection) = connection.connection_token == token

-- `connections.get(&instance_id).is_some_and(...)`.
unfoldable pub is_current : Map AdapterConnection → Uuid → ConnectionToken → Bool
is_current connections instance_id token = holds_token token (get instance_id connections)

abbrev touched :
    Timestamp → Uuid → Map AdapterConnection → Option AdapterConnection → Map AdapterConnection
touched now instance_id connections none = connections
touched now instance_id connections (some connection) =
    put instance_id (record connection { last_seen_at = now }) connections

unfoldable pub touch : Timestamp → Uuid → AdapterManager → AdapterManager
touch now instance_id manager = record manager {
  connections = touched now instance_id manager.connections (get instance_id manager.connections);
}

-- The first half of `disconnect_if_current`; the second is `fail_pending_for_token` at the token.
unfoldable pub remove_if_current : Uuid → ConnectionToken → AdapterManager → AdapterManager × Bool
unfolding is_current
remove_if_current instance_id token manager =
    if is_current manager.connections instance_id token
    then (record manager { connections = remove instance_id manager.connections }, true)
    else (manager, false)

unfoldable pub disconnect_if_current : Uuid → ConnectionToken → AdapterManager → AdapterManager
unfolding remove_if_current fail_pending_for_token
disconnect_if_current instance_id token manager =
    let (after, removed) = remove_if_current instance_id token manager in
    if removed then fail_pending_for_token token after else after

-- The first half of `shutdown`.
unfoldable pub clear_connections : AdapterManager → AdapterManager
clear_connections manager = record manager { connections = [] }

-- The second half of `shutdown`.
unfoldable pub drain_pending : AdapterManager → AdapterManager
drain_pending manager = record manager {
  pending = [];
  replies =
      manager.replies
      ++ map (λ entry. (entry.0, err AdapterDispatchErrorKind.disconnected)) manager.pending;
}

unfoldable pub shutdown : AdapterManager → AdapterManager
unfolding clear_connections drain_pending
shutdown manager = drain_pending (clear_connections manager)

-- The request is registered only while the socket that was selected is still the current one.
unfoldable pub insert_pending_if_current :
    EligibleAdapter
    → ConnectionToken
    → Uuid
    → PendingRequest
    → AdapterManager
    → Option AdapterManager
unfolding is_current
insert_pending_if_current identity token request_id request manager =
    if is_current manager.connections identity.instance_id token
    then some (record manager { pending = put request_id request manager.pending })
    else none

abbrev touched_by : Timestamp → AdapterManager → Option PendingRequest → AdapterManager
touched_by now manager none = manager
touched_by now manager (some request) = touch now request.identity.instance_id manager

unfoldable pub touch_by_request : Timestamp → Uuid → AdapterManager → AdapterManager
unfolding touch
touch_by_request now request_id manager = touched_by now manager (get request_id manager.pending)

unfoldable pub body_result : AdapterResponseBody → Reply
body_result (action_result result) = ok result
body_result (status_report snapshot) = err AdapterDispatchErrorKind.protocol
body_result (event_emit event) = err AdapterDispatchErrorKind.protocol

-- The reply that a response gives to the request that it names.
unfoldable pub reply_to : PendingRequest → AdapterResponseEnvelope → Reply
unfolding body_result
reply_to request response =
    if not (request.action_execution_id == response.action_execution_id)
    then err AdapterDispatchErrorKind.protocol
    else body_result response.body

abbrev answered : AdapterResponseEnvelope → AdapterManager → Option PendingRequest → AdapterManager
answered response manager none = manager
answered response manager (some request) = record manager {
  pending = remove response.request_id manager.pending;
  replies = manager.replies ++ (response.request_id, reply_to request response) ∷ [];
}

unfoldable pub take_pending : AdapterResponseEnvelope → AdapterManager → AdapterManager
unfolding reply_to
take_pending response manager = answered response manager (get response.request_id manager.pending)

unfoldable pub resolve : Timestamp → AdapterResponseEnvelope → AdapterManager → AdapterManager
unfolding touch_by_request take_pending
resolve now response manager =
    take_pending response (touch_by_request now response.request_id manager)

-- `PendingRequestGuard::drop` while armed.
unfoldable pub drop_guard : Uuid → AdapterManager → AdapterManager
drop_guard request_id manager = record manager { pending = remove request_id manager.pending }

unfoldable pub connected_count : AdapterManager → ℕ
connected_count manager = length manager.connections

unfoldable pub connected_count_by_id : String → AdapterManager → ℕ
connected_count_by_id adapter_id manager =
    length (keep (λ entry. str_eq entry.1.hello.adapter_id adapter_id) manager.connections)

unfoldable pub tool_available : String → AdapterManager → Bool
unfolding has_tool
tool_available tool manager = any (λ entry. has_tool entry.1.hello tool) manager.connections

-- What the environment of one dispatch does once an adapter is selected: the registry may have
-- changed (`meanwhile`), the socket may refuse the request, and then a reply comes, the reply
-- channel is dropped, or the time runs out.
pub data Waiting : Type 0 where
  send_failed reply_dropped elapsed : Waiting
  replied : Reply → Waiting

unfoldable pub eligibility_kind : AdapterEligibilityError → AdapterDispatchErrorKind
eligibility_kind AdapterEligibilityError.unavailable = AdapterDispatchErrorKind.unavailable
eligibility_kind AdapterEligibilityError.ineligible =
    AdapterDispatchErrorKind.capability_unavailable

-- The result of a dispatch to `identity`, for what its wait ended with.
unfoldable pub conclude :
    EligibleAdapter → Waiting → Result DispatchedActionError DispatchedActionResult
conclude identity send_failed =
    err (record { identity = some identity; kind = AdapterDispatchErrorKind.disconnected })
conclude identity (replied (ok result)) = ok (record { identity = identity; result = result })
conclude identity (replied (err kind)) = err (record { identity = some identity; kind = kind })
conclude identity reply_dropped =
    err (record { identity = some identity; kind = AdapterDispatchErrorKind.disconnected })
conclude identity elapsed =
    err (record { identity = some identity; kind = AdapterDispatchErrorKind.timeout })
