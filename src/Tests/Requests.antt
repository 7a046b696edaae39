-- ===== src/Tests/Requests.antt =====
-- A daemon with one connected adapter, its requests and its stored ritual.
use fubun.Prelude.{ℕ, ◌≡◌, refl, String, true, List, [], ◌∷◌, none, some, ok, err, ◌⊎◌}
use fubun.Domain.Action.{ActionSpec, desktop_notification_show}
use fubun.Domain.Event.{EventType}
use fubun.Domain.Ritual.{RitualDefinition, RitualStatus}
use fubun.Protocol.Message.{AdapterEventEmitRequest, current_protocol_version}
use fubun.Storage.Sql.{Store, Db, empty_db}
use fubun.Storage.Sound.{IsSound}
use fubun.Core.Base.{Failure}
use fubun.Core.Handles.{Handles}
use fubun.Core.Host.{Host, Draw}
use fubun.Core.Payload.{RequestBody, RequestEnvelope}
use fubun.Core.Requests.{World, process_request}
use fubun.Protocol.Frame.{FrameError}
use fubun.Core.Socket.{Socket}
use fubun.Core.AdapterConnection.{AdapterLink}
use fubun.Core.Sound.Requests.{process_request-Handles}
use fubun.Core.Events.{ingest_response}
use fubun.Core.Events.Gate
use fubun.Core.Events.Ingest.{Answered, ingest_response-Answered}
use fubun.Core.Run.{ritual_run_response, ritual_activate_response}
use fubun.Core.Run.Gate as RunGate
use fubun.Core.Run.Gate.{ritual_run_response-IsPermitted}
use fubun.Core.Run.Secured.{ritual_activate_response-IsPermitted}
use fubun.Adapter.Manager.{
  AdapterManager, initial, find_eligible, select_eligible, select_from, candidates,
  connection_satisfies, adapter_id_allowed_for_capability, has_tool, from_action,
}
use fubun.Prelude.{is_control, byte_len}
use fubun.Prelude.Sort.{sort_by_key}
use fubun.Domain.Action
use fubun.Domain.Action.{validate_notification}
use fubun.Storage.Sql
use fubun.Storage.Sql.{
  query, or_not_found, pure, transaction, execute, execute_or, execute_ignoring,
}
use fubun.Storage.Executions.{require_changed}
use fubun.Storage.Executions.Statements.{commit}
use fubun.Storage.Rituals.{
  get_ritual, or_no_rows, or_invalid_json, create_approvals, insert_approvals, insert_approval,
  set_ritual_status, set_status_row,
}
use fubun.Core.Base
use fubun.Core.Base.{return, or_answer}
use fubun.Core.Resources.{reject_if}
use fubun.Core.Rituals.{load_ritual}
use fubun.Core.Preview.{build_preview, preview_actions, check_action}
use fubun.Core.Run.{approvals_for}
use fubun.Tests.Documents.{definition, event, url_library}
use fubun.Tests.Tables.{ritual, version}
use fubun.Tests.Executions.{turns}
use fubun.Tests.Adapters.{connection}

abbrev notifying : RitualDefinition
notifying = record definition { actions = desktop_notification_show "Hello" "World" ∷ [] }

abbrev host : Host
host = record {
  url = url_library;
  FilePath = String;
  path_of = λ text. text;
  lossy = λ path. path;
  exists = λ path. true;
  metadata = λ path. none;
  canonicalize = λ path. some path;
  canonical_json = λ d. some "{}";
  content_hash = λ d. some "sha256";
  definition_of = λ text. some notifying;
  url_hash = λ text. text;
  decimal = λ n. "0";
  time_text = λ time. "";
  database_path = "/home/user/.local/share/fubun/fubun.db";
  server_version = "0.1.0";
  event_error = λ e. "invalid event";
  resource_error = λ e. "invalid resource";
  ritual_error = λ e. "invalid ritual";
  policy_error = λ e. "unknown action";
  uuid_order = λ id. id;
  time_order = λ time. time;
}

abbrev draw : Draw
draw = record { uuid = λ n. n; now = 400; stored_now = 401 }

abbrev registry : ℕ → AdapterManager
registry n = record initial { connections = (1, connection 1) ∷ [] }

abbrev world : World
world = record { draw = draw; registry = registry; turns = turns; finished = 500 }

abbrev empty_store : Store
empty_store = record { db = empty_db; faults = [] }

abbrev request : RequestBody → RequestEnvelope
request body = record { protocol_version = current_protocol_version; request_id = 9; body = body }

abbrev greeting : RequestEnvelope
greeting = request (
    RequestBody.client_hello (record {
      client_name = "fubun";
      client_version = "0.1.0";
      protocol_version = current_protocol_version;
    }))

abbrev later_requests : List RequestEnvelope
later_requests =
    request (RequestBody.ritual_create notifying) ∷ request (RequestBody.event_ingest event) ∷ []

-- Every answer is printed as one byte, and the socket takes each frame.
abbrev socket : Socket
socket = record {
  serde = record { to_vec = λ response. ok (0 ∷ []); from_slice = λ bytes. err FrameError.json };
  takes = λ n. true;
}

abbrev link : AdapterLink
link = record {
  token = 10;
  messages = [];
  event_id = λ n. n;
  now = λ n. 400;
  registration_error = λ error. "invalid hello";
}

process_request-Handles_example :
    Handles
      (IsSound url_library)
      (process_request host world (request (RequestBody.ritual_create notifying)))
process_request-Handles_example =
    process_request-Handles host world (request (RequestBody.ritual_create notifying))

ingest_response-Answered_example :
    Answered 400 event empty_db (ingest_response host 400 event empty_store)
ingest_response-Answered_example = ingest_response-Answered host 400 event empty_store

abbrev emitted : AdapterEventEmitRequest
emitted = record {
  sequence_no = 1;
  occurred_at = 300;
  event_type = EventType.browser_resource_opened_v1;
  resource_id = 7;
}

abbrev stored_store : Store
stored_store = record {
  db = record empty_db { rituals = ritual ∷ []; ritual_versions = version ∷ [] };
  faults = [];
}

ritual_run_response-IsPermitted_example :
    ((ritual_run_response host draw registry turns 500 5 stored_store).1.db ≡ stored_store.db)
    ⊎ RunGate.IsPermitted host registry 5 stored_store.db
ritual_run_response-IsPermitted_example =
    ritual_run_response-IsPermitted host draw registry turns 500 5 stored_store

activation_succeeds :
    (ritual_activate_response host draw registry 5 true stored_store).0
    ≡ ok (record ritual { status = RitualStatus.active })
unfolding ritual_activate_response reject_if load_ritual get_ritual query or_not_found or_no_rows
    or_invalid_json pure build_preview preview_actions check_action return or_answer
    create_approvals insert_approvals insert_approval set_ritual_status set_status_row
    require_changed transaction execute execute_or execute_ignoring commit approvals_for Base.◌>>=◌
    Base.◌>>◌ Sql.◌>>=◌ Sql.◌>>◌ find_eligible select_eligible select_from candidates
    connection_satisfies adapter_id_allowed_for_capability has_tool from_action sort_by_key
    Action.validate validate_notification is_control byte_len
activation_succeeds = refl

ritual_activate_response-IsPermitted_example :
    RunGate.IsPermitted host registry 5
      (ritual_activate_response host draw registry 5 true stored_store).1.db
ritual_activate_response-IsPermitted_example =
    ritual_activate_response-IsPermitted host draw registry 5 true stored_store
      (record ritual { status = RitualStatus.active }) activation_succeeds
