-- ===== src/Tests/Documents.antt =====
-- Documents that the validators accept, and a message of an adapter.
use fubun.Prelude.{
  ◌≤◌, ◌≡◌, ◌↔◌, refl, true, not, all, chars, String, none, some, char_count, is_control, [], ◌∷◌,
  ok, arith,
}
use fubun.Domain.Action.{desktop_notification_show, linux_path_open}
use fubun.Domain.Ritual.{
  RitualDefinition, ExecutionMode, FailureMode, validate, ritual_schema_version,
}
use fubun.Domain.Ritual.Validity.{IsValidRitual, validate-IsValidRitual}
use fubun.Domain.Event
use fubun.Domain.Event.{Actor, PrivacyClass, synthetic, synthetic_v1, event_spec_version}
use fubun.Domain.Event.Validity.{IsValidEvent, validate-IsValidEvent}
use fubun.Domain.Resource
use fubun.Domain.Resource.{ResourceKind, ResourceScope, Sensitivity}
use fubun.Domain.Resource.Validity.{IsValidResource, validate-IsValidResource}
use fubun.Domain.WebUrl.{UrlLibrary}
use fubun.Prelude.Int.{pos}
use fubun.Core.Redact.{redact_message, redact_message_bounds, redact_message_fixed}

abbrev pub definition : RitualDefinition
definition = record {
  schema_version = ritual_schema_version;
  name = "Morning";
  actions = desktop_notification_show "Hello" "Good morning" ∷ linux_path_open 7 ∷ [];
  execution = record {
    mode = ExecutionMode.sequential;
    on_failure = FailureMode.stop;
    timeout_seconds = 30;
  };
}

validate-IsValidRitual_example : (validate definition ≡ ok tt) ↔ IsValidRitual definition
validate-IsValidRitual_example = validate-IsValidRitual definition

redact_message_bounds_example :
    (char_count (redact_message "opened\n") ≤ 160)
    × (all (λ c. not (is_control c)) (chars (redact_message "opened\n")) ≡ true)
redact_message_bounds_example = redact_message_bounds "opened\n"

redact_message_fixed_example : redact_message "opened" ≡ "opened"
unfolding is_control
redact_message_fixed_example = redact_message_fixed "opened" (omega arith) refl

abbrev pub event : Event.Event
event = record {
  spec_version = event_spec_version;
  id = 9;
  event_type = synthetic_v1;
  source = "test";
  occurred_at = 100;
  received_at = 101;
  actor = Actor.user;
  adapter = record { id = "dev.test"; version = "0.1.0"; instance_id = 3; sequence_no = 1 };
  context = none;
  privacy = PrivacyClass.normal;
  payload = synthetic "a" (pos 1);
}

validate-IsValidEvent_example : (Event.validate event ≡ ok tt) ↔ IsValidEvent event
validate-IsValidEvent_example = validate-IsValidEvent event

-- A `url` crate that knows one URL.
abbrev pub url_library : UrlLibrary
url_library = record {
  Url = String;
  parse = λ text. some text;
  scheme = λ url. "https";
  username = λ url. "";
  password = λ url. none;
  host_str = λ url. some "example.org";
  port = λ url. none;
  path = λ url. "/";
  clear_query = λ url. url;
  clear_fragment = λ url. url;
  set_path = λ path url. url;
  clear_port = λ url. some url;
  to_string = λ url. url;
}

abbrev resource : Resource.Resource
resource = record {
  id = 7;
  kind = ResourceKind.web_page;
  label = "Example";
  locator = "https://example.org/";
  canonical_locator = "https://example.org/";
  sensitivity = Sensitivity.normal;
  scope = ResourceScope.exact;
  created_at = 100;
  updated_at = 100;
}

validate-IsValidResource_example :
    (Resource.validate url_library resource ≡ ok tt) ↔ IsValidResource url_library resource
validate-IsValidResource_example = validate-IsValidResource url_library resource
