-- ===== src/Tests/Adapters.antt =====
-- Two connected adapters, and the tasks of the daemon at work on them.
use fubun.Prelude.{◌↔◌, ok, ◌≡◌, true, List, [], ◌∷◌, inl, inr, none, some, ap, arith}
use fubun.Prelude.Map.{Map}
use fubun.Prelude.Sort.{Elem}
use fubun.Domain.Base.{Uuid}
use fubun.Domain.Action.{desktop_notification_show}
use fubun.Policy.Registry.{Agrees, registry-Agrees}
use fubun.Protocol.Message.{AdapterHello}
use fubun.Adapter.Hello.{validate_hello}
use fubun.Adapter.Hello.Validity.{IsValidHello, validate_hello-IsValidHello}
use fubun.Adapter.Manager.{AdapterConnection, AdapterRequirements, EligibleAdapter, select_from}
use fubun.Adapter.Manager.Selection.{
  Selects, HasUniqueKeys, select_from-Selects, select_from_unordered,
}
use fubun.Adapter.Manager.Schedule.{
  Section, start, run, inserts_connection, inserts_pending, AllWatched, run-start-AllWatched,
}

registry-Agrees_example : Agrees (desktop_notification_show "a" "b")
registry-Agrees_example = registry-Agrees (desktop_notification_show "a" "b")

abbrev pub hello : Uuid → AdapterHello
hello instance_id = record {
  adapter_id = "dev.fubun.linux";
  adapter_version = "0.1.0";
  instance_id = instance_id;
  action_capabilities = "desktop.notification.show.v1" ∷ [];
  event_capabilities = [];
  status = record {
    tools = record { name = "notify-send"; available = true } ∷ [];
    desktop_entry_ids = [];
    permitted_resource_ids = [];
  };
}

validate_hello-IsValidHello_example : (validate_hello (hello 1) ≡ ok tt) ↔ IsValidHello (hello 1)
validate_hello-IsValidHello_example = validate_hello-IsValidHello (hello 1)

abbrev pub connection : Uuid → AdapterConnection
connection instance_id = record {
  connection_token = instance_id;
  hello = hello instance_id;
  connected_at = 0;
  last_seen_at = 0;
}

abbrev one_way : Map AdapterConnection
one_way = (1, connection 1) ∷ (2, connection 2) ∷ []

abbrev other_way : Map AdapterConnection
other_way = (2, connection 2) ∷ (1, connection 1) ∷ []

abbrev requirements : AdapterRequirements
requirements = record {
  capability = "desktop.notification.show.v1";
  required_tool = some "notify-send";
  desktop_entry_id = none;
  browser_resource_id = none;
}

select_from-Selects_example :
    Selects (λ id. id) requirements one_way (select_from (λ id. id) one_way requirements)
select_from-Selects_example = select_from-Selects (λ id. id) requirements one_way

swapped : (entry : Uuid × AdapterConnection) → Elem entry one_way → Elem entry other_way
swapped entry (inl e) = inr (inl e)
swapped entry (inr (inl e)) = inl e
swapped entry (inr (inr e)) = absurd e

swapped_back : (entry : Uuid × AdapterConnection) → Elem entry other_way → Elem entry one_way
swapped_back entry (inl e) = inr (inl e)
swapped_back entry (inr (inl e)) = inl e
swapped_back entry (inr (inr e)) = absurd e

one_of_each : (a b : Uuid × AdapterConnection) → Elem a one_way → Elem b one_way → a.0 ≡ b.0 → a ≡ b
one_of_each a b (inl e) (inl f) k = cc
one_of_each a b (inl e) (inr (inl f)) k =
    absurd (omega (arith, ap (λ x. x.0) e, ap (λ x. x.0) f, k))
one_of_each a b (inl e) (inr (inr f)) k = absurd f
one_of_each a b (inr (inl e)) (inl f) k =
    absurd (omega (arith, ap (λ x. x.0) e, ap (λ x. x.0) f, k))
one_of_each a b (inr (inl e)) (inr (inl f)) k = cc
one_of_each a b (inr (inl e)) (inr (inr f)) k = absurd f
one_of_each a b (inr (inr e)) f k = absurd e

one_way_unique : HasUniqueKeys one_way
one_way_unique = record { unique = one_of_each }

select_from_unordered_example :
    select_from (λ id. id) one_way requirements ≡ select_from (λ id. id) other_way requirements
select_from_unordered_example =
    select_from_unordered (λ id. id) (λ a b e. e) requirements one_way other_way
      (record { same = λ entry. (swapped entry, swapped_back entry) }) one_way_unique

abbrev identity : EligibleAdapter
identity = record { adapter_id = "dev.fubun.linux"; instance_id = 1 }

-- A request waits on a socket that a second hello of the same instance replaces.
abbrev replacing : List Section
replacing =
    inserts_connection (hello 1) 10 0
    ∷ inserts_pending identity 10 100 200
    ∷ inserts_connection (hello 1) 11 1
    ∷ []

run-start-AllWatched_example : AllWatched (run replacing start)
run-start-AllWatched_example = run-start-AllWatched replacing
