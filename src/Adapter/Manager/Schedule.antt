-- ===== src/Adapter/Manager/Schedule.antt =====
-- The tasks of the daemon share one `AdapterManager` and interleave between its critical sections.
-- `draining` holds the tokens of connections that have left the registry and whose pending requests
-- the same task is still to fail.
use fubun.Prelude.{
  ◌≡◌, refl, ◌⊎◌, inl, inr, true, not, ◌==◌, List, [], ◌∷◌, ◌++◌, All, map, keep, Option, none,
  some, arith, Bool-cases, Option-cases, if◌then◌else◌, All-imp, All-keep,
}
use fubun.Prelude.Map.{Map, get, get-put, get-remove, All-remove, All-put}
use fubun.Prelude.Sort.{Elem}
use fubun.Domain.Base.{Uuid, Timestamp}
use fubun.Protocol.Message.{AdapterHello, AdapterResponseEnvelope}
use fubun.Adapter.Manager.{
  AdapterManager, AdapterConnection, PendingRequest, EligibleAdapter, ConnectionToken, initial,
  insert_connection, fail_pending_for_token,
}
use fubun.Adapter.Dispatch.{
  is_current, touch, remove_if_current, clear_connections, drain_pending, insert_pending_if_current,
  touch_by_request, take_pending, drop_guard,
}

pub record Shared : Type 0 where
  pub manager : AdapterManager
  pub draining : List ConnectionToken

-- One critical section of one task.
pub data Section : Type 0 where
  inserts_connection : AdapterHello → ConnectionToken → Timestamp → Section
  removes_connection : Uuid → ConnectionToken → Section
  fails_pending : ConnectionToken → Section
  inserts_pending : EligibleAdapter → ConnectionToken → Uuid → Uuid → Section
  clears_connections drains_pending : Section
  touches : Timestamp → Uuid → Section
  touches_by_request : Timestamp → Uuid → Section
  takes_pending : AdapterResponseEnvelope → Section
  drops_guard : Uuid → Section

abbrev also : Option ConnectionToken → List ConnectionToken → List ConnectionToken
also none tokens = tokens
also (some token) tokens = token ∷ tokens

unfoldable pub enter : Section → Shared → Shared
enter (inserts_connection hello token now) s =
    let (after, replaced) = insert_connection hello token now s.manager in
    record { manager = after; draining = also replaced s.draining }
enter (removes_connection instance_id token) s =
    let (after, removed) = remove_if_current instance_id token s.manager in
    record { manager = after; draining = if removed then token ∷ s.draining else s.draining }
enter (fails_pending token) s = record {
  manager = fail_pending_for_token token s.manager;
  draining = keep (λ other. not (other == token)) s.draining;
}
enter clears_connections s = record {
  manager = clear_connections s.manager;
  draining = map (λ entry. entry.1.connection_token) s.manager.connections ++ s.draining;
}
enter drains_pending s = record { manager = drain_pending s.manager; draining = [] }
enter (inserts_pending identity token request_id action_execution_id) s =
    elim (insert_pending_if_current identity token request_id
      (record {
        identity = identity;
        connection_token = token;
        action_execution_id = action_execution_id;
      })
      s.manager) [ none ↦ s | some after ↦ record s { manager = after } ]
enter (touches now instance_id) s = record s { manager = touch now instance_id s.manager }
enter (touches_by_request now request_id) s = record s {
  manager = touch_by_request now request_id s.manager;
}
enter (takes_pending response) s = record s { manager = take_pending response s.manager }
enter (drops_guard request_id) s = record s { manager = drop_guard request_id s.manager }

unfoldable pub run : List Section → Shared → Shared
unfolding enter
run [] s = s
run (section ∷ sections) s = run sections (enter section s)

abbrev pub start : Shared
start = record { manager = initial; draining = [] }

-- The request waits on the current socket of its adapter instance, or its socket is being drained.
abbrev pub IsWatched : Map AdapterConnection → List ConnectionToken → Uuid × PendingRequest → Type 0
IsWatched connections draining entry =
    (is_current connections entry.1.identity.instance_id entry.1.connection_token ≡ true)
    ⊎ Elem entry.1.connection_token draining

abbrev pub AllWatched : Shared → Type 0
AllWatched s = All (IsWatched s.manager.connections s.draining) s.manager.pending

Elem-append : (t : ConnectionToken) (xs ys : List ConnectionToken) → Elem t ys → Elem t (xs ++ ys)
Elem-append t [] ys e = e
Elem-append t (x ∷ xs) ys e = inr (Elem-append t xs ys e)

Elem-keep_ne :
    (t u : ConnectionToken) (xs : List ConnectionToken)
    → Elem t xs
    → not (t == u) ≡ true
    → Elem t (keep (λ other. not (other == u)) xs)
Elem-keep_ne t u [] e h = absurd e
Elem-keep_ne t u (x ∷ xs) (inl e) h = ground arith
Elem-keep_ne t u (x ∷ xs) (inr e) h = ground (arith, Elem-keep_ne t u xs e h)

inserts_connection-AllWatched :
    (hello : AdapterHello) (token : ConnectionToken) (now : Timestamp) (s : Shared)
    → AllWatched s
    → AllWatched (enter (inserts_connection hello token now) s)
unfolding enter insert_connection is_current
inserts_connection-AllWatched hello token now s = All-imp _ _ s.manager.pending λ p w. ground (
  arith,
  get-put hello.instance_id p.1.identity.instance_id
      (record { connection_token = token; hello = hello; connected_at = now; last_seen_at = now })
      s.manager.connections,
)

removes_connection-AllWatched :
    (instance_id : Uuid) (token : ConnectionToken) (s : Shared)
    → AllWatched s
    → AllWatched (enter (removes_connection instance_id token) s)
unfolding enter remove_if_current is_current
removes_connection-AllWatched instance_id token s w =
    elim (Bool-cases (is_current s.manager.connections instance_id token)) [
      | inl current ↦
          rw (current, is_current)
            (All-imp _ _ s.manager.pending
              (λ p v.
                ground
                  (arith, get-remove instance_id p.1.identity.instance_id s.manager.connections))
              w)
      | inr stale ↦ rw (stale, is_current) w
    ]

fails_pending-AllWatched :
    (token : ConnectionToken) (s : Shared)
    → AllWatched s
    → AllWatched (enter (fails_pending token) s)
unfolding enter fail_pending_for_token
fails_pending-AllWatched token s w =
    All-imp _ _ _
      (λ p v. elim v.0 [
        | inl current ↦ inl current
        | inr draining ↦ inr (Elem-keep_ne p.1.connection_token token s.draining draining v.1)
      ])
      (All-keep _ _ s.manager.pending w)

inserts_pending-AllWatched :
    (identity : EligibleAdapter) (token : ConnectionToken) (request_id execution_id : Uuid)
    (s : Shared)
    → AllWatched s
    → AllWatched (enter (inserts_pending identity token request_id execution_id) s)
unfolding enter insert_pending_if_current
inserts_pending-AllWatched identity token request_id execution_id s w =
    elim (Bool-cases (is_current s.manager.connections identity.instance_id token)) [
      | inl current ↦
          rw (current, enter, insert_pending_if_current)
            (All-put _ request_id _ s.manager.pending (inl current) w)
      | inr stale ↦ rw (stale, enter, insert_pending_if_current) w
    ]

is_current-touch :
    (now : Timestamp) (instance_id other : Uuid) (token : ConnectionToken) (m : AdapterManager)
    → is_current (touch now instance_id m).connections other token
      ≡ is_current m.connections other token
unfolding touch is_current
is_current-touch now instance_id other token m =
    elim (Option-cases (get instance_id m.connections)) [
      | inl e ↦ rw (e, touch)
      | inr (c, e) ↦
          rw (e, touch)
            (ground
              (arith, get-put instance_id other (record c { last_seen_at = now }) m.connections))
    ]

touches-AllWatched :
    (now : Timestamp) (instance_id : Uuid) (s : Shared)
    → AllWatched s
    → AllWatched (enter (touches now instance_id) s)
unfolding enter
touches-AllWatched now instance_id s w =
    let same : (touch now instance_id s.manager).pending ≡ s.manager.pending =
      unfold touch in refl in
    rw same (
      All-imp _ _ s.manager.pending
        (λ p v.
          rw
            (is_current-touch now instance_id p.1.identity.instance_id p.1.connection_token
              s.manager)
            v)
        w)

touches_by_request-AllWatched :
    (now : Timestamp) (request_id : Uuid) (s : Shared)
    → AllWatched s
    → AllWatched (enter (touches_by_request now request_id) s)
unfolding enter touch_by_request
touches_by_request-AllWatched now request_id s w =
    elim (Option-cases (get request_id s.manager.pending)) [
      | inl e ↦ rw (e, touch_by_request) w
      | inr (p, e) ↦ rw (e, touch_by_request) (touches-AllWatched now p.identity.instance_id s w)
    ]

takes_pending-AllWatched :
    (response : AdapterResponseEnvelope) (s : Shared)
    → AllWatched s
    → AllWatched (enter (takes_pending response) s)
unfolding enter take_pending
takes_pending-AllWatched response s w =
    elim (Option-cases (get response.request_id s.manager.pending)) [
      | inl e ↦ rw (e, take_pending) w
      | inr (p, e) ↦ rw (e, take_pending) (All-remove _ response.request_id s.manager.pending w)
    ]

get-Elem_token :
    (instance_id : Uuid) (token : ConnectionToken) (connections : Map AdapterConnection)
    → is_current connections instance_id token ≡ true
    → Elem token (map (λ entry. entry.1.connection_token) connections)
unfolding is_current get
get-Elem_token instance_id token [] h = ground arith
get-Elem_token instance_id token ((j, c) ∷ connections) h =
    ground (arith, get-Elem_token instance_id token connections)

Elem-append_left :
    (t : ConnectionToken) (xs ys : List ConnectionToken) → Elem t xs → Elem t (xs ++ ys)
Elem-append_left t [] ys e = absurd e
Elem-append_left t (x ∷ xs) ys (inl e) = inl e
Elem-append_left t (x ∷ xs) ys (inr e) = inr (Elem-append_left t xs ys e)

clears_connections-AllWatched :
    (s : Shared) → AllWatched s → AllWatched (enter clears_connections s)
unfolding enter clear_connections
clears_connections-AllWatched s = All-imp _ _ s.manager.pending λ p v. elim v [
  | inl current ↦ inr (
      Elem-append_left p.1.connection_token _ s.draining (
        get-Elem_token p.1.identity.instance_id p.1.connection_token s.manager.connections current))
  | inr draining ↦ inr (Elem-append p.1.connection_token _ s.draining draining)
]

enter-AllWatched : (section : Section) (s : Shared) → AllWatched s → AllWatched (enter section s)
enter-AllWatched (inserts_connection hello token now) s w =
    inserts_connection-AllWatched hello token now s w
enter-AllWatched (removes_connection instance_id token) s w =
    removes_connection-AllWatched instance_id token s w
enter-AllWatched (fails_pending token) s w = fails_pending-AllWatched token s w
enter-AllWatched (inserts_pending identity token request_id execution_id) s w =
    inserts_pending-AllWatched identity token request_id execution_id s w
enter-AllWatched clears_connections s w = clears_connections-AllWatched s w
enter-AllWatched drains_pending s w = unfold enter drain_pending in tt
enter-AllWatched (touches now instance_id) s w = touches-AllWatched now instance_id s w
enter-AllWatched (touches_by_request now request_id) s w =
    touches_by_request-AllWatched now request_id s w
enter-AllWatched (takes_pending response) s w = takes_pending-AllWatched response s w
enter-AllWatched (drops_guard request_id) s w =
    unfold enter drop_guard in All-remove _ request_id s.manager.pending w

run-AllWatched : (sections : List Section) (s : Shared) → AllWatched s → AllWatched (run sections s)
unfolding run
run-AllWatched [] s w = w
run-AllWatched (section ∷ sections) s w =
    run-AllWatched sections (enter section s) (enter-AllWatched section s w)

-- However the tasks of the daemon interleave from its start, each pending request waits on the
-- current socket of its adapter instance, unless that socket was replaced or closed and the task
-- that did so is still to fail its requests.
pub run-start-AllWatched : (sections : List Section) → AllWatched (run sections start)
run-start-AllWatched sections = run-AllWatched sections start tt
