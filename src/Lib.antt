-- ===== src/Lib.antt =====
-- Fubun is a local daemon that runs rituals, short sequences of desktop actions, for its user. This
-- library models its core and proves what makes the core correct. Paths are from the repository's
-- root.
--
-- The parts and their files:
-- * Domain (crates/fubun-domain/src/lib.rs): events, resources, actions, rituals, executions and
--   their validators. Domain.Action, Domain.Ritual, Domain.Event and Domain.Resource each have the
--   `validate` of their type; Domain.WebUrl has `canonicalize_web_url`, to which the url crate is a
--   parameter. The Validity modules describe what the validators accept.
-- * Policy (crates/fubun-policy/src/lib.rs): the registry of actions.
-- * Protocol (crates/fubun-protocol/src/lib.rs): Protocol.Frame has the framing of messages, with
--   serde as a parameter, and Protocol.Message the messages between the daemon and an adapter.
-- * Adapter (crates/fubun-core/src/adapter.rs): Adapter.Hello has `validate_hello`, Adapter.Manager
--   and Adapter.Dispatch the `AdapterManager`. Each critical section of the source is one function
--   on its two maps. Adapter.Manager.Schedule runs any sequence of sections of any tasks; a section
--   is always taken whole, as its lock makes it.
-- * Storage (crates/fubun-storage/src/lib.rs): Storage.Sql has the tables, statements and
--   transactions. A statement is a function on the tables with the constraints of their
--   declarations; a list of faults says which statements fail for other reasons. Storage.Sql.Keeps
--   and Storage.Sql.Ensures have the rules of proof for such work. Storage.Rituals,
--   Storage.Executions, Storage.Events, Storage.Resources and Storage.Counts have the operations on
--   the tables, Storage.Names the texts of the columns, and Storage.Sound what holds of the tables
--   between operations. Storage.Sql.Reads has the rules for work that only
--   reads, Storage.Sql.Works those for work that succeeds where no statement fails.
-- * Core (crates/fubun-core/src/lib.rs): Core.Base has what a handler of a request is, Core.Host
--   what it takes from outside the repository. Core.Outcomes, Core.Tables, Core.Handles and
--   Core.Finds have the rules for what a handler answers and what it leaves in the tables. Core.Redact
--   has `redact_message`, Core.Engine one pass of `execute_steps`, and Core.Loop the rest of it.
--   Core.Events, Core.Resources, Core.Definition, Core.Rituals, Core.Preview, Core.Preflight, Core.Run
--   and Core.Status have the handlers, Core.Payload the requests and answers
--   (crates/fubun-protocol/src/lib.rs), Core.Requests `process_request`, Core.Socket
--   `write_json_frame`, Core.AdapterConnection `handle_adapter_connection` and Core.Connection
--   `handle_connection`. Core.Succeeds has the rules for what succeeds where no statement fails.
--   Core.Sound goes through all handlers with the invariant of Storage.Sound.
-- * NativeHost (apps/fubun-native-host/src/main.rs): the caller's origin, the framing of native
--   messages on a little-endian machine, and the two hellos.
-- * Prelude has the shared lists, texts, maps, sorting and results; Tests applies the theorems to
--   concrete inputs.
--
-- How they interact: a connection (Core.Connection) passes each request to a handler, which
-- works on the tables by the operations of Storage and checks what it stores by Domain and
-- Policy. An activation previews the actions against the files, the scopes and the registry of
-- adapters and stores approvals; a run looks for them again before it starts. Core.Loop runs the
-- actions of a ritual by Core.Engine, which writes each step by Storage.Executions and takes the
-- answer of the adapters from a parameter of the pass; the registry of adapters chooses by the
-- requirements that Adapter.Manager derives from an action. The native host greets the daemon as
-- an adapter, by a hello that Adapter.Hello checks.
--
-- Numbers: a UUID and a timestamp, in nanoseconds, are natural numbers. Where SQL or the source
-- orders their texts, the order is a parameter. A sequence number is bounded by 2 ^ 63 - 1 as in
-- the source. No function runs on fuel: every loop is over a list.
--
-- Parameters: the url crate, serde, SHA-256, the file system, the texts that thiserror derives,
-- new UUIDs, the clock, what a socket takes, the version of the package, the answers of adapters
-- and the faults of SQLite. A value that is written as a timestamp is taken to have its RFC 3339
-- text. One request sees one file system; the registry of adapters may differ from one action to
-- the next.
--
-- Not modelled: tasks, the writer thread of the storage and its queue, the writer task of an
-- adapter, the migrations, the command line, the Linux adapter, the queues, event
-- acknowledgements and allowed ids of the native host, and the extensions. Requests of several
-- connections are taken one after the other; within one, the await points between its storage
-- operations admit no other request.

pub mod Prelude
pub mod Domain
pub mod Policy
pub mod Protocol
pub mod Adapter
pub mod Storage
pub mod Core
pub mod NativeHost
pub mod Tests
