-- ===== src/Lib.antt =====
-- mx-loom: the adaptation layer between an agent runtime and the mx-agent daemon.
--
-- A tool call of a runtime goes to a handler of packages/registry/src/handlers. The handler sends
-- one or a few requests through the client of packages/toolbelt/src, which retries them, fails over
-- from the socket to the command line, and frames them on the wire. The handler turns the reply, or
-- the rejection, into the one result envelope.
--
-- Common: the library names, the Boolean tests and the lists that the parts share.
-- Text, Text/Token: strings as lists of UTF-16 code units, and the token that a daemon spelling is
--   looked up by (`normaliseDaemonCode` of packages/registry/src/errors.ts and its copies).
-- Json, Json/Number, Table: the values of the wire with their total readers, the finite doubles as
--   whole multiples of the smallest one, and the read of an object literal that is used as a
--   dictionary, which sees `Object.prototype` too.
-- Errors: packages/registry/src/errors.ts. Envelope: envelope.ts and envelope-schema.ts.
-- Invocation: handlers/invocation.ts, the readers in State and Failure.
-- Daemon: handlers/deps.ts. The daemon, the clock and the key generator are functions of the
--   history, a list of all that the handler did so far, the latest first.
-- Fault: handlers/handler-fault.ts. AwaitResult: handlers/await-result.ts.
-- Cancel: handlers/cancel.ts. RunCommand: handlers/run-command.ts.
-- Delegate: handlers/delegate-tool.ts, with projectTools of agent-projection.ts in Tools.
-- Dispatch: handlers/dispatch-task.ts.
-- Discovery: handlers/find-agents.ts and describe-agent.ts, with agent-projection.ts in Rows.
--   Workspace is workspace-status.ts and workspace-projection.ts.
-- Context: handlers/share-context.ts, get-context.ts and context-response.ts.
-- Tasks: Node and Edges are handlers/task-projection.ts, Action is handlers/task-action.ts, and
--   Handlers is create-task.ts, update-task.ts and list-tasks.ts.
-- Toolbelt: Transport is packages/toolbelt/src/ipc/errors.ts and the outcome of a call, Framing is
--   ipc/framing.ts, Guards guards.ts, Retry retry.ts, Client client.ts, Plan plan-snapshot.ts,
--   Descriptor session-descriptor.ts, Watch task-watch.ts and Heartbeat heartbeat.ts. Ipc is
--   ipc/client.ts: Ids its ids, Table its state and the table of pending calls, Handle its callbacks,
--   and Steps the handling of one event. Session is correlation.ts and session.ts (Params what it
--   sends and reads, Steps its life) and resume.ts (Resume). Cli is cli/method-map.ts and
--   cli/env.ts (Request) and cli/client.ts (Child).
-- Tests: runs at single inputs, and the theorems applied at them.
--
-- A promise that settles is a value; awaiting is sequencing, and one call of a handler or of the
-- client is not interleaved with another. A watcher, a heartbeat, a session, a child process and the
-- socket's client are stepped by events in any order, among them the settling of the call that is
-- pending.
--
-- The poll loop of AwaitResult, the retry loop and the decoder's loop run on fuel. More rounds than
-- the budget in milliseconds suffice for the first, since each round sleeps; more than the policy's
-- attempts for the second; and the length of the buffer and one more for the third, since each round
-- takes a header off.
--
-- Not modelled: the rounding of doubles in the backoff, fractions in `wait_ms`, debug lines and
-- callbacks, the freezing of values, timers, the sockets and child processes below the
-- transports, the registry of tools, auditing, and the bindings for the single runtimes.
mod Common
pub mod Text
pub mod Json
pub mod Table
pub mod Errors
pub mod Envelope
pub mod Invocation
pub mod Daemon
pub mod Fault
pub mod AwaitResult
pub mod Cancel
pub mod Tasks
pub mod RunCommand
pub mod Delegate
pub mod Dispatch
pub mod Discovery
pub mod Context
pub mod Toolbelt
mod Tests
