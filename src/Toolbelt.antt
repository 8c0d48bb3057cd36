-- ===== src/Toolbelt.antt =====
-- packages/toolbelt: the client of the daemon, from the wire up to the session and the durable plan.
pub mod Framing
pub mod Transport
pub mod Guards
pub mod Retry
pub mod Client
pub mod Plan
pub mod Descriptor
pub mod Ipc
pub mod Watch
pub mod Heartbeat
pub mod Session
pub mod Cli
