-- ===== src/Toolbelt/Session.antt =====
-- packages/toolbelt/src/session.ts, correlation.ts and resume.ts: one registration of a runtime with
-- the daemon, from its start to its close, and its revival after a restart.
pub mod Params
pub mod Steps
pub mod Frugal
pub mod Once
pub mod Registrations
pub mod Closing
pub mod Failed
pub mod Ending
pub mod Correlation
pub mod Resume
pub mod Beats
pub mod Survives
