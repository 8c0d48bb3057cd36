-- ===== src/Toolbelt/Ipc.antt =====
-- packages/toolbelt/src/ipc/client.ts: concurrent calls over one socket, matched to their responses
-- by an id.
pub mod Ids
pub mod Table
pub mod Handle
pub mod Steps
pub mod Open
pub mod Answers
pub mod Outage
