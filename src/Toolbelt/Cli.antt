-- ===== src/Toolbelt/Cli.antt =====
-- packages/toolbelt/src/cli: a call as one short run of the command-line program.
pub mod Request
pub mod Child
pub mod Clean
pub mod Ends
pub mod Exit
