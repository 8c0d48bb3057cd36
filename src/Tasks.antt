-- ===== src/Tasks.antt =====
-- packages/registry/src/handlers/task-projection.ts, task-action.ts and the task handlers: the
-- shared plan as nodes and edges.
pub mod Node
pub mod Edges
pub mod Action
pub mod Handlers
