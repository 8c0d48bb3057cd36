-- ===== src/Tests.antt =====
-- Runs at single inputs, and the theorems applied at them.
mod Replies
mod Handlers
mod Plans
mod Calls
mod Lives
mod Contexts
mod Searches
mod Children
mod Dispatches
mod Wire
mod Sessions
mod Watches
