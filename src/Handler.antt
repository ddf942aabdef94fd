-- ===== src/Handler.antt =====
-- handler.py: the HTTP handlers of the runner.
pub mod Requests
pub mod Guards
pub mod Transitions
pub mod Proceeding
pub mod Replies
pub mod Start
pub mod Setup
pub mod Initialise
pub mod Proxied
pub mod Control
pub mod Reading
pub mod Statuses
