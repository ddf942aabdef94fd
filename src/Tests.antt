-- ===== src/Tests.antt =====
-- Tests: the theorems applied to concrete services, states and requests.
pub mod Samples
pub mod Events
pub mod Routing
pub mod Replies
pub mod Runs
pub mod Texts
pub mod Polling
pub mod Messages
pub mod Timelines
pub mod Archives
pub mod Statuses
pub mod Readings
pub mod Reports
