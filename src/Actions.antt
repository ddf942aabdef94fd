-- ===== src/Actions.antt =====
-- The `action_…` functions of action.py, by what they act on.
pub mod Params
pub mod Steps
pub mod Routes
pub mod Programs
pub mod Controls
pub mod Server
pub mod Devices
