-- ===== src/Callback.antt =====
-- The callbacks for the system events of Core Metadata: internal/application/callback.py.
pub mod State
pub mod Keeps
pub mod Ensures
pub mod Handlers
