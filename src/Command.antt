-- ===== src/Command.antt =====
-- The application logic behind the device endpoints: src/device_sdk_py/internal/application/command.py.
pub mod State
pub mod DriverCalls
pub mod Failures
pub mod Validation
pub mod Parse
pub mod Helpers
pub mod Requests
pub mod Parameters
pub mod Frame
pub mod Read
pub mod Write
pub mod Pump
