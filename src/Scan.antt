-- ===== src/Scan.antt =====
-- The scan of a device for its profile: src/device_sdk_py/internal/application/profilescan.py.
pub mod Locker
pub mod Wrapper
pub mod Threads
