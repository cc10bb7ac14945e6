-- ===== src/Service.antt =====
-- The device service: src/device_sdk_py/service/device_service.py, as far as it keeps the caches and
-- Core Metadata together.
pub mod State
pub mod Metadata
pub mod Entities
pub mod AutoEvents
pub mod Through
pub mod Slot
pub mod Slots
pub mod Restores
pub mod DeviceOperations
pub mod ProfileOperations
pub mod WatcherOperations
pub mod Transactions
pub mod SystemEvents
pub mod Discovered
