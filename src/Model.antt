-- ===== src/Model.antt =====
-- The data of the service: what src/device_sdk_py/internal/cache/providers.py and
-- models/command_value.py declare.
pub mod ValueType
pub mod Value
pub mod Metadata
pub mod CommandValue
