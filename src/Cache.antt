-- ===== src/Cache.antt =====
-- The in-memory caches of src/device_sdk_py/internal/cache: devices.py, profiles.py and
-- provisionwatchers.py. Every method runs under the cache's lock, so a method is one step; a read
-- hands out a clone, which is the stored value here.
pub mod Devices
pub mod Profiles
pub mod ProvisionWatchers
