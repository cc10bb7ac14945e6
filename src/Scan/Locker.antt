-- ===== src/Scan/Locker.antt =====
-- `ProfileScanLocker` of internal/application/profilescan.py. Each method holds the mutex, so it is one
-- step; the locker is its `_busy_map`.
use device_sdk_python.Base.{Bool, true, false, String, Option, none, some, if◌then◌else◌}
use device_sdk_python.Base.Dict
use device_sdk_python.Base.Dict.{Dict}

-- `self._busy_map.get(device_name, False)`
abbrev pub or_false : Option Bool → Bool
or_false none = false
or_false (some busy) = busy

unfoldable pub is_busy : Dict Bool → String → Bool
is_busy busy_map device_name = or_false (Dict.get busy_map device_name)

-- whether the lock was acquired, and the map after that
unfoldable pub acquire : Dict Bool → String → Bool × Dict Bool
unfolding is_busy
acquire busy_map device_name =
    if is_busy busy_map device_name
    then (false, busy_map)
    else (true, Dict.put busy_map device_name true)

unfoldable pub release : Dict Bool → String → Dict Bool
release busy_map device_name = Dict.put busy_map device_name false
