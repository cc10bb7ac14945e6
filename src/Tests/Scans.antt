-- ===== src/Tests/Scans.antt =====
-- The theorem on profile scans, at the small service.
use device_sdk_python.Base.{refl, true, false, none, some, [], ◌∷◌}
use device_sdk_python.Base.Int.{ℤ}
use device_sdk_python.Raise.{type_error}
use device_sdk_python.Cache.Profiles
use device_sdk_python.Scan.Wrapper.{ProfileScanRequest, Outside, State}
use device_sdk_python.Scan.Threads.{IsExclusive, run, start, run-IsExclusive}
use device_sdk_python.Tests.{pumps}

abbrev outside : Outside ℤ
outside = record {
  profile_scan = λ calls. some pumps;
  stop_profile_scan = λ calls. true;
  error = type_error;
  device_profile_client = none;
  device_client = some (λ calls. false);
  has_message_client = true;
}

abbrev request : ProfileScanRequest ℤ
request = record { device_name = "pump"; profile_name = "pumps"; request_id = "1"; options = [] }

abbrev state : State ℤ
state = record { busy_map = []; profiles = some (Profiles.init []); calls = [] }

-- two threads scan the same device
run-IsExclusive_example :
    IsExclusive (run outside (start (request ∷ request ∷ []) state) (0 ∷ 1 ∷ 0 ∷ 1 ∷ 0 ∷ []))
run-IsExclusive_example =
    run-IsExclusive outside (request ∷ request ∷ []) state (0 ∷ 1 ∷ 0 ∷ 1 ∷ 0 ∷ []) refl
