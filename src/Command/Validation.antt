-- ===== src/Command/Validation.antt =====
-- `_validate_service_and_device_state` of internal/application/command.py, which only reads the state.
pub mod States
pub mod Retry
use device_sdk_python.Base.{
  Bool, true, false, ◌&&◌, ◌||◌, String, Option, none, some, ◌==◌, if◌then◌else◌,
}
use device_sdk_python.Base.Int.{ℤ, pos, eq_ℤ}
use device_sdk_python.Base.Dict
use device_sdk_python.Raise.{
  Result, ok, raise, edgex_error, EdgexErrorKind, refuse, found_or, ◌>>=◌, ◌>>◌,
}
use device_sdk_python.Model.Metadata.{Device, admin_state_locked}
use device_sdk_python.Cache.Devices
use device_sdk_python.Command.State.{State, Service, DeviceOptions}
use device_sdk_python.Command.Failures.{allowed_fails, device_down_timeout, operating_state_down}

-- getattr(device_service, "admin_state", None) == ADMIN_STATE_LOCKED
abbrev is_locked : Option String → Bool
is_locked none = false
is_locked (some state) = state == admin_state_locked

abbrev pub service_locked : Option Service → Bool
service_locked none = false
service_locked (some service) = is_locked service.admin_state

-- device_name in _allowed_request_failures and _allowed_request_failures[device_name] == 0
abbrev pub is_zero : Option ℤ → Bool
is_zero none = false
is_zero (some count) = eq_ℤ count (pos 0)

module _ {F : Type 0} where
  -- What refuses a device that is DOWN: no retry is configured, or its failures are exhausted.
  abbrev pub no_retry : State F → Option DeviceOptions → String → Bool
  no_retry s configuration device_name =
      (eq_ℤ (allowed_fails configuration) (pos 0)
        || eq_ℤ (device_down_timeout configuration) (pos 0))
      || is_zero (Dict.get s.failures device_name)

  unfoldable pub validate_service_and_device_state :
      State F → Option DeviceOptions → Option Service → String → Result (Device F)
  unfolding found_or refuse Devices.for_name
  validate_service_and_device_state s configuration service device_name = do
    refuse (service_locked service) EdgexErrorKind.service_locked
    device ← found_or EdgexErrorKind.not_found (Devices.for_name s.devices device_name)
    refuse (device.admin_state == admin_state_locked) EdgexErrorKind.service_locked
    refuse (device.operating_state == operating_state_down && no_retry s configuration device_name)
        EdgexErrorKind.service_locked
    refuse (device.profile_name == "") EdgexErrorKind.service_locked
    ok device
