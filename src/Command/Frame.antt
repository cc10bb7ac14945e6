-- ===== src/Command/Frame.antt =====
-- The frame of `command_read` and `command_write` of internal/application/command.py: the checks of
-- the names, the `try` with its `except EdgexError`, and what follows a success. The work on the device
-- is an argument. `now` is the clock of `set_last_connected_by_name`.
pub mod DriverUse
use device_sdk_python.Base.{Bool, true, false, String, Option, ◌==◌, if◌then◌else◌}
use device_sdk_python.Base.Int.{ℤ}
use device_sdk_python.Raise.{Result, Exn, ok, raise, edgex_error, EdgexErrorKind}
use device_sdk_python.Model.Metadata.{Device}
use device_sdk_python.Cache.Devices
use device_sdk_python.Command.State.{
  State, Action, Outside, Service, DeviceOptions, continue, lift, return, ◌>>=◌, ◌>>◌,
}
use device_sdk_python.Command.Failures.{device_request_failed, device_request_succeeded}
use device_sdk_python.Command.Validation.{validate_service_and_device_state}

module _ {F : Type 0} (now : ℤ) (outside : Outside F) (configuration : Option DeviceOptions)
    (service : Option Service) where
  -- `except EdgexError`: the failure is recorded, and the error raised again.
  unfoldable pub recorded : {A : Type 0} → String → Result A × State F → Result A × State F
  unfolding device_request_failed
  recorded device_name (ok a, s) = (ok a, s)
  recorded device_name (raise (Exn.edgex_error kind), s) =
      (device_request_failed outside configuration service device_name
          >> lift (raise (edgex_error kind)))
        s
  recorded device_name (raise e, s) = (raise e, s)

  -- What follows the `try`: the success is recorded.
  unfoldable pub served : {A : Type 0} → String → Device F × A → Action F A
  unfolding device_request_succeeded Devices.set_last_connected_by_name
  served device_name (device, a) = do
    device_request_succeeded outside configuration service device
    λ s. (ok a, record s { devices = Devices.set_last_connected_by_name s.devices device_name now })

  -- The work on a device that was let through.
  unfoldable pub let_through :
      {A : Type 0} → (Device F → Action F A) → Result (Device F) → Action F (Device F × A)
  let_through work (raise e) = lift (raise e)
  let_through work (ok device) = work device >>= λ a s. (ok (device, a), s)

  -- The body of the `try`.
  unfoldable pub validated :
      {A : Type 0} → String → (Device F → Action F A) → Action F (Device F × A)
  unfolding validate_service_and_device_state let_through
  validated device_name work s =
      let_through work (validate_service_and_device_state s configuration service device_name) s

  -- The frame that `command_read` and `command_write` share.
  unfoldable pub command_frame :
      {A : Type 0} → String → String → (Device F → Action F A) → Action F A
  unfolding recorded served validated
  command_frame device_name command_name work s =
      if device_name == ""
      then (raise (edgex_error EdgexErrorKind.contract_invalid), s)
      else if command_name == ""
      then (raise (edgex_error EdgexErrorKind.contract_invalid), s)
      else continue (recorded device_name (validated device_name work s)) (served device_name)
