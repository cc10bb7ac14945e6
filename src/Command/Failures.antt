-- ===== src/Command/Failures.antt =====
-- The tracker of allowed request failures (`set_failure_count` to `device_request_succeeded`), and
-- the update of the OperatingState that it asks for: `update_device_operating_state` and
-- `_patch_device_in_metadata` of src/device_sdk_py/service/device_service.py, and
-- `update_operating_state` of internal/common/utils.py, which without a client only logs.
pub mod Counting
pub mod Silent
use device_sdk_python.Base.{
  Bool, true, false, not, ◌&&◌, String, Option, none, some, List, [], ◌∷◌, ◌++◌, ◌==◌,
  if◌then◌else◌,
}
use device_sdk_python.Base.Int.{ℤ, pos, ◌-ℤ◌, ltb_ℤ, leb_ℤ, eq_ℤ}
use device_sdk_python.Base.Dict
use device_sdk_python.Base.Dict.{Dict}
use device_sdk_python.Raise.{Result, Outcome, ok, raise, edgex_error, EdgexErrorKind}
use device_sdk_python.Model.Metadata.{Device}
use device_sdk_python.Cache.Devices
use device_sdk_python.Cache.Devices.{DeviceCache}
use device_sdk_python.Command.State.{
  State, Action, Call, Outside, Service, DeviceOptions, patch, device_option, return, lift, when,
  ◌>>=◌, ◌>>◌,
}

abbrev pub operating_state_down : String
operating_state_down = "DOWN"

abbrev pub operating_state_up : String
operating_state_up = "UP"

-- `allowed_fails` and `device_down_timeout` of the configuration
abbrev pub allowed_fails : Option DeviceOptions → ℤ
allowed_fails configuration = device_option configuration (λ o. o.allowed_fails) (pos 0)

abbrev pub device_down_timeout : Option DeviceOptions → ℤ
device_down_timeout configuration = device_option configuration (λ o. o.device_down_timeout) (pos 0)

-- `_allowed_request_failures.get(device_name, 0)`
abbrev pub or_zero : Option ℤ → ℤ
or_zero none = pos 0
or_zero (some count) = count

module _ {F : Type 0} where
  unfoldable pub failure_count : State F → String → ℤ
  failure_count s device_name = or_zero (Dict.get s.failures device_name)

  unfoldable pub set_failure_count : String → ℤ → State F → State F
  set_failure_count device_name count s = record s {
    failures = Dict.put s.failures device_name count;
  }

  unfoldable pub decrease_failure_count : String → Action F ℤ
  unfolding failure_count set_failure_count ◌-ℤ◌
  decrease_failure_count device_name s =
      let count = failure_count s device_name -ℤ pos 1 in
      (ok count, set_failure_count device_name count s)

  -- the loop of `initialize_failure_tracker`
  count_all : ℤ → List (Device F) → State F → State F
  unfolding set_failure_count
  count_all count [] s = s
  count_all count (device ∷ devices) s =
      count_all count devices (set_failure_count device.name count s)

  unfoldable pub initialize_failure_tracker : Option DeviceOptions → State F → State F
  unfolding count_all
  initialize_failure_tracker configuration s =
      if leb_ℤ (allowed_fails configuration) (pos 0)
      then s
      else count_all (allowed_fails configuration) (Devices.devices s.devices) s

  -- a method of the device cache
  abbrev on_devices : (DeviceCache F → Outcome (DeviceCache F)) → Action F (Unit {0})
  on_devices method s = let (r, devices) = method s.devices in (r, record s { devices = devices })

  module _ (outside : Outside F) where
    -- `client.patch_device`, whose call is noted whether it fails or not
    call_patch : String → String → Action F Bool
    call_patch name state s = (
      ok (outside.patch_device s.calls name state),
      record s { calls = s.calls ++ patch name state ∷ [] },
    )

    -- A `MetadataError` puts the snapshot back.
    unless_patched : Device F → Bool → Action F (Unit {0})
    unfolding Devices.update
    unless_patched snapshot true = return tt
    unless_patched snapshot false = do
      on_devices (λ c. Devices.update c snapshot)
      lift (raise (edgex_error EdgexErrorKind.server_error))

    -- `_patch_device_in_metadata` for the update `operating_state`, with `bypass_validation`
    patch_found : Service → String → String → Device F → Action F (Unit {0})
    unfolding Devices.update call_patch unless_patched
    patch_found service name state device = do
      on_devices (λ c. Devices.update c (record device { operating_state = state }))
      when service.has_client (call_patch name state >>= unless_patched device)

    update_found : Service → String → String → Option (Device F) → Action F (Unit {0})
    unfolding patch_found
    update_found service name state none = lift (raise (edgex_error EdgexErrorKind.not_found))
    update_found service name state (some device) = patch_found service name state device

    -- `get_device_by_name`, and the patch of what it finds
    unfoldable pub update_device_operating_state : Service → String → String → Action F (Unit {0})
    unfolding update_found
    update_device_operating_state service name state s =
        update_found service name state (Devices.for_name s.devices name) s

    -- by the service, when it has the method; else by `update_operating_state`
    report_state : Option Service → String → String → Action F (Unit {0})
    unfolding update_device_operating_state
    report_state none name state = return tt
    report_state (some service) name state =
        when service.updates (update_device_operating_state service name state)

    -- The count is exhausted. The retry loop is only announced, by a line of the log.
    exhausted : Option Service → String → Option (Device F) → Action F (Unit {0})
    unfolding report_state
    exhausted service device_name none = return tt
    exhausted service device_name (some device) =
        when (not (device.operating_state == operating_state_down))
          (report_state service device_name operating_state_down)

    -- what follows the count: `device` is looked up only when the count is 0
    after_count : Option Service → String → ℤ → Action F (Unit {0})
    unfolding exhausted Devices.for_name
    after_count service device_name count s =
        when (eq_ℤ count (pos 0))
          (exhausted service device_name (Devices.for_name s.devices device_name)) s

    unfoldable pub device_request_failed :
        Option DeviceOptions → Option Service → String → Action F (Unit {0})
    unfolding after_count decrease_failure_count
    device_request_failed configuration service device_name =
        when (ltb_ℤ (pos 0) (allowed_fails configuration))
          (decrease_failure_count device_name >>= after_count service device_name)

    -- the count is set again, and a device that was DOWN reported as UP
    restored : ℤ → Option Service → Device F → Action F (Unit {0})
    unfolding report_state set_failure_count
    restored allowed service device s =
        when (device.operating_state == operating_state_down)
          (report_state service device.name operating_state_up)
          (set_failure_count device.name allowed s)

    -- `device` is the clone that the request was served with
    unfoldable pub device_request_succeeded :
        Option DeviceOptions → Option Service → Device F → Action F (Unit {0})
    unfolding restored failure_count
    device_request_succeeded configuration service device s =
        when
          (ltb_ℤ (pos 0) (allowed_fails configuration)
            && ltb_ℤ (failure_count s device.name) (allowed_fails configuration))
          (restored (allowed_fails configuration) service device) s
