-- ===== src/Tests/Commands.antt =====
-- The theorems on commands, at the small service.
use device_sdk_python.Base.{
  ℕ, ◌≡◌, ◌↔◌, refl, true, false, String, Option, none, some, [], ◌∷◌, ◌==◌, if◌then◌else◌,
}
use device_sdk_python.Base.Int.{ℤ, pos, negsuc}
use device_sdk_python.Base.Dict
use device_sdk_python.Base.Dict.{Dict}
use device_sdk_python.Raise.{Returns, ok, raise, edgex_error, EdgexErrorKind, value_error}
use device_sdk_python.Model.Value.{Value}
use device_sdk_python.Model.Metadata.{Device}
use device_sdk_python.Cache.Devices
use device_sdk_python.Cache.Devices.{DeviceCache}
use device_sdk_python.Cache.Profiles
use device_sdk_python.Cache.Profiles.{DeviceProfileCache, Pattern}
use device_sdk_python.Command.State.{read, write, State, Outside, Service, DeviceOptions}
use device_sdk_python.Command.DriverCalls.{AtMostOnce, Called}
use device_sdk_python.Command.Failures.{failure_count, device_request_failed}
use device_sdk_python.Command.Failures.Counting.{fail_times, Untouched, fail_times-Untouched}
use device_sdk_python.Command.Validation.{validate_service_and_device_state}
use device_sdk_python.Command.Validation.States.{Serves, validate_iff}
use device_sdk_python.Command.Validation.Retry.{refused_then_let_through}
use device_sdk_python.Command.Parse.{Codecs, create_command_value_from_device_resource}
use device_sdk_python.Command.Parse.InRange.{WritesTo, create-WritesTo}
use device_sdk_python.Command.Frame.DriverUse.{LetThrough}
use device_sdk_python.Command.Helpers.{read_request}
use device_sdk_python.Command.Read.{command_read}
use device_sdk_python.Command.Read.Reached.{command_read-Called}
use device_sdk_python.Command.Read.Calls.{MayRead, command_read-AtMostOnce}
use device_sdk_python.Model.CommandValue.{CommandValue, validate}
use device_sdk_python.Command.Parameters.{resource_parameters}
use device_sdk_python.Command.Write.{command_write}
use device_sdk_python.Command.Write.Reached.{command_write-Called}
use device_sdk_python.Command.Write.Calls.{MayWrite, command_write-AtMostOnce}
use device_sdk_python.Command.Pump.{retry_down_devices, retry_down_devices-same}
use device_sdk_python.Tests.{whole, pump, level, pumps, seven}

abbrev outside : Outside ℤ
outside = record {
  handle_read = λ calls name protocols reqs. ok (some (some seven ∷ []));
  handle_write = λ calls name protocols reqs params. ok tt;
  patch_device = λ calls name state. true;
}

abbrev codecs : Codecs ℤ
codecs = record {
  json_loads = λ s. raise value_error;
  int_of = λ s. if s == "7" then ok (pos 7) else raise value_error;
  b64decode = λ s. raise value_error;
  unpack_float32 = λ bytes. none;
  unpack_float64 = λ bytes. none;
  is_blank = λ s. s == "";
  comma_items = λ s. s ∷ [];
  characters = λ s. s ∷ [];
}

-- three failures are allowed, and a device that is DOWN is tried again
abbrev configuration : Option DeviceOptions
configuration = some (record {
  allowed_fails = some (pos 3);
  device_down_timeout = some (pos 10);
  max_cmd_ops = some (pos 8);
  data_transform = none;
  reading_units = none;
})

abbrev service : Option Service
service = some (record { admin_state = some "UNLOCKED"; updates = true; has_client = true })

abbrev state : State ℤ
state = record { devices = Devices.init (pump ∷ []); failures = ("pump", pos 3) ∷ []; calls = [] }

abbrev stopped : Device ℤ
stopped = record pump { operating_state = "DOWN" }

abbrev stopped_state : State ℤ
stopped_state = record {
  devices = Devices.init (stopped ∷ []);
  failures = ("pump", pos 0) ∷ [];
  calls = [];
}

abbrev profiles : DeviceProfileCache ℤ
profiles = Profiles.init (pumps ∷ [])

abbrev id : ℕ → String
id k = "id"

abbrev requests : Dict (Value ℤ)
requests = ("level", Value.str "7") ∷ []

command_write-AtMostOnce_example :
    AtMostOnce
      (LetThrough
        (pos 20)
        outside
        configuration
        service
        state
        "pump"
        (MayWrite whole codecs id (pos 10) (pos 20) outside profiles configuration service))
      state
      (command_write whole codecs id
        (pos 10)
        (pos 20)
        outside
        profiles
        configuration
        service
        "pump"
        "level"
        ""
        requests
        state).1
command_write-AtMostOnce_example =
    command_write-AtMostOnce whole codecs id (pos 10) (pos 20) outside profiles configuration
      service "pump" "level" "" requests state

command_read-AtMostOnce_example :
    AtMostOnce
      (LetThrough (pos 20) outside configuration service state "pump" (
        MayRead whole id
          (pos 10)
          (pos 20)
          outside
          profiles
          configuration
          service
          (λ s. none)
          false
          "level"
          ""))
      state
      (command_read whole id
        (pos 10)
        (pos 20)
        outside
        profiles
        configuration
        service
        (λ s. none)
        "pump"
        "level"
        ""
        false
        state).1
command_read-AtMostOnce_example =
    command_read-AtMostOnce whole id (pos 10) (pos 20) outside profiles configuration service
      (λ s. none) "pump" "level" "" false state

create-WritesTo_example :
    Returns
      (WritesTo whole level)
      (create_command_value_from_device_resource whole codecs level (Value.str "7"))
create-WritesTo_example = create-WritesTo whole codecs level (Value.str "7")

validate_iff_example :
    (validate_service_and_device_state state configuration service "pump" ≡ ok pump)
    ↔ Serves state configuration service "pump" pump
validate_iff_example = validate_iff state configuration service "pump" pump

fail_times-Untouched_example :
    Untouched outside configuration service "pump" 0 state
      (fail_times outside configuration service "pump" 2 state)
unfolding failure_count Dict.get
fail_times-Untouched_example =
    fail_times-Untouched outside configuration service "pump" 2 0 state refl refl

refused_then_let_through_example :
    (validate_service_and_device_state stopped_state configuration service "pump"
      ≡ raise (edgex_error EdgexErrorKind.service_locked))
    × (Dict.get
          (device_request_failed outside configuration service "pump" stopped_state).1.failures
          "pump"
        ≡ some (negsuc 0))
    × (validate_service_and_device_state
          (device_request_failed outside configuration service "pump" stopped_state).1
          configuration
          service
          "pump"
        ≡ ok stopped)
unfolding Devices.for_name Devices.init Dict.get Dict.put
refused_then_let_through_example =
    refused_then_let_through outside stopped_state configuration service "pump" stopped
      (record {
        tracked = refl;
        retried = refl;
        opened = refl;
        found = refl;
        unlocked = refl;
        down = refl;
        profiled = refl;
      })
      refl

command_read-Called_example :
    Called
      (read "pump" [] (read_request "" level ∷ []))
      state
      (command_read whole id
        (pos 10)
        (pos 20)
        outside
        profiles
        configuration
        service
        (λ s. none)
        "pump"
        "level"
        ""
        false
        state).1
unfolding validate_service_and_device_state Profiles.device_command Profiles.device_resource
    Dict.get Devices.init Dict.put Profiles.init Profiles.device_command_slice_to_map
    Profiles.device_resource_slice_to_map
command_read-Called_example =
    command_read-Called whole id (pos 10) (pos 20) outside profiles configuration service
      (λ s. none) "pump" "level" "" state pump level refl refl refl refl refl refl

-- 7 is written to a resource with an offset of 2
abbrev five : CommandValue ℤ
five = record seven { value = Value.int (pos 5) }

command_write-Called_example :
    Called
      (write "pump" [] (read_request "" level ∷ []) (five ∷ []))
      state
      (command_write whole codecs id
        (pos 10)
        (pos 20)
        outside
        profiles
        configuration
        service
        "pump"
        "level"
        ""
        requests
        state).1
unfolding validate_service_and_device_state Profiles.device_command resource_parameters Dict.get
    Devices.init Dict.put Profiles.init Profiles.device_command_slice_to_map
    Profiles.device_resource_slice_to_map validate
command_write-Called_example =
    command_write-Called whole codecs id (pos 10) (pos 20) outside profiles configuration service
      "pump" "level" "" requests state pump level (read_request "" level ∷ []) (five ∷ []) refl refl
      refl refl refl

retry_down_devices-same_example :
    retry_down_devices whole id
      (pos 10)
      (pos 20)
      outside
      profiles
      configuration
      service
      (λ s. none)
      stopped_state
    ≡ stopped_state
retry_down_devices-same_example =
    retry_down_devices-same whole id (pos 10) (pos 20) outside profiles configuration service
      (λ s. none) stopped_state
