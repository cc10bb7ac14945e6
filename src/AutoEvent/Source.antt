-- ===== src/AutoEvent/Source.antt =====
-- What an executor reads: `_build_requests` and `_read` of internal/autoevent/manager.py.
pub mod Asked
use device_sdk_python.Base.{
  ℕ, Bool, true, false, String, Option, none, some, List, [], ◌∷◌, if◌then◌else◌,
}
use device_sdk_python.Base.Int.{ℤ}
use device_sdk_python.Raise.{Result, ok, raise}
use device_sdk_python.Floats.{Floats}
use device_sdk_python.Model.Metadata.{Device, DeviceResource, DeviceCommand, ResourceOperation}
use device_sdk_python.Model.CommandValue.{CommandValue}
use device_sdk_python.Cache.Devices
use device_sdk_python.Cache.Profiles
use device_sdk_python.Cache.Profiles.{DeviceProfileCache}
use device_sdk_python.Command.State.{State, Action, CommandRequest, Outside}
use device_sdk_python.Command.Helpers.{handle_read_commands}
use device_sdk_python.AutoEvent.Executor.{Executor, Values, AsyncValues, execute_once}

module _ {F : Type 0} where
  -- CommandRequest(...)
  abbrev pub request_of : DeviceResource F → CommandRequest F
  request_of resource = record {
    resource_name = resource.name;
    attributes = resource.attributes;
    value_type = resource.properties.value_type;
    options = [];
  }

  -- a resource that is not found is passed over
  with_resource : Option (DeviceResource F) → List (CommandRequest F) → List (CommandRequest F)
  with_resource none rest = rest
  with_resource (some resource) rest = request_of resource ∷ rest

  operation_requests :
      DeviceProfileCache F → String → List (ResourceOperation F) → List (CommandRequest F)
  unfolding with_resource
  operation_requests profiles profile_name [] = []
  operation_requests profiles profile_name (operation ∷ operations) =
      with_resource (Profiles.device_resource profiles profile_name operation.device_resource)
        (operation_requests profiles profile_name operations)

  -- `requests or None`
  or_none : List (CommandRequest F) → Option (List (CommandRequest F))
  or_none [] = none
  or_none (request ∷ requests) = some (request ∷ requests)

  resource_request : Option (DeviceResource F) → Option (List (CommandRequest F))
  resource_request none = none
  resource_request (some resource) = some (request_of resource ∷ [])

  requests_of :
      DeviceProfileCache F
      → String
      → String
      → Option (DeviceCommand F)
      → Option (List (CommandRequest F))
  unfolding operation_requests or_none resource_request
  requests_of profiles profile_name source_name (some command) =
      or_none (operation_requests profiles profile_name command.resource_operations)
  requests_of profiles profile_name source_name none =
      resource_request (Profiles.device_resource profiles profile_name source_name)

  unfoldable pub build_requests :
      DeviceProfileCache F → Device F → String → Option (List (CommandRequest F))
  unfolding requests_of
  build_requests profiles device source_name =
      requests_of profiles device.profile_name source_name
        (Profiles.device_command profiles device.profile_name source_name)

  -- `except Exception`, which is only logged
  or_nothing : {A : Type 0} → Result A × State F → Result (Option A) × State F
  or_nothing (ok a, s) = (ok (some a), s)
  or_nothing (raise x, s) = (ok none, s)

  read_requests :
      Outside F
      → Device F
      → Option (List (CommandRequest F))
      → Action F (Option (List (Option (CommandValue F))))
  unfolding or_nothing handle_read_commands
  read_requests outside device none s = (ok none, s)
  read_requests outside device (some requests) s =
      or_nothing (handle_read_commands outside device requests s)

  read_found :
      Outside F
      → DeviceProfileCache F
      → String
      → Option (Device F)
      → Action F (Option (List (Option (CommandValue F))))
  unfolding read_requests build_requests
  read_found outside profiles source_name none s = (ok none, s)
  read_found outside profiles source_name (some device) s =
      read_requests outside device (build_requests profiles device source_name) s

  -- `_read`; without a driver there is nothing outside
  unfoldable pub read :
      Option (Outside F)
      → DeviceProfileCache F
      → String
      → String
      → Action F (Option (List (Option (CommandValue F))))
  unfolding read_found
  read none profiles device_name source_name s = (ok none, s)
  read (some outside) profiles device_name source_name s =
      read_found outside profiles source_name (Devices.for_name s.devices device_name) s
