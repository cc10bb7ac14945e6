-- ===== src/Command/Write/Reached.antt =====
-- When the write of a resource reaches the driver.
use device_sdk_python.Base.{ℕ, ◌≡◌, false, String, Option, none, some, List, [], ◌∷◌, map, ◌==◌}
use device_sdk_python.Base.Int.{ℤ}
use device_sdk_python.Base.Dict.{Dict}
use device_sdk_python.Raise.{Result, ok}
use device_sdk_python.Floats.{Floats}
use device_sdk_python.Model.Value.{Value}
use device_sdk_python.Model.Metadata.{Device, DeviceResource}
use device_sdk_python.Model.CommandValue.{CommandValue}
use device_sdk_python.Cache.Profiles
use device_sdk_python.Cache.Profiles.{DeviceProfileCache}
use device_sdk_python.Command.State.{
  State, CommandRequest, Outside, Service, DeviceOptions, write, lift, ◌>>=◌,
}
use device_sdk_python.Command.DriverCalls.{driver_calls-append, Called, continue-Called}
use device_sdk_python.Command.Validation.{validate_service_and_device_state}
use device_sdk_python.Command.Frame.DriverUse.{command_frame-Called}
use device_sdk_python.Command.Helpers.{read_write_w, handle_write_commands}
use device_sdk_python.Command.Parse.{Codecs}
use device_sdk_python.Command.Parameters.{Prepared, resource_parameters}
use device_sdk_python.Command.Write
use device_sdk_python.Command.Write.{command_write, write_device_resource}
use device_sdk_python.Command.Write.Calls.{published-Quiet}

module _ (fl : Floats) (codecs : Codecs fl.Float) (uuid : ℕ → String) (origin now : ℤ)
    (outside : Outside fl.Float) (profiles : DeviceProfileCache fl.Float)
    (configuration : Option DeviceOptions) (service : Option Service) where
  open fl use {Float}

  handle-Called :
      (device : Device Float) (reqs : List (CommandRequest Float)) (cvs : List (CommandValue Float))
      (s : State Float)
      → Called
          (write device.name device.protocols reqs cvs)
          s
          (handle_write_commands outside device reqs cvs s).1
  unfolding handle_write_commands
  handle-Called device reqs cvs s = record {
    made = driver_calls-append s.calls (write device.name device.protocols reqs cvs ∷ []);
  }

  perform_write-Called :
      (device : Device Float) (source_name read_write : String) (reqs : List (CommandRequest Float))
      (cvs : List (CommandValue Float)) (s : State Float)
      → Called
          (write device.name device.protocols reqs cvs)
          s
          (Write.perform_write fl codecs uuid origin now outside profiles configuration service
            device source_name read_write
            (reqs, cvs)
            s).1
  unfolding Write.perform_write
  perform_write-Called device source_name read_write reqs cvs s =
      continue-Called (handle_write_commands outside device reqs cvs s) _
        (handle-Called device reqs cvs s)
        (λ _.
          published-Quiet fl codecs uuid origin now outside profiles configuration service
            (read_write == read_write_w) (map some cvs) device source_name)

  resource-Called :
      (device : Device Float) (name : String) (dr : DeviceResource Float)
      (reqs : List (CommandRequest Float)) (cvs : List (CommandValue Float)) (s : State Float)
      (r : Result (DeviceResource Float × Prepared Float))
      → r ≡ ok (dr, (reqs, cvs))
      → Called
          (write device.name device.protocols reqs cvs)
          s
          ((lift r >>= λ p.
              Write.perform_write fl codecs uuid origin now outside profiles configuration service
                device name p.0.properties.read_write p.1)
            s).1
  resource-Called device name dr reqs cvs s r e =
      rw e (perform_write-Called device name dr.properties.read_write reqs cvs s)

  -- When neither name is empty, the device is let through, its profile has no command of the name,
  -- and the checks, the coercion and the transformation give requests and values for the resource of
  -- the name, then `command_write` calls the driver exactly once: for the device, with its protocols,
  -- and with those requests and values.
  pub command_write-Called :
      (device_name name attributes : String) (requests : Dict (Value Float)) (s : State Float)
      (device : Device Float) (dr : DeviceResource Float) (reqs : List (CommandRequest Float))
      (cvs : List (CommandValue Float))
      → (device_name == "") ≡ false
      → (name == "") ≡ false
      → validate_service_and_device_state s configuration service device_name ≡ ok device
      → Profiles.device_command profiles device.profile_name name ≡ none
      → resource_parameters fl codecs profiles configuration device name attributes requests
        ≡ ok (dr, (reqs, cvs))
      → Called
          (write device.name device.protocols reqs cvs)
          s
          (command_write fl codecs uuid origin now outside profiles configuration service
            device_name name attributes requests s).1
  unfolding command_write Write.write_by write_device_resource
  command_write-Called device_name name attributes requests s device dr reqs cvs named commanded
        valid no_command prepared =
      command_frame-Called now outside configuration service
        (write device.name device.protocols reqs cvs) device_name name _ s device named commanded
        valid
        (rw no_command (
          resource-Called device name dr reqs cvs s
            (resource_parameters fl codecs profiles configuration device name attributes requests)
            prepared))
