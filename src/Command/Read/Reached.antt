-- ===== src/Command/Read/Reached.antt =====
-- When the read of a resource reaches the driver.
use device_sdk_python.Base.{ℕ, ◌≡◌, refl, false, String, Option, none, some, List, [], ◌∷◌, ◌==◌}
use device_sdk_python.Base.Int.{ℤ}
use device_sdk_python.Raise.{Result, ok, refuse, found_or}
use device_sdk_python.Floats.{Floats}
use device_sdk_python.Model.Metadata.{Device, DeviceResource}
use device_sdk_python.Cache.Profiles
use device_sdk_python.Cache.Profiles.{DeviceProfileCache, Pattern}
use device_sdk_python.Command.State.{
  State, CommandRequest, Outside, Service, DeviceOptions, read, lift, ◌>>=◌,
}
use device_sdk_python.Command.DriverCalls.{driver_calls-append, Called, continue-Called}
use device_sdk_python.Command.Validation.{validate_service_and_device_state}
use device_sdk_python.Command.Frame.DriverUse.{command_frame-Called}
use device_sdk_python.Command.Helpers.{handle_read_commands, to_event, read_request}
use device_sdk_python.Command.Requests.{is_write_only, resource_requests}
use device_sdk_python.Command.Read
use device_sdk_python.Command.Read.{command_read, read_device_resource}

module _ (fl : Floats) (uuid : ℕ → String) (origin now : ℤ) (outside : Outside fl.Float)
    (profiles : DeviceProfileCache fl.Float) (configuration : Option DeviceOptions)
    (service : Option Service) where
  open fl use {Float}

  requested :
      (device : Device Float) (name attributes : String) (dr : DeviceResource Float)
      → Profiles.device_resource profiles device.profile_name name ≡ some dr
      → is_write_only dr ≡ false
      → resource_requests profiles device name attributes
        ≡ ok (read_request attributes dr ∷ [], dr.name)
  unfolding resource_requests found_or refuse
  requested device name attributes dr found readable = simp (found, readable)

  handle-Called :
      (device : Device Float) (reqs : List (CommandRequest Float)) (s : State Float)
      → Called
          (read device.name device.protocols reqs)
          s
          (handle_read_commands outside device reqs s).1
  unfolding handle_read_commands
  handle-Called device reqs s = record {
    made = driver_calls-append s.calls (read device.name device.protocols reqs ∷ []);
  }

  perform_read-Called :
      (device : Device Float) (reqs : List (CommandRequest Float)) (source_name : String)
      (s : State Float)
      → Called
          (read device.name device.protocols reqs)
          s
          (Read.perform_read fl uuid origin now outside profiles configuration service device
            (reqs, source_name)
            s).1
  unfolding Read.perform_read to_event
  perform_read-Called device reqs source_name s =
      continue-Called (handle_read_commands outside device reqs s) _ (handle-Called device reqs s)
        (λ results s₁. record { same = refl })

  resource-Called :
      (device : Device Float) (name attributes : String) (dr : DeviceResource Float)
      (s : State Float) (r : Result (List (CommandRequest Float) × String))
      → r ≡ ok (read_request attributes dr ∷ [], dr.name)
      → Called
          (read device.name device.protocols (read_request attributes dr ∷ []))
          s
          ((lift r
              >>= Read.perform_read fl uuid origin now outside profiles configuration service
                  device)
            s).1
  resource-Called device name attributes dr s r e =
      rw e (perform_read-Called device (read_request attributes dr ∷ []) dr.name s)

  -- When neither name is empty, the device is let through, and its profile has no command but a
  -- resource of the name that is not write-only, `command_read` without a pattern calls the driver
  -- exactly once: for the device, with its protocols, and with the request of that resource.
  pub command_read-Called :
      (compile : String → Option Pattern) (device_name name attributes : String) (s : State Float)
      (device : Device Float) (dr : DeviceResource Float)
      → (device_name == "") ≡ false
      → (name == "") ≡ false
      → validate_service_and_device_state s configuration service device_name ≡ ok device
      → Profiles.device_command profiles device.profile_name name ≡ none
      → Profiles.device_resource profiles device.profile_name name ≡ some dr
      → is_write_only dr ≡ false
      → Called
          (read device.name device.protocols (read_request attributes dr ∷ []))
          s
          (command_read fl uuid origin now outside profiles configuration service compile
            device_name name attributes false s).1
  unfolding command_read Read.read_by read_device_resource
  command_read-Called compile device_name name attributes s device dr named commanded valid
        no_command found readable =
      command_frame-Called now outside configuration service
        (read device.name device.protocols (read_request attributes dr ∷ [])) device_name name _ s
        device named commanded valid
        (rw no_command (
          resource-Called device name attributes dr s
            (resource_requests profiles device name attributes)
            (requested device name attributes dr found readable)))
