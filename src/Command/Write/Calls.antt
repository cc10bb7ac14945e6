-- ===== src/Command/Write/Calls.antt =====
-- When `command_write` calls the driver, and with what.
use device_sdk_python.Base.{
  ℕ, ◌≡◌, refl, Bool, true, false, String, Option, none, some, List, [], ◌∷◌, map, ◌==◌,
  if◌then◌else◌,
}
use device_sdk_python.Base.Int.{ℤ}
use device_sdk_python.Base.Dict.{Dict}
use device_sdk_python.Raise.{Result, ok, raise, Returns}
use device_sdk_python.Floats.{Floats}
use device_sdk_python.Model.Value.{Value}
use device_sdk_python.Model.Metadata.{Device, DeviceResource, DeviceCommand}
use device_sdk_python.Model.CommandValue.{CommandValue}
use device_sdk_python.Cache.Profiles
use device_sdk_python.Cache.Profiles.{DeviceProfileCache}
use device_sdk_python.Command.State.{
  State, Call, CommandRequest, Outside, Service, DeviceOptions, write, lift, return, ◌>>=◌,
}
use device_sdk_python.Command.DriverCalls.{
  driver_calls-append, Quiet, Quiet-refl, AtMostOnce, never, once, continue-AtMostOnce,
}
use device_sdk_python.Command.Frame.DriverUse.{LetThrough, command_frame-AtMostOnce}
use device_sdk_python.Command.Helpers.{read_write_w, handle_write_commands, to_event}
use device_sdk_python.Command.Parse.{Codecs}
use device_sdk_python.Command.Parameters.{Prepared, resource_parameters, command_parameters}
use device_sdk_python.Command.Parameters.Sound.{
  AllMatch, resource_parameters-AllMatch, command_parameters-AllMatch,
}
use device_sdk_python.Command.Write
use device_sdk_python.Command.Write.{command_write, write_device_command, write_device_resource}

module _ (fl : Floats) (codecs : Codecs fl.Float) (uuid : ℕ → String) (origin now : ℤ)
    (outside : Outside fl.Float) (profiles : DeviceProfileCache fl.Float)
    (configuration : Option DeviceOptions) (service : Option Service) where
  open fl use {Float}

  -- A write to the device, of values that match their requests and are sound.
  abbrev pub MayWrite : Device Float → Call Float → Type 0
  MayWrite device call =
      (reqs : List (CommandRequest Float)) × (cvs : List (CommandValue Float)) × (call
        ≡ write device.name device.protocols reqs cvs)
      × AllMatch fl (reqs, cvs)

  handle-AtMostOnce :
      (device : Device Float) (reqs : List (CommandRequest Float)) (cvs : List (CommandValue Float))
      (s : State Float)
      → AllMatch fl (reqs, cvs)
      → AtMostOnce (MayWrite device) s (handle_write_commands outside device reqs cvs s).1
  unfolding handle_write_commands
  handle-AtMostOnce device reqs cvs s h =
      once (write device.name device.protocols reqs cvs) (reqs, cvs, refl, h)
        (driver_calls-append s.calls (write device.name device.protocols reqs cvs ∷ []))

  pub published-Quiet :
      (write_only : Bool) (results : List (Option (CommandValue Float))) (device : Device Float)
      (source_name : String) (s : State Float)
      → Quiet s
          ((if write_only
              then return none
              else to_event fl uuid origin profiles configuration results device source_name)
            s).1
  unfolding to_event
  published-Quiet true results device source_name s = Quiet-refl
  published-Quiet false results device source_name s = record { same = refl }

  performed :
      (device : Device Float) (source_name read_write : String) (prepared : Prepared Float)
      (s : State Float)
      → AllMatch fl prepared
      → AtMostOnce
          (MayWrite device)
          s
          (Write.perform_write fl codecs uuid origin now outside profiles configuration service
            device source_name read_write prepared s).1
  unfolding Write.perform_write
  performed device source_name read_write (reqs, cvs) s h =
      continue-AtMostOnce (handle_write_commands outside device reqs cvs s) _
        (handle-AtMostOnce device reqs cvs s h)
        (λ _. published-Quiet (read_write == read_write_w) (map some cvs) device source_name)

  resource-AtMostOnce :
      (device : Device Float) (name : String) (r : Result (DeviceResource Float × Prepared Float))
      (s : State Float)
      → Returns (λ p. AllMatch fl p.1) r
      → AtMostOnce
          (MayWrite device)
          s
          ((lift r >>= λ p.
              Write.perform_write fl codecs uuid origin now outside profiles configuration service
                device name p.0.properties.read_write p.1)
            s).1
  resource-AtMostOnce device name (raise e) s h = never Quiet-refl
  resource-AtMostOnce device name (ok (dr, prepared)) s h =
      performed device name dr.properties.read_write prepared s (h.at (dr, prepared) refl)

  command-AtMostOnce :
      (device : Device Float) (name : String) (r : Result (DeviceCommand Float × Prepared Float))
      (s : State Float)
      → Returns (λ p. AllMatch fl p.1) r
      → AtMostOnce
          (MayWrite device)
          s
          ((lift r >>= λ p.
              Write.perform_write fl codecs uuid origin now outside profiles configuration service
                device name p.0.read_write p.1)
            s).1
  command-AtMostOnce device name (raise e) s h = never Quiet-refl
  command-AtMostOnce device name (ok (dc, prepared)) s h =
      performed device name dc.read_write prepared s (h.at (dc, prepared) refl)

  write_by-AtMostOnce :
      (device : Device Float) (command_name attributes : String) (requests : Dict (Value Float))
      (found : Option (DeviceCommand Float)) (s : State Float)
      → AtMostOnce
          (MayWrite device)
          s
          (Write.write_by fl codecs uuid origin now outside profiles configuration service device
            command_name attributes requests found s).1
  unfolding Write.write_by write_device_command write_device_resource
  write_by-AtMostOnce device name attributes requests (some _) s =
      command-AtMostOnce device name
        (command_parameters fl codecs profiles configuration device name attributes requests) s
        (command_parameters-AllMatch fl codecs profiles configuration device name attributes
          requests)
  write_by-AtMostOnce device name attributes requests none s =
      resource-AtMostOnce device name
        (resource_parameters fl codecs profiles configuration device name attributes requests) s
        (resource_parameters-AllMatch fl codecs profiles configuration device name attributes
          requests)

  -- In any state, and whatever the driver and Core Metadata answer, `command_write` calls the driver
  -- at most once, and only when the device is let through. The call has one value for each request,
  -- of the same name and type, and every value of an integer type that is not null is an integer in
  -- the range of its type, after the transformation too.
  pub command_write-AtMostOnce :
      (device_name command_name attributes : String) (requests : Dict (Value Float))
      (s : State Float)
      → AtMostOnce
          (LetThrough now outside configuration service s device_name MayWrite)
          s
          (command_write fl codecs uuid origin now outside profiles configuration service
            device_name command_name attributes requests s).1
  unfolding command_write
  command_write-AtMostOnce device_name command_name attributes requests s =
      command_frame-AtMostOnce now outside configuration service MayWrite device_name command_name _
        s
        (λ device.
          write_by-AtMostOnce device command_name attributes requests
            (Profiles.device_command profiles device.profile_name command_name) s)
