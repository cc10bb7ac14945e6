-- ===== src/Command/Read/Calls.antt =====
-- When `command_read` calls the driver, and with what.
use device_sdk_python.Base.{
  ℕ, ◌≡◌, refl, Bool, true, false, String, Option, none, some, List, [], ◌∷◌,
}
use device_sdk_python.Base.Int.{ℤ}
use device_sdk_python.Raise.{Result, ok, raise, Returns}
use device_sdk_python.Floats.{Floats}
use device_sdk_python.Model.Metadata.{Device, DeviceCommand}
use device_sdk_python.Model.CommandValue.{CommandValue}
use device_sdk_python.Cache.Profiles
use device_sdk_python.Cache.Profiles.{DeviceProfileCache, Pattern}
use device_sdk_python.Command.State.{
  State, Call, CommandRequest, Outside, Service, DeviceOptions, read, lift, ◌>>=◌,
}
use device_sdk_python.Command.DriverCalls.{
  driver_calls-append, Quiet, Quiet-refl, AtMostOnce, never, once, AtMostOnce-map,
  continue-AtMostOnce,
}
use device_sdk_python.Command.Frame.DriverUse.{LetThrough, command_frame-AtMostOnce}
use device_sdk_python.Command.Helpers.{handle_read_commands, to_event}
use device_sdk_python.Command.Requests.Readable.{
  IsResourceRead, IsRegexRead, IsCommandRead, resource_requests-IsResourceRead,
  regex_requests-IsRegexRead, command_requests-IsCommandRead,
}
use device_sdk_python.Command.Read
use device_sdk_python.Command.Read.{
  command_read, read_device_command, read_device_resources_regex, read_device_resource,
}

module _ (fl : Floats) (uuid : ℕ → String) (origin now : ℤ) (outside : Outside fl.Float)
    (profiles : DeviceProfileCache fl.Float) (configuration : Option DeviceOptions)
    (service : Option Service) where
  open fl use {Float}

  -- What is read of a device: a command, if its profile has one of the name; else the resources that
  -- match the name as a pattern, if that is asked for; else the resource of the name.
  pub data Asks (compile : String → Option Pattern) (regex_cmd : Bool) (name attributes : String)
      (device : Device Float) (reqs : List (CommandRequest Float)) : Type 0 where
    command :
        IsCommandRead profiles configuration device name attributes reqs
        → Asks compile regex_cmd name attributes device reqs
    regex :
        Profiles.device_command profiles device.profile_name name ≡ none
        → regex_cmd ≡ true
        → IsRegexRead compile profiles device name attributes reqs
        → Asks compile regex_cmd name attributes device reqs
    resource :
        Profiles.device_command profiles device.profile_name name ≡ none
        → regex_cmd ≡ false
        → IsResourceRead profiles device name attributes reqs
        → Asks compile regex_cmd name attributes device reqs

  -- A read of the device, with its protocols and with the requests for what is read.
  abbrev pub MayRead :
      (String → Option Pattern) → Bool → String → String → Device Float → Call Float → Type 0
  MayRead compile regex_cmd name attributes device call =
      (reqs : List (CommandRequest Float)) × (call ≡ read device.name device.protocols reqs)
      × Asks compile regex_cmd name attributes device reqs

  handle-AtMostOnce :
      (device : Device Float) (reqs : List (CommandRequest Float)) (s : State Float)
      → AtMostOnce
          (λ call. call ≡ read device.name device.protocols reqs)
          s
          (handle_read_commands outside device reqs s).1
  unfolding handle_read_commands
  handle-AtMostOnce device reqs s =
      once (read device.name device.protocols reqs) refl
        (driver_calls-append s.calls (read device.name device.protocols reqs ∷ []))

  to_event-Quiet :
      (results : List (Option (CommandValue Float))) (device : Device Float) (source_name : String)
      (s : State Float)
      → Quiet s (to_event fl uuid origin profiles configuration results device source_name s).1
  unfolding to_event
  to_event-Quiet results device source_name s = record { same = refl }

  performed :
      (P : List (CommandRequest Float) → Type 0) (device : Device Float)
      (r : Result (List (CommandRequest Float) × String)) (s : State Float)
      → Returns (λ p. P p.0) r
      → AtMostOnce
          (λ call.
            (reqs : List (CommandRequest Float)) × (call ≡ read device.name device.protocols reqs)
            × P reqs)
          s
          ((lift r
              >>= Read.perform_read fl uuid origin now outside profiles configuration service
                  device)
            s).1
  unfolding Read.perform_read
  performed P device (raise e) s h = never Quiet-refl
  performed P device (ok (reqs, source_name)) s h =
      AtMostOnce-map (λ call is. (reqs, is, h.at (reqs, source_name) refl))
        (continue-AtMostOnce (handle_read_commands outside device reqs s) _
          (handle-AtMostOnce device reqs s) (λ results. to_event-Quiet results device source_name))

  read_by-AtMostOnce :
      (compile : String → Option Pattern) (regex_cmd : Bool) (device : Device Float)
      (command_name attributes : String) (found : Option (DeviceCommand Float)) (s : State Float)
      → Profiles.device_command profiles device.profile_name command_name ≡ found
      → AtMostOnce
          (MayRead compile regex_cmd command_name attributes device)
          s
          (Read.read_by fl uuid origin now outside profiles configuration service compile regex_cmd
            device command_name attributes found s).1
  unfolding Read.read_by read_device_command read_device_resources_regex read_device_resource
  read_by-AtMostOnce compile regex_cmd device name attributes (some _) s e =
      AtMostOnce-map (λ call (reqs, is, h). (reqs, is, Asks.command h))
        (performed (IsCommandRead profiles configuration device name attributes) device _ s
          (command_requests-IsCommandRead profiles configuration device name attributes))
  read_by-AtMostOnce compile true device name attributes none s e =
      AtMostOnce-map (λ call (reqs, is, h). (reqs, is, Asks.regex e refl h))
        (performed (IsRegexRead compile profiles device name attributes) device _ s
          (regex_requests-IsRegexRead compile profiles device name attributes))
  read_by-AtMostOnce compile false device name attributes none s e =
      AtMostOnce-map (λ call (reqs, is, h). (reqs, is, Asks.resource e refl h))
        (performed (IsResourceRead profiles device name attributes) device _ s
          (resource_requests-IsResourceRead profiles device name attributes))

  -- In any state, and whatever the driver and Core Metadata answer, `command_read` calls the driver
  -- at most once, and only when the device is let through. If its profile has a command of the name,
  -- that is not write-only and has no more operations than `max_cmd_ops` allows, if that is set, and
  -- the requests are those of the resources of its operations, in order. If it has none, a read by a
  -- pattern requests all resources that match and are not write-only, at least one; and another read
  -- requests the one resource that the profile has under the name, which is not write-only.
  pub command_read-AtMostOnce :
      (compile : String → Option Pattern) (device_name command_name attributes : String)
      (regex_cmd : Bool) (s : State Float)
      → AtMostOnce
          (LetThrough now outside configuration service s device_name
            (MayRead compile regex_cmd command_name attributes))
          s
          (command_read fl uuid origin now outside profiles configuration service compile
            device_name command_name attributes regex_cmd s).1
  unfolding command_read
  command_read-AtMostOnce compile device_name command_name attributes regex_cmd s =
      command_frame-AtMostOnce now outside configuration service
        (MayRead compile regex_cmd command_name attributes) device_name command_name _ s
        (λ device.
          read_by-AtMostOnce compile regex_cmd device command_name attributes
            (Profiles.device_command profiles device.profile_name command_name) s refl)
