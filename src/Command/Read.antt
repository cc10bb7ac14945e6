-- ===== src/Command/Read.antt =====
-- `_read_device_resource`, `_read_device_resources_regex`, `_read_device_command` and `command_read`
-- of internal/application/command.py.
pub mod Calls
pub mod Reached
use device_sdk_python.Base.{ℕ, Bool, String, Option, none, some, List, if◌then◌else◌}
use device_sdk_python.Base.Int.{ℤ}
use device_sdk_python.Floats.{Floats}
use device_sdk_python.Model.Metadata.{Device, DeviceCommand}
use device_sdk_python.Cache.Profiles
use device_sdk_python.Cache.Profiles.{DeviceProfileCache, Pattern}
use device_sdk_python.Transformer.Event.{Event}
use device_sdk_python.Command.State.{
  Action, CommandRequest, Outside, Service, DeviceOptions, lift, ◌>>=◌, ◌>>◌,
}
use device_sdk_python.Command.Frame.{command_frame}
use device_sdk_python.Command.Helpers.{handle_read_commands, to_event}
use device_sdk_python.Command.Requests.{resource_requests, regex_requests, command_requests}

module _ (fl : Floats) (uuid : ℕ → String) (origin now : ℤ) (outside : Outside fl.Float)
    (profiles : DeviceProfileCache fl.Float) (configuration : Option DeviceOptions)
    (service : Option Service) where
  open fl use {Float}

  -- What the three reads do once the requests are there.
  pub perform_read :
      Device Float → List (CommandRequest Float) × String → Action Float (Option (Event Float))
  unfolding handle_read_commands to_event
  perform_read device (reqs, source_name) = do
    results ← handle_read_commands outside device reqs
    to_event fl uuid origin profiles configuration results device source_name

  unfoldable pub read_device_resource :
      Device Float → String → String → Action Float (Option (Event Float))
  unfolding resource_requests perform_read
  read_device_resource device resource_name attributes =
      lift (resource_requests profiles device resource_name attributes) >>= perform_read device

  unfoldable pub read_device_resources_regex :
      (String → Option Pattern)
      → Device Float
      → String
      → String
      → Action Float (Option (Event Float))
  unfolding regex_requests perform_read
  read_device_resources_regex compile device regex_resource_name attributes =
      lift (regex_requests compile profiles device regex_resource_name attributes)
      >>= perform_read device

  unfoldable pub read_device_command :
      Device Float → String → String → Action Float (Option (Event Float))
  unfolding command_requests perform_read
  read_device_command device command_name attributes =
      lift (command_requests profiles configuration device command_name attributes)
      >>= perform_read device

  -- The name of a command comes first, then the pattern.
  pub read_by :
      (String → Option Pattern)
      → Bool
      → Device Float
      → String
      → String
      → Option (DeviceCommand Float)
      → Action Float (Option (Event Float))
  unfolding read_device_command read_device_resources_regex read_device_resource
  read_by compile regex_cmd device command_name attributes (some _) =
      read_device_command device command_name attributes
  read_by compile regex_cmd device command_name attributes none =
      if regex_cmd
      then read_device_resources_regex compile device command_name attributes
      else read_device_resource device command_name attributes

  unfoldable pub command_read :
      (String → Option Pattern)
      → String
      → String
      → String
      → Bool
      → Action Float (Option (Event Float))
  unfolding command_frame read_by Profiles.device_command
  command_read compile device_name command_name attributes regex_cmd =
      command_frame now outside configuration service device_name command_name (λ device.
        read_by compile regex_cmd device command_name attributes
          (Profiles.device_command profiles device.profile_name command_name))
