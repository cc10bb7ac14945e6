-- ===== src/Command/Write.antt =====
-- `_write_device_resource`, `_write_device_command` and `command_write` of
-- internal/application/command.py.
pub mod Calls
pub mod Reached
use device_sdk_python.Base.{
  ℕ, Bool, String, Option, none, some, List, [], ◌∷◌, ◌==◌, map, if◌then◌else◌,
}
use device_sdk_python.Base.Int.{ℤ}
use device_sdk_python.Base.Dict.{Dict}
use device_sdk_python.Floats.{Floats}
use device_sdk_python.Model.Value.{Value}
use device_sdk_python.Model.Metadata.{Device, DeviceResource, DeviceCommand}
use device_sdk_python.Model.CommandValue.{CommandValue}
use device_sdk_python.Cache.Profiles
use device_sdk_python.Cache.Profiles.{DeviceProfileCache}
use device_sdk_python.Transformer.Event.{Event}
use device_sdk_python.Command.State.{
  Action, CommandRequest, Outside, Service, DeviceOptions, lift, return, ◌>>=◌, ◌>>◌,
}
use device_sdk_python.Command.Parse.{Codecs}
use device_sdk_python.Command.Helpers.{read_write_w, handle_write_commands, to_event}
use device_sdk_python.Command.Parameters.{resource_parameters, command_parameters}
use device_sdk_python.Command.Frame.{command_frame}

module _ (fl : Floats) (codecs : Codecs fl.Float) (uuid : ℕ → String) (origin now : ℤ)
    (outside : Outside fl.Float) (profiles : DeviceProfileCache fl.Float)
    (configuration : Option DeviceOptions) (service : Option Service) where
  open fl use {Float}

  -- The call of the driver, and the event unless what was written is write-only.
  pub perform_write :
      Device Float
      → String
      → String
      → List (CommandRequest Float) × List (CommandValue Float)
      → Action Float (Option (Event Float))
  unfolding handle_write_commands to_event
  perform_write device source_name read_write (reqs, cvs) = do
    handle_write_commands outside device reqs cvs
    if read_write == read_write_w
        then return none
        else to_event fl uuid origin profiles configuration (map some cvs) device source_name

  unfoldable pub write_device_resource :
      Device Float → String → String → Dict (Value Float) → Action Float (Option (Event Float))
  unfolding resource_parameters perform_write
  write_device_resource device resource_name attributes requests = do
    (dr, prepared) ← lift (
        resource_parameters fl codecs profiles configuration device resource_name attributes
          requests)
    perform_write device resource_name dr.properties.read_write prepared

  unfoldable pub write_device_command :
      Device Float → String → String → Dict (Value Float) → Action Float (Option (Event Float))
  unfolding command_parameters perform_write
  write_device_command device command_name attributes requests = do
    (dc, prepared) ← lift (
        command_parameters fl codecs profiles configuration device command_name attributes requests)
    perform_write device command_name dc.read_write prepared

  pub write_by :
      Device Float
      → String
      → String
      → Dict (Value Float)
      → Option (DeviceCommand Float)
      → Action Float (Option (Event Float))
  unfolding write_device_command write_device_resource
  write_by device command_name attributes requests (some _) =
      write_device_command device command_name attributes requests
  write_by device command_name attributes requests none =
      write_device_resource device command_name attributes requests

  unfoldable pub command_write :
      String → String → String → Dict (Value Float) → Action Float (Option (Event Float))
  unfolding command_frame write_by Profiles.device_command
  command_write device_name command_name attributes requests =
      command_frame now outside configuration service device_name command_name (λ device.
        write_by device command_name attributes requests
          (Profiles.device_command profiles device.profile_name command_name))
