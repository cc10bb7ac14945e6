-- ===== src/Command/Pump.antt =====
-- `_device_return_pump` of src/device_sdk_py/service/device_service.py: what one round of it, after the
-- wait, does for the devices that are DOWN.
use device_sdk_python.Base.{
  ℕ, ◌≡◌, refl, false, Bool-cases, inl, inr, String, Option, List, [], ◌∷◌, ◌==◌, if◌then◌else◌,
}
use device_sdk_python.Base.Int.{ℤ}
use device_sdk_python.Raise.{Result}
use device_sdk_python.Model.Metadata.{Device}
use device_sdk_python.Cache.Devices
use device_sdk_python.Floats.{Floats}
use device_sdk_python.Cache.Profiles.{DeviceProfileCache, Pattern}
use device_sdk_python.Command.State.{State, Outside, Service, DeviceOptions}
use device_sdk_python.Command.Frame.{command_frame}
use device_sdk_python.Command.Read.{command_read}

-- the devices that are DOWN
abbrev pub down_devices : {F : Type 0} → List (Device F) → List (Device F)
down_devices [] = []
down_devices (d ∷ ds) =
    let rest = down_devices ds in if d.operating_state == "DOWN" then d ∷ rest else rest

-- `except Exception`, which is only logged
abbrev regardless : {F A : Type 0} → Result A × State F → State F
regardless (r, s) = s

module _ (fl : Floats) (uuid : ℕ → String) (origin now : ℤ) (outside : Outside fl.Float)
    (profiles : DeviceProfileCache fl.Float) (configuration : Option DeviceOptions)
    (service : Option Service) (compile : String → Option Pattern) where
  open fl use {Float}

  -- The read of each device, with the empty command name that the pump passes.
  retry_each : List (Device Float) → State Float → State Float
  unfolding command_read
  retry_each [] s = s
  retry_each (device ∷ devices) s = retry_each devices (
      regardless (
        command_read fl uuid origin now outside profiles configuration service compile device.name
          "" "" false s))

  unfoldable pub retry_down_devices : State Float → State Float
  unfolding retry_each
  retry_down_devices s = retry_each (down_devices (Devices.devices s.devices)) s

  retry_each-same : (devices : List (Device Float)) (s : State Float) → retry_each devices s ≡ s
  unfolding retry_each command_frame
  retry_each-same [] s = refl
  retry_each-same (device ∷ devices) s = elim (Bool-cases (device.name == "")) [
    | inl e ↦ rw e (retry_each-same devices s)
    | inr e ↦ rw e (retry_each-same devices s)
  ]

  -- Whatever the devices, the driver and Core Metadata, a round of the pump changes nothing and calls
  -- nobody: the reads by which it wants to restore the devices that are DOWN have an empty command
  -- name, so each is refused before the device is looked at.
  pub retry_down_devices-same : (s : State Float) → retry_down_devices s ≡ s
  unfolding retry_down_devices
  retry_down_devices-same s = retry_each-same (down_devices (Devices.devices s.devices)) s
