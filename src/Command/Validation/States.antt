-- ===== src/Command/Validation/States.antt =====
-- Which devices a command is let through to.
use mathlib.Core.Path.{subst}
use device_sdk_python.Base.{◌≡◌, ◌↔◌, false, ◌&&◌, String, Option, some, ◌==◌}
use device_sdk_python.Raise.{ok, ok-injective, refuse, found_or, refuse-ok, found_or-ok}
use device_sdk_python.Model.Metadata.{Device, admin_state_locked}
use device_sdk_python.Cache.Devices
use device_sdk_python.Command.State.{State, Service, DeviceOptions}
use device_sdk_python.Command.Failures.{operating_state_down}
use device_sdk_python.Command.Validation.{
  validate_service_and_device_state, service_locked, no_retry,
}

module _ {F : Type 0} where
  -- The conditions under which a device takes a command.
  abbrev pub Serves : State F → Option DeviceOptions → Option Service → String → Device F → Type 0
  Serves s configuration service device_name device =
      (service_locked service ≡ false)
      × (Devices.for_name s.devices device_name ≡ some device)
      × ((device.admin_state == admin_state_locked) ≡ false)
      × ((device.operating_state == operating_state_down && no_retry s configuration device_name)
          ≡ false)
      × ((device.profile_name == "") ≡ false)

  validate-Serves :
      (s : State F) (configuration : Option DeviceOptions) (service : Option Service)
      (device_name : String) (device : Device F)
      → validate_service_and_device_state s configuration service device_name ≡ ok device
      → Serves s configuration service device_name device
  unfolding validate_service_and_device_state
  validate-Serves s configuration service device_name device e =
      let (open_service, e₁) = refuse-ok _ _ _ e in
      let (found, is, e₂) = found_or-ok _ _ _ e₁ in
      let (unlocked, e₃) = refuse-ok _ _ _ e₂ in
      let (up, e₄) = refuse-ok _ _ _ e₃ in
      let (profiled, e₅) = refuse-ok _ _ _ e₄ in
      subst (Serves s configuration service device_name) (ok-injective e₅)
        (open_service, is, unlocked, up, profiled)

  Serves-validate :
      (s : State F) (configuration : Option DeviceOptions) (service : Option Service)
      (device_name : String) (device : Device F)
      → Serves s configuration service device_name device
      → validate_service_and_device_state s configuration service device_name ≡ ok device
  unfolding validate_service_and_device_state refuse found_or
  Serves-validate s configuration service device_name device
        (open_service, is, unlocked, up, profiled) =
      simp (open_service, is, unlocked, up, profiled)

  -- A command is let through to a device exactly when the service is not locked, the cache holds the
  -- device under the name, the device is not locked, it is not DOWN (unless a retry is configured and
  -- its count of failures is missing or other than 0), and it has a profile.
  pub validate_iff :
      (s : State F) (configuration : Option DeviceOptions) (service : Option Service)
      (device_name : String) (device : Device F)
      → (validate_service_and_device_state s configuration service device_name ≡ ok device)
        ↔ Serves s configuration service device_name device
  validate_iff s configuration service device_name device = (
    validate-Serves s configuration service device_name device,
    Serves-validate s configuration service device_name device,
  )
