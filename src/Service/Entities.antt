-- ===== src/Service/Entities.antt =====
-- The public methods of the service on devices, profiles and watchers, and the callbacks
-- `_on_device_added` to `_on_watcher_deleted` for system events.
use device_sdk_python.Base.{Bool, true, String, Option, none, some, List, [], ◌∷◌}
use device_sdk_python.Raise.{EdgexErrorKind}
use device_sdk_python.Model.Metadata.{
  Device, DeviceProfile, DeviceResource, DeviceCommand, ProvisionWatcher,
}
use device_sdk_python.Cache.Devices
use device_sdk_python.Cache.Profiles
use device_sdk_python.Cache.ProvisionWatchers
use device_sdk_python.Service.State.{
  State, Action, Update, Outside, return, error, here, found, ◌>>◌,
}
use device_sdk_python.Service.Metadata.{
  add_device_to_metadata, patch_device_in_metadata, delete_device_from_metadata,
  add_profile_to_metadata, update_profile_in_metadata, delete_profile_from_metadata,
  add_provision_watcher_to_metadata, update_provision_watcher_in_metadata,
  delete_provision_watcher_from_metadata,
}

module _ {F : Type 0} where
  -- `if exists: raise`
  abbrev pub absent : {A B : Type 0} → Option A → Action F B → Action F B
  absent none action = action
  absent (some a) action = error EdgexErrorKind.duplicate_name

  unfoldable pub get_device_by_name : String → Action F (Device F)
  get_device_by_name name = here (λ s.
      found (Devices.for_name s.devices name) (error EdgexErrorKind.not_found)
        (λ device. return device))

  unfoldable pub get_profile_by_name : String → Action F (DeviceProfile F)
  get_profile_by_name name = here (λ s.
      found (Profiles.for_name s.profiles name) (error EdgexErrorKind.not_found)
        (λ profile. return profile))

  unfoldable pub get_provision_watcher_by_name : String → Action F (ProvisionWatcher F)
  get_provision_watcher_by_name name = here (λ s.
      found (ProvisionWatchers.for_name s.watchers name) (error EdgexErrorKind.not_found)
        (λ watcher. return watcher))

  -- the `updates` of `update_device`
  abbrev pub all_updates : Device F → List (Update F)
  all_updates device =
      Update.description device.description
      ∷ Update.admin_state device.admin_state
      ∷ Update.operating_state device.operating_state
      ∷ Update.profile_name device.profile_name
      ∷ Update.labels device.labels
      ∷ Update.location device.location
      ∷ Update.auto_events device.auto_events
      ∷ Update.protocols device.protocols
      ∷ Update.tags device.tags
      ∷ Update.properties device.properties
      ∷ []

  -- `device_resource` and `device_command`: the resource or command of a device, if both are there
  unfoldable pub device_resource : State F → String → String → Option (DeviceResource F)
  device_resource s device_name name = elim (Devices.for_name s.devices device_name) [
    | none ↦ none
    | some device ↦ Profiles.device_resource s.profiles device.profile_name name
  ]

  unfoldable pub device_command : State F → String → String → Option (DeviceCommand F)
  device_command s device_name name = elim (Devices.for_name s.devices device_name) [
    | none ↦ none
    | some device ↦ Profiles.device_command s.profiles device.profile_name name
  ]

  module _ (outside : Outside F) (service_key : String) where
    -- `add_device`, and with `bypass` `add_device_without_validation`
    unfoldable pub add_device : Device F → Bool → Action F String
    add_device device bypass = here (λ s. absent (Devices.for_name s.devices device.name) (
        add_device_to_metadata outside service_key (record device { service_name = service_key })
          bypass))

    -- `update_device`, and with `bypass` `update_device_without_validation`
    unfoldable pub update_device : Device F → Bool → Action F (Unit {0})
    unfolding get_device_by_name
    update_device device bypass =
        get_device_by_name device.name
        >> patch_device_in_metadata outside service_key device.name (all_updates device) bypass

    -- `_patch_device_impl` for `patch_device` and `patch_device_without_validation`. The name may be
    -- missing; `updates` are the values that are not None.
    unfoldable pub patch_device : Option String → List (Update F) → Bool → Action F (Unit {0})
    unfolding get_device_by_name
    patch_device none updates bypass = error EdgexErrorKind.contract_invalid
    patch_device (some name) updates bypass =
        get_device_by_name name >> patch_device_in_metadata outside service_key name updates bypass

    unfoldable pub update_device_operating_state : String → String → Action F (Unit {0})
    unfolding get_device_by_name
    update_device_operating_state name state =
        get_device_by_name name
        >> patch_device_in_metadata outside service_key name (Update.operating_state state ∷ [])
            true

    unfoldable pub remove_device_by_name : String → Action F (Unit {0})
    unfolding get_device_by_name
    remove_device_by_name name =
        get_device_by_name name >> delete_device_from_metadata outside service_key name

    unfoldable pub add_device_profile : DeviceProfile F → Action F String
    add_device_profile profile = here (λ s.
        absent (Profiles.for_name s.profiles profile.name)
          (add_profile_to_metadata outside service_key profile))

    unfoldable pub update_device_profile : DeviceProfile F → Action F (Unit {0})
    unfolding get_profile_by_name
    update_device_profile profile =
        get_profile_by_name profile.name >> update_profile_in_metadata outside service_key profile

    unfoldable pub remove_device_profile_by_name : String → Action F (Unit {0})
    unfolding get_profile_by_name
    remove_device_profile_by_name name =
        get_profile_by_name name >> delete_profile_from_metadata outside service_key name

    unfoldable pub add_provision_watcher : ProvisionWatcher F → Action F String
    add_provision_watcher watcher = here (λ s.
        absent (ProvisionWatchers.for_name s.watchers watcher.name) (
          add_provision_watcher_to_metadata outside service_key
            (record watcher { service_name = service_key })))

    unfoldable pub update_provision_watcher : ProvisionWatcher F → Action F (Unit {0})
    unfolding get_provision_watcher_by_name
    update_provision_watcher watcher =
        get_provision_watcher_by_name watcher.name
        >> update_provision_watcher_in_metadata outside service_key watcher

    unfoldable pub remove_provision_watcher : String → Action F (Unit {0})
    unfolding get_provision_watcher_by_name
    remove_provision_watcher name =
        get_provision_watcher_by_name name
        >> delete_provision_watcher_from_metadata outside service_key name
