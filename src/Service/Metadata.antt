-- ===== src/Service/Metadata.antt =====
-- `_validate_device` and the nine helpers `_add_device_to_metadata` to
-- `_delete_provision_watcher_from_metadata`: the cache first, then Core Metadata, and back if that
-- fails.
use device_sdk_python.Base.{Bool, true, false, String, List, [], ◌∷◌, ◌==◌, if◌then◌else◌}
use device_sdk_python.Base.Dict
use device_sdk_python.Base.Dict.{Dict}
use device_sdk_python.Raise.{ok, EdgexErrorKind}
use device_sdk_python.Model.Value.{is_null}
use device_sdk_python.Model.Metadata.{Device, DeviceProfile, ProvisionWatcher}
use device_sdk_python.Cache.Devices
use device_sdk_python.Cache.Devices.{DeviceCache}
use device_sdk_python.Cache.Profiles
use device_sdk_python.Cache.Profiles.{DeviceProfileCache}
use device_sdk_python.Cache.ProvisionWatchers
use device_sdk_python.Cache.ProvisionWatchers.{ProvisionWatcherCache}
use device_sdk_python.Service.State.{
  State, Action, Call, Update, Answer, Outside, return, error, here, found, on_devices, on_profiles,
  on_watchers, note, metadata_error, answered, ◌>>=◌, ◌>>◌,
}

-- `if not value: value = default`
abbrev or_else : String → String → String
or_else value default = if value == "" then default else value

module _ {F : Type 0} where
  -- `setattr(device, key, value)`, if the value is not None and the device has the attribute
  unfoldable pub set_attribute : Device F → Update F → Device F
  set_attribute d (Update.id v) = record d { id = v }
  set_attribute d (Update.description v) = record d { description = v }
  set_attribute d (Update.admin_state v) = record d { admin_state = v }
  set_attribute d (Update.operating_state v) = record d { operating_state = v }
  set_attribute d (Update.service_name v) = record d { service_name = v }
  set_attribute d (Update.profile_name v) = record d { profile_name = v }
  set_attribute d (Update.labels v) = record d { labels = v }
  set_attribute d (Update.location v) = if is_null v then d else record d { location = v }
  set_attribute d (Update.auto_events v) = record d { auto_events = v }
  set_attribute d (Update.protocols v) = record d { protocols = v }
  set_attribute d (Update.last_connected v) = record d { last_connected = v }
  set_attribute d (Update.last_reported v) = record d { last_reported = v }
  set_attribute d (Update.created v) = record d { created = v }
  set_attribute d (Update.modified v) = record d { modified = v }
  set_attribute d (Update.tags v) = record d { tags = v }
  set_attribute d (Update.properties v) = record d { properties = v }
  set_attribute d (Update.unknown key v) = d

  unfoldable pub set_attributes : Device F → List (Update F) → Device F
  unfolding set_attribute
  set_attributes d [] = d
  set_attributes d (update ∷ updates) = set_attributes (set_attribute d update) updates

  module _ (outside : Outside F) (service_key : String) where
    unfoldable pub unless_valid : Bool → Action F (Unit {0})
    unless_valid true = return tt
    unless_valid false = error EdgexErrorKind.server_error

    unfoldable pub validate_device : Device F → Bool → Action F (Unit {0})
    unfolding unless_valid note
    validate_device device true = return tt
    validate_device device false = here (λ s.
        note (Call.validate_device device)
        >> unless_valid (outside.driver s.calls (Call.validate_device device)))

    -- `except MetadataError`: what the cache gets back, and the error
    unfoldable pub on_answer : Action F (Unit {0}) → Answer → Action F String
    on_answer restore (answered new_id) = return new_id
    on_answer restore metadata_error = restore >> error EdgexErrorKind.server_error

    -- The call of the client under `try`; with no client the id is empty.
    unfoldable pub write_through : Call F → Action F (Unit {0}) → Action F String
    unfolding on_answer note
    write_through call restore = here (λ s.
        found outside.client (return "")
          (λ client. note call >> on_answer restore (client s.calls call)))

    -- The object that was added is the one that the cache holds, so `device.id = new_id` changes
    -- that one too.
    unfoldable pub set_device_id : Device F → String → Action F String
    set_device_id device new_id s = if new_id == "" then (ok device.id, s) else (
      ok new_id,
      record s {
        devices = record s.devices {
          device_map = Dict.put s.devices.device_map device.name (record device { id = new_id });
        };
      },
    )

    -- the id and the name of the service that a new device gets
    unfoldable pub prepared : State F → Device F → Device F
    prepared s device = record device {
      id = or_else device.id (outside.make_uid s.calls);
      service_name = or_else device.service_name service_key;
    }

    unfoldable pub store_device : Device F → Bool → Action F String
    unfolding set_device_id
    store_device device bypass =
        on_devices (λ c. Devices.add c device)
        >> write_through (Call.add_device device bypass)
            (on_devices (λ c. Devices.remove_by_name c device.name))
        >>= set_device_id device

    unfoldable pub add_device_to_metadata : Device F → Bool → Action F String
    unfolding store_device
    add_device_to_metadata device bypass =
        validate_device device bypass >> here (λ s. store_device (prepared s device) bypass)

    unfoldable pub patch_device_in_metadata : String → List (Update F) → Bool → Action F (Unit {0})
    patch_device_in_metadata name updates bypass = here (λ s.
        found (Devices.for_name s.devices name) (return tt) (λ device.
          validate_device (set_attributes device updates) bypass
          >> (on_devices (λ c. Devices.update c (set_attributes device updates))
              >> write_through (Call.patch_device name updates bypass)
                  (on_devices (λ c. Devices.update c device))
              >> return tt)))

    unfoldable pub delete_device_from_metadata : String → Action F (Unit {0})
    delete_device_from_metadata name = here (λ s.
        found (Devices.for_name s.devices name) (return tt) (λ device.
          on_devices (λ c. Devices.remove_by_name c name)
          >> write_through (Call.delete_device name) (on_devices (λ c. Devices.add c device))
          >> return tt))

    unfoldable pub set_profile_id : DeviceProfile F → String → Action F String
    set_profile_id profile new_id s = if new_id == "" then (ok profile.id, s) else (
      ok new_id,
      record s {
        profiles = record s.profiles {
          device_profile_map =
              Dict.put s.profiles.device_profile_map profile.name (record profile { id = new_id });
        };
      },
    )

    unfoldable pub prepared_profile : State F → DeviceProfile F → DeviceProfile F
    prepared_profile s profile = record profile {
      id = or_else profile.id (outside.make_uid s.calls);
    }

    unfoldable pub store_profile : DeviceProfile F → Action F String
    unfolding set_profile_id
    store_profile profile =
        on_profiles (λ c. Profiles.add c profile)
        >> write_through (Call.add_device_profile profile)
            (on_profiles (λ c. Profiles.remove_by_name c profile.name))
        >>= set_profile_id profile

    unfoldable pub add_profile_to_metadata : DeviceProfile F → Action F String
    unfolding store_profile
    add_profile_to_metadata profile = here (λ s. store_profile (prepared_profile s profile))

    unfoldable pub update_profile_in_metadata : DeviceProfile F → Action F (Unit {0})
    update_profile_in_metadata profile = here (λ s.
        found (Profiles.for_name s.profiles profile.name) (return tt) (λ snapshot.
          on_profiles (λ c. Profiles.update c profile)
          >> write_through (Call.update_device_profile profile)
              (on_profiles (λ c. Profiles.update c snapshot))
          >> return tt))

    unfoldable pub delete_profile_from_metadata : String → Action F (Unit {0})
    delete_profile_from_metadata name = here (λ s.
        found (Profiles.for_name s.profiles name) (return tt) (λ profile.
          on_profiles (λ c. Profiles.remove_by_name c name)
          >> write_through (Call.delete_device_profile name)
              (on_profiles (λ c. Profiles.add c profile))
          >> return tt))

    unfoldable pub set_watcher_id : ProvisionWatcher F → String → Action F String
    set_watcher_id watcher new_id s = if new_id == "" then (ok watcher.id, s) else (
      ok new_id,
      record s {
        watchers = record {
          pw_map = Dict.put s.watchers.pw_map watcher.name (record watcher { id = new_id });
        };
      },
    )

    unfoldable pub prepared_watcher : State F → ProvisionWatcher F → ProvisionWatcher F
    prepared_watcher s watcher = record watcher {
      id = or_else watcher.id (outside.make_uid s.calls);
      service_name = or_else watcher.service_name service_key;
    }

    unfoldable pub store_watcher : ProvisionWatcher F → Action F String
    unfolding set_watcher_id
    store_watcher watcher =
        on_watchers (λ c. ProvisionWatchers.add c watcher)
        >> write_through (Call.add_provision_watcher watcher)
            (on_watchers (λ c. ProvisionWatchers.remove_by_name c watcher.name))
        >>= set_watcher_id watcher

    unfoldable pub add_provision_watcher_to_metadata : ProvisionWatcher F → Action F String
    unfolding store_watcher
    add_provision_watcher_to_metadata watcher =
        here (λ s. store_watcher (prepared_watcher s watcher))

    unfoldable pub update_provision_watcher_in_metadata : ProvisionWatcher F → Action F (Unit {0})
    update_provision_watcher_in_metadata watcher = here (λ s.
        found (ProvisionWatchers.for_name s.watchers watcher.name) (return tt) (λ snapshot.
          on_watchers (λ c. ProvisionWatchers.update c watcher)
          >> write_through (Call.update_provision_watcher watcher)
              (on_watchers (λ c. ProvisionWatchers.update c snapshot))
          >> return tt))

    unfoldable pub delete_provision_watcher_from_metadata : String → Action F (Unit {0})
    delete_provision_watcher_from_metadata name = here (λ s.
        found (ProvisionWatchers.for_name s.watchers name) (return tt) (λ watcher.
          on_watchers (λ c. ProvisionWatchers.remove_by_name c name)
          >> write_through (Call.delete_provision_watcher name)
              (on_watchers (λ c. ProvisionWatchers.add c watcher))
          >> return tt))
