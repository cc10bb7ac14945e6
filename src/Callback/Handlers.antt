-- ===== src/Callback/Handlers.antt =====
-- The callbacks of internal/application/callback.py, one function for each.
pub mod Consistent
pub mod Events
pub mod Settled
pub mod Updated
pub mod InUse
use device_sdk_python.Base.{
  Bool, true, false, not, ◌||◌, String, Option, none, some, List, [], ◌∷◌, ◌==◌, any, if◌then◌else◌,
}
use device_sdk_python.Base.Int.{ℤ}
use device_sdk_python.Raise.{Result, Outcome, ok, raise, edgex_error, EdgexErrorKind}
use device_sdk_python.Model.Metadata.{Device, DeviceProfile, ProvisionWatcher}
use device_sdk_python.Cache.Devices
use device_sdk_python.Cache.Profiles
use device_sdk_python.Cache.ProvisionWatchers
use device_sdk_python.Command.State.{DeviceOptions}
use device_sdk_python.Command.Failures.{allowed_fails}
use device_sdk_python.AutoEvent.Manager
use device_sdk_python.Callback.State.{
  State, Outside, Container, Handler, Call, ServiceModel, done, refused, when, found, here,
  try_devices, try_profiles, try_watchers, note, call_driver, on_manager, ◌>>◌,
}

-- `getattr(device_service, "name", None) == name`
abbrev pub is_named : Option ServiceModel → String → Bool
is_named none name = false
is_named (some service) name = service.name == name

module _ {F : Type 0} (outside : Outside F) (dic : Container)
    (duration : String → Option (Result F)) (changed_only : Bool) where
  -- the profile that the client returned goes to the cache
  keep_profile : String → Option (DeviceProfile F) → Handler F
  keep_profile profile_name none = refused EdgexErrorKind.contract_invalid
  keep_profile profile_name (some profile) = here (λ s.
      found (Profiles.for_name s.profiles profile_name)
        (try_profiles EdgexErrorKind.server_error (λ c. Profiles.add c profile))
        (λ _. try_profiles EdgexErrorKind.server_error (λ c. Profiles.update c profile)))

  fetch_profile : String → Handler F
  unfolding note keep_profile
  fetch_profile profile_name = here (λ s.
      note (Call.profile_by_name profile_name)
      >> keep_profile profile_name (outside.client s.calls profile_name))

  update_associated_profile : String → Handler F
  unfolding fetch_profile
  update_associated_profile profile_name = when dic.has_client (fetch_profile profile_name)

  -- `if profile_name:`
  unfoldable pub sync_profile : String → Handler F
  unfolding update_associated_profile
  sync_profile profile_name =
      when (not (profile_name == "")) (update_associated_profile profile_name)

  -- the loop of `update_profile` over the devices of the profile
  tell_users : String → List (Device F) → Handler F
  unfolding call_driver
  tell_users profile_name [] = done
  tell_users profile_name (d ∷ ds) =
      when (d.profile_name == profile_name)
        (call_driver outside (Call.update_device d.name d.protocols d.admin_state))
      >> tell_users profile_name ds

  unfoldable pub update_profile : DeviceProfile F → Handler F
  unfolding tell_users
  update_profile profile =
      if profile.name == ""
      then refused EdgexErrorKind.contract_invalid
      else here (λ s.
        found (Profiles.for_name s.profiles profile.name) (refused EdgexErrorKind.contract_invalid)
          (λ _.
            try_profiles EdgexErrorKind.server_error (λ c. Profiles.update c profile)
            >> here (λ t. tell_users profile.name (Devices.devices t.devices))))

  unfoldable pub delete_profile : String → Handler F
  delete_profile profile_name = here (λ s.
      if any (λ (d : Device F). d.profile_name == profile_name) (Devices.devices s.devices)
      then done
      else try_profiles EdgexErrorKind.server_error (λ c. Profiles.remove_by_name c profile_name))

  -- `fails_tracker.set(device_name, allowed_fails)`, if there are a configuration and a tracker
  start_tracking : String → Option (Option DeviceOptions) → Handler F
  start_tracking device_name none = done
  start_tracking device_name (some options) =
      when dic.has_tracker (note (Call.set_failures device_name (allowed_fails options)))

  unfoldable pub restart_auto_events : String → Handler F
  restart_auto_events device_name =
      here
        (λ s. on_manager (Manager.restart_for_device duration changed_only s.devices device_name))

  unfoldable pub add_device : Device F → Handler F
  unfolding sync_profile start_tracking restart_auto_events
  add_device device =
      sync_profile device.profile_name
      >> try_devices EdgexErrorKind.server_error (λ c. Devices.add c device)
      >> call_driver outside (Call.add_device device.name device.protocols device.admin_state)
      >> start_tracking device.name dic.configuration
      >> restart_auto_events device.name

  unfoldable pub delete_device : String → Handler F
  delete_device name = here (λ s.
      found (Devices.for_name s.devices name) (refused EdgexErrorKind.contract_invalid) (λ device.
        on_manager (Manager.stop_for_device name)
        >> try_devices EdgexErrorKind.server_error (λ c. Devices.remove_by_name c name)
        >> call_driver outside (Call.remove_device name device.protocols)
        >> when dic.has_tracker (note (Call.remove_failures name))))

  -- The device stays with this service.
  refresh_device : Device F → Handler F
  unfolding sync_profile restart_auto_events
  refresh_device device =
      sync_profile device.profile_name
      >> try_devices EdgexErrorKind.server_error (λ c. Devices.update c device)
      >> call_driver outside (Call.update_device device.name device.protocols device.admin_state)
      >> (if device.admin_state == "LOCKED"
          then on_manager (Manager.stop_for_device device.name)
          else restart_auto_events device.name)

  unfoldable pub update_device : Device F → Handler F
  unfolding add_device delete_device refresh_device
  update_device device =
      if device.name == ""
      then refused EdgexErrorKind.contract_invalid
      else here (λ s.
        found (Devices.for_name s.devices device.name)
          (if is_named s.service device.service_name
            then add_device device
            else refused EdgexErrorKind.not_found)
          (λ _.
            if is_named s.service device.service_name
            then refresh_device device
            else delete_device device.name))

  unfoldable pub add_provision_watcher : ProvisionWatcher F → Handler F
  unfolding sync_profile
  add_provision_watcher watcher =
      sync_profile watcher.profile_name
      >> try_watchers EdgexErrorKind.server_error (λ c. ProvisionWatchers.add c watcher)

  unfoldable pub delete_provision_watcher : String → Handler F
  delete_provision_watcher name =
      try_watchers EdgexErrorKind.contract_invalid (λ c. ProvisionWatchers.remove_by_name c name)

  refresh_provision_watcher : ProvisionWatcher F → Handler F
  unfolding sync_profile
  refresh_provision_watcher watcher =
      sync_profile watcher.profile_name
      >> try_watchers EdgexErrorKind.server_error (λ c. ProvisionWatchers.update c watcher)

  unfoldable pub update_provision_watcher : ProvisionWatcher F → Handler F
  unfolding add_provision_watcher delete_provision_watcher refresh_provision_watcher
  update_provision_watcher watcher =
      if watcher.name == ""
      then refused EdgexErrorKind.contract_invalid
      else here (λ s.
        found (ProvisionWatchers.for_name s.watchers watcher.name)
          (if is_named s.service watcher.service_name
            then add_provision_watcher watcher
            else delete_provision_watcher watcher.name)
          (λ _.
            if is_named s.service watcher.service_name
            then refresh_provision_watcher watcher
            else delete_provision_watcher watcher.name))

  -- `if admin_state` and `if labels is not None`
  abbrev with_admin_state : String → ServiceModel → ServiceModel
  with_admin_state state service =
      if state == "" then service else record service { admin_state = state }

  abbrev with_labels : Option (List String) → ServiceModel → ServiceModel
  with_labels none service = service
  with_labels (some labels) service = record service { labels = labels }

  set_service : ServiceModel → Handler F
  set_service service s = (ok tt, record s { service = some service })

  changed_service : String → String → Option (List String) → Option ServiceModel → Handler F
  changed_service name admin_state labels none = refused EdgexErrorKind.not_found
  changed_service name admin_state labels (some service) =
      if service.name == name
      then set_service (with_labels labels (with_admin_state admin_state service))
      else refused EdgexErrorKind.not_found

  -- the name, the admin state (empty if there is none) and the labels of `service`
  unfoldable pub update_device_service : String → String → Option (List String) → Handler F
  unfolding changed_service set_service
  update_device_service name admin_state labels =
      here (λ s. changed_service name admin_state labels s.service)
