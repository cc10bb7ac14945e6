-- ===== src/Callback/Handlers/Consistent.antt =====
-- The callbacks keep the invariants of the three caches and of the auto event manager together.
use device_sdk_python.Base.{Bool, not, String, Option, none, some, List, [], ◌∷◌, ◌==◌, any}
use device_sdk_python.Raise.{Result, EdgexErrorKind}
use device_sdk_python.Model.Metadata.{Device, DeviceProfile, ProvisionWatcher}
use device_sdk_python.Cache.Devices
use device_sdk_python.Cache.Devices.{DeviceCache}
use device_sdk_python.Cache.Devices.Keys
use device_sdk_python.Cache.Profiles
use device_sdk_python.Cache.Profiles.{DeviceProfileCache}
use device_sdk_python.Cache.Profiles.Derived
use device_sdk_python.Cache.ProvisionWatchers
use device_sdk_python.Cache.ProvisionWatchers.{ProvisionWatcherCache}
use device_sdk_python.Cache.ProvisionWatchers.Keys as Watchers
use device_sdk_python.Command.State.{DeviceOptions}
use device_sdk_python.Command.Failures.{allowed_fails}
use device_sdk_python.AutoEvent.Manager
use device_sdk_python.AutoEvent.Manager.{Manager}
use device_sdk_python.AutoEvent.Manager.Tracked
use device_sdk_python.Callback.State.{Outside, Container, Call, ServiceModel, on_manager}
use device_sdk_python.Callback.Keeps.{
  Keeps, Keeps-found, Keeps-here, Keeps->>, Keeps-done, Keeps-refused, Keeps-when, Keeps-if,
  Keeps-try_devices, Keeps-try_profiles, Keeps-try_watchers, Keeps-note, Keeps-call_driver,
  Keeps-on_manager,
}
use device_sdk_python.Callback.Handlers

module _ {F : Type 0} (outside : Outside F) (dic : Container)
    (duration : String → Option (Result F)) (changed_only : Bool) where
  keep_profile-Keeps :
      (profile_name : String) (fetched : Option (DeviceProfile F))
      → Keeps (Handlers.keep_profile outside dic duration changed_only profile_name fetched)
  unfolding Handlers.keep_profile
  keep_profile-Keeps profile_name none = Keeps-refused EdgexErrorKind.contract_invalid
  keep_profile-Keeps profile_name (some profile) = Keeps-here _ (λ s.
      Keeps-found (Profiles.for_name s.profiles profile_name)
        (Keeps-try_profiles EdgexErrorKind.server_error (λ c. Profiles.add c profile)
          (λ c v. Derived.add-IsDerived c profile v))
        (λ _.
          Keeps-try_profiles EdgexErrorKind.server_error (λ c. Profiles.update c profile)
            (λ c v. Derived.update-IsDerived c profile v)))

  pub sync_profile-Keeps :
      (profile_name : String)
      → Keeps (Handlers.sync_profile outside dic duration changed_only profile_name)
  unfolding Handlers.sync_profile Handlers.update_associated_profile Handlers.fetch_profile
  sync_profile-Keeps profile_name = Keeps-when (not (profile_name == "")) (
      Keeps-when dic.has_client (
        Keeps-here _ (λ s.
          Keeps->> (Keeps-note (Call.profile_by_name profile_name))
            (keep_profile-Keeps profile_name (outside.client s.calls profile_name)))))

  tell_users-Keeps :
      (profile_name : String) (ds : List (Device F))
      → Keeps (Handlers.tell_users outside dic duration changed_only profile_name ds)
  unfolding Handlers.tell_users
  tell_users-Keeps profile_name [] = Keeps-done
  tell_users-Keeps profile_name (d ∷ ds) =
      Keeps->>
        (Keeps-when (d.profile_name == profile_name)
          (Keeps-call_driver outside (Call.update_device d.name d.protocols d.admin_state)))
        (tell_users-Keeps profile_name ds)

  restart-Keeps :
      (name : String) → Keeps (Handlers.restart_auto_events outside dic duration changed_only name)
  unfolding Handlers.restart_auto_events
  restart-Keeps name = Keeps-here _ (λ s.
      Keeps-on_manager (Manager.restart_for_device duration changed_only s.devices name)
        (λ m v. Tracked.restart_for_device-IsTracked duration changed_only s.devices name m v))

  stop-Keeps : (name : String) → Keeps {F = F} (on_manager (Manager.stop_for_device name))
  stop-Keeps name =
      Keeps-on_manager (Manager.stop_for_device name)
        (λ m v. (Tracked.stop_for_device-IsTracked m name v).0)

  start_tracking-Keeps :
      (name : String) (configuration : Option (Option DeviceOptions))
      → Keeps (Handlers.start_tracking outside dic duration changed_only name configuration)
  unfolding Handlers.start_tracking
  start_tracking-Keeps name none = Keeps-done
  start_tracking-Keeps name (some options) =
      Keeps-when dic.has_tracker (Keeps-note (Call.set_failures name (allowed_fails options)))

  pub add_device-Keeps :
      (device : Device F) → Keeps (Handlers.add_device outside dic duration changed_only device)
  unfolding Handlers.add_device
  add_device-Keeps device =
      Keeps->>
        (Keeps->>
          (Keeps->>
            (Keeps->> (sync_profile-Keeps device.profile_name) (
              Keeps-try_devices EdgexErrorKind.server_error (λ c. Devices.add c device)
                (λ c v. Keys.add-IsValid c device v)))
            (Keeps-call_driver outside
              (Call.add_device device.name device.protocols device.admin_state)))
          (start_tracking-Keeps device.name dic.configuration))
        (restart-Keeps device.name)

  pub delete_device-Keeps :
      (name : String) → Keeps (Handlers.delete_device outside dic duration changed_only name)
  unfolding Handlers.delete_device
  delete_device-Keeps name = Keeps-here _ (λ s.
      Keeps-found (Devices.for_name s.devices name) (Keeps-refused EdgexErrorKind.contract_invalid)
        (λ device.
          Keeps->>
            (Keeps->>
              (Keeps->> (stop-Keeps name) (
                Keeps-try_devices EdgexErrorKind.server_error (λ c. Devices.remove_by_name c name)
                  (λ c v. Keys.remove_by_name-IsValid c name v)))
              (Keeps-call_driver outside (Call.remove_device name device.protocols)))
            (Keeps-when dic.has_tracker (Keeps-note (Call.remove_failures name)))))

  refresh_device-Keeps :
      (device : Device F) → Keeps (Handlers.refresh_device outside dic duration changed_only device)
  unfolding Handlers.refresh_device
  refresh_device-Keeps device =
      Keeps->>
        (Keeps->>
          (Keeps->> (sync_profile-Keeps device.profile_name) (
            Keeps-try_devices EdgexErrorKind.server_error (λ c. Devices.update c device)
              (λ c v. Keys.update-IsValid c device v)))
          (Keeps-call_driver outside
            (Call.update_device device.name device.protocols device.admin_state)))
        (Keeps-if (device.admin_state == "LOCKED") (stop-Keeps device.name)
          (restart-Keeps device.name))

  pub update_device-Keeps :
      (device : Device F) → Keeps (Handlers.update_device outside dic duration changed_only device)
  unfolding Handlers.update_device
  update_device-Keeps device =
      Keeps-if (device.name == "") (Keeps-refused EdgexErrorKind.contract_invalid) (
        Keeps-here _ (λ s.
          Keeps-found (Devices.for_name s.devices device.name)
            (Keeps-if (Handlers.is_named s.service device.service_name) (add_device-Keeps device)
              (Keeps-refused EdgexErrorKind.not_found))
            (λ _.
              Keeps-if (Handlers.is_named s.service device.service_name)
                (refresh_device-Keeps device) (delete_device-Keeps device.name))))

  pub update_profile-Keeps :
      (profile : DeviceProfile F)
      → Keeps (Handlers.update_profile outside dic duration changed_only profile)
  unfolding Handlers.update_profile
  update_profile-Keeps profile =
      Keeps-if (profile.name == "") (Keeps-refused EdgexErrorKind.contract_invalid) (
        Keeps-here _ (λ s.
          Keeps-found (Profiles.for_name s.profiles profile.name)
            (Keeps-refused EdgexErrorKind.contract_invalid)
            (λ _.
              Keeps->>
                (Keeps-try_profiles EdgexErrorKind.server_error (λ c. Profiles.update c profile)
                  (λ c v. Derived.update-IsDerived c profile v))
                (Keeps-here _ (λ t. tell_users-Keeps profile.name (Devices.devices t.devices))))))

  pub delete_profile-Keeps :
      (name : String) → Keeps (Handlers.delete_profile outside dic duration changed_only name)
  unfolding Handlers.delete_profile
  delete_profile-Keeps name = Keeps-here _ (λ s.
      Keeps-if (any (λ (d : Device F). d.profile_name == name) (Devices.devices s.devices))
        Keeps-done
        (Keeps-try_profiles EdgexErrorKind.server_error (λ c. Profiles.remove_by_name c name)
          (λ c v. Derived.remove_by_name-IsDerived c name v)))

  pub add_provision_watcher-Keeps :
      (w : ProvisionWatcher F)
      → Keeps (Handlers.add_provision_watcher outside dic duration changed_only w)
  unfolding Handlers.add_provision_watcher
  add_provision_watcher-Keeps w = Keeps->> (sync_profile-Keeps w.profile_name) (
      Keeps-try_watchers EdgexErrorKind.server_error (λ c. ProvisionWatchers.add c w)
        (λ c v. Watchers.add-IsValid c w v))

  pub delete_provision_watcher-Keeps :
      (name : String)
      → Keeps (Handlers.delete_provision_watcher outside dic duration changed_only name)
  unfolding Handlers.delete_provision_watcher
  delete_provision_watcher-Keeps name =
      Keeps-try_watchers EdgexErrorKind.contract_invalid
        (λ c. ProvisionWatchers.remove_by_name c name)
        (λ c v. Watchers.remove_by_name-IsValid c name v)

  refresh_provision_watcher-Keeps :
      (w : ProvisionWatcher F)
      → Keeps (Handlers.refresh_provision_watcher outside dic duration changed_only w)
  unfolding Handlers.refresh_provision_watcher
  refresh_provision_watcher-Keeps w = Keeps->> (sync_profile-Keeps w.profile_name) (
      Keeps-try_watchers EdgexErrorKind.server_error (λ c. ProvisionWatchers.update c w)
        (λ c v. Watchers.update-IsValid c w v))

  pub update_provision_watcher-Keeps :
      (w : ProvisionWatcher F)
      → Keeps (Handlers.update_provision_watcher outside dic duration changed_only w)
  unfolding Handlers.update_provision_watcher
  update_provision_watcher-Keeps w =
      Keeps-if (w.name == "") (Keeps-refused EdgexErrorKind.contract_invalid) (
        Keeps-here _ (λ s.
          Keeps-found (ProvisionWatchers.for_name s.watchers w.name)
            (Keeps-if (Handlers.is_named s.service w.service_name) (add_provision_watcher-Keeps w)
              (delete_provision_watcher-Keeps w.name))
            (λ _.
              Keeps-if (Handlers.is_named s.service w.service_name)
                (refresh_provision_watcher-Keeps w) (delete_provision_watcher-Keeps w.name))))

  changed_service-Keeps :
      (name state : String) (labels : Option (List String)) (service : Option ServiceModel)
      → Keeps (Handlers.changed_service outside dic duration changed_only name state labels service)
  unfolding Handlers.changed_service Handlers.set_service
  changed_service-Keeps name state labels none = Keeps-refused EdgexErrorKind.not_found
  changed_service-Keeps name state labels (some service) =
      Keeps-if (service.name == name)
        (record {
          keeps = λ s v. record {
            devices = v.devices;
            profiles = v.profiles;
            watchers = v.watchers;
            manager = v.manager;
          };
        })
        (Keeps-refused EdgexErrorKind.not_found)

  pub update_device_service-Keeps :
      (name state : String) (labels : Option (List String))
      → Keeps (Handlers.update_device_service outside dic duration changed_only name state labels)
  unfolding Handlers.update_device_service
  update_device_service-Keeps name state labels =
      Keeps-here _ (λ s. changed_service-Keeps name state labels s.service)
