-- ===== src/Tests/Callbacks.antt =====
-- The theorems on the callbacks, at the small service.
use device_sdk_python.Base.{◌≡◌, ◌≢◌, refl, true, false, String, Option, none, some, List, [], ◌∷◌}
use device_sdk_python.Base.Int.{ℤ, pos}
use device_sdk_python.Base.Dict
use device_sdk_python.Raise.{Result, ok}
use device_sdk_python.Model.Metadata.{Device}
use device_sdk_python.Cache.Devices
use device_sdk_python.Cache.Devices.Keys.{init-IsValid}
use device_sdk_python.Cache.Profiles
use device_sdk_python.Cache.Profiles.Derived.{init-IsDerived}
use device_sdk_python.Cache.ProvisionWatchers
use device_sdk_python.Cache.ProvisionWatchers.Keys as WatcherKeys
use device_sdk_python.Cache.ProvisionWatchers.Keys.{run-init-IsValid}
use device_sdk_python.AutoEvent.Manager
use device_sdk_python.Callback.State.{
  State, Outside, Container, try_devices, call_driver, on_manager,
}
use device_sdk_python.Callback.Keeps.{IsConsistent}
use device_sdk_python.Callback.Handlers
use device_sdk_python.Callback.Handlers.Events
use device_sdk_python.Callback.Handlers.Events.{Event, run-IsConsistent}
use device_sdk_python.Callback.Handlers.Settled.{IsSettled}
use device_sdk_python.Callback.Handlers.Updated.{update_device-IsSettled}
use device_sdk_python.Callback.Handlers.InUse.{delete_profile-in_use}
use device_sdk_python.Tests.{pump, pumps, scheduled, watcher}

abbrev outside : Outside ℤ
outside = record { driver = λ calls call. true; client = λ calls name. some pumps }

abbrev dic : Container
dic = record { configuration = none; has_tracker = true; has_client = false }

abbrev duration : String → Option (Result ℤ)
duration interval = some (ok (pos 10))

-- the service before it schedules anything
abbrev state : State ℤ
state = record {
  devices = Devices.init (pump ∷ []);
  profiles = Profiles.init (pumps ∷ []);
  watchers = WatcherKeys.run (ProvisionWatchers.init (watcher ∷ [])) [];
  manager = some Manager.empty;
  service = some (record { name = "service"; admin_state = "UNLOCKED"; labels = [] });
  calls = [];
}

state-IsConsistent : IsConsistent state
state-IsConsistent = record {
  devices = init-IsValid (pump ∷ []);
  profiles = init-IsDerived (pumps ∷ []);
  watchers = run-init-IsValid (watcher ∷ []) [];
  manager = record { tracked = tt };
}

abbrev events : List (Event ℤ)
events =
    Event.update_device scheduled
    ∷ Event.add_device pump
    ∷ Event.update_profile pumps
    ∷ Event.delete_provision_watcher "pumps-watcher"
    ∷ Event.delete_device "pump"
    ∷ []

run-IsConsistent_example : IsConsistent (Events.run outside dic duration true events state)
run-IsConsistent_example =
    run-IsConsistent outside dic duration true events state state-IsConsistent

update_device-IsSettled_example :
    IsSettled duration true "pump"
      (some scheduled)
      (Handlers.update_device outside dic duration true scheduled state).1
unfolding Devices.for_name Devices.init Dict.get Dict.put Devices.update Devices.add
    Devices.remove_by_name Dict.has Dict.delete Handlers.update_device try_devices call_driver
    on_manager
update_device-IsSettled_example =
    update_device-IsSettled outside dic duration true scheduled state state-IsConsistent refl

delete_profile-in_use_example :
    ((k : String) (d : Device ℤ)
      → Devices.for_name state.devices k ≡ some d
      → Profiles.for_name
          (Handlers.delete_profile outside dic duration true "pumps" state).1.profiles
          d.profile_name
        ≡ Profiles.for_name state.profiles d.profile_name)
    × (((k : String) (d : Device ℤ)
          → Devices.for_name state.devices k ≡ some d
          → d.profile_name ≢ "pumps")
        → Profiles.for_name state.profiles "pumps" ≢ none
        → ((Handlers.delete_profile outside dic duration true "pumps" state).0 ≡ ok tt)
          × (Profiles.for_name
                (Handlers.delete_profile outside dic duration true "pumps" state).1.profiles
                "pumps"
              ≡ none))
delete_profile-in_use_example =
    delete_profile-in_use outside dic duration true "pumps" state state-IsConsistent
