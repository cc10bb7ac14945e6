-- ===== src/Tests/Services.antt =====
-- The theorems on the methods of the service, at the small service.
use device_sdk_python.Base.{◌≡◌, refl, Bool, true, String, some, List, [], ◌∷◌, ◌==◌, eq_iff, arith}
use device_sdk_python.Base.Int.{ℤ}
use device_sdk_python.Base.Dict
use device_sdk_python.Raise.{Exn, raise, edgex_error, EdgexErrorKind}
use device_sdk_python.Cache.Devices
use device_sdk_python.Cache.Devices.Keys.{init-IsValid}
use device_sdk_python.Cache.Profiles
use device_sdk_python.Cache.Profiles.Derived.{init-IsDerived}
use device_sdk_python.Cache.Profiles.Named.{IsNamed}
use device_sdk_python.Cache.ProvisionWatchers
use device_sdk_python.Cache.ProvisionWatchers.Keys as WatcherKeys
use device_sdk_python.Cache.ProvisionWatchers.Keys.{run-init-IsValid}
use device_sdk_python.Service.State.{State, Outside, Call, Answer, metadata_error, on_devices}
use device_sdk_python.Service.Restores.{IsValid, Same}
use device_sdk_python.Service.Metadata
use device_sdk_python.Service.Entities
use device_sdk_python.Service.Transactions.{Operation, perform, perform-Same}
use device_sdk_python.Service.SystemEvents
use device_sdk_python.Service.SystemEvents.Deleted.{on_device_deleted-stays}
use device_sdk_python.Service.Discovered.{DiscoveredDevice}
use device_sdk_python.Tests.{pump, pumps, watcher}

-- Core Metadata fails
abbrev client : List (Call ℤ) → Call ℤ → Answer
client calls call = metadata_error

abbrev outside : Outside ℤ
outside = record { client = some client; driver = λ calls call. true; make_uid = λ calls. "id" }

abbrev state : State ℤ
state = record {
  devices = Devices.init (pump ∷ []);
  profiles = Profiles.init (pumps ∷ []);
  watchers = WatcherKeys.run (ProvisionWatchers.init (watcher ∷ [])) [];
  calls = [];
}

pumps-IsNamed : IsNamed (Profiles.init (pumps ∷ []))
unfolding Profiles.for_name Profiles.init Profiles.store Dict.get Dict.put
pumps-IsNamed = record {
  derived = init-IsDerived (pumps ∷ []);
  named = λ k p e. ground (arith, eq_iff "pumps" k, e);
}

state-IsValid : IsValid state
state-IsValid = record {
  devices = init-IsValid (pump ∷ []);
  profiles = pumps-IsNamed;
  watchers = run-init-IsValid (watcher ∷ []) [];
}

perform-Same_example :
    Same state (perform outside "service" (Operation.remove_device_by_name "pump") state).1
unfolding perform Entities.remove_device_by_name Metadata.delete_device_from_metadata
    Metadata.write_through Metadata.on_answer Devices.for_name Devices.init Devices.remove_by_name
    Devices.add Dict.get Dict.put Dict.has Dict.delete on_devices
perform-Same_example =
    perform-Same outside "service" (Operation.remove_device_by_name "pump") state
      (edgex_error EdgexErrorKind.server_error) state-IsValid refl

on_device_deleted-stays_example :
    (x : Exn) × ((SystemEvents.on_device_deleted outside "service"
        (edgex_error EdgexErrorKind.server_error)
        "pump"
        state).0
      ≡ raise x)
    × ((SystemEvents.on_device_deleted outside "service"
          (edgex_error EdgexErrorKind.server_error)
          "pump"
          state).1.calls
        ≡ Call.delete_device "pump" ∷ [])
    × Same state
        (SystemEvents.on_device_deleted outside "service"
          (edgex_error EdgexErrorKind.server_error)
          "pump"
          state).1
    × (Devices.for_name
          (SystemEvents.on_device_deleted outside "service"
            (edgex_error EdgexErrorKind.server_error)
            "pump"
            state).1.devices
          "pump"
        ≡ some pump)
unfolding Devices.for_name Devices.init Dict.get Dict.put
on_device_deleted-stays_example =
    on_device_deleted-stays outside "service" (edgex_error EdgexErrorKind.server_error) "pump" pump
      client state state-IsValid refl refl refl

abbrev re_match : String → String → Bool
re_match regex value = regex == value

abbrev discovered : DiscoveredDevice
discovered = record {
  name = "pump-2";
  protocols = ("http", ("kind", "pump") ∷ ("port", "81") ∷ []) ∷ [];
  description = "";
  labels = [];
}
