-- ===== src/Tests/Caches.antt =====
-- The theorems on the caches and on the values, at the small service.
use device_sdk_python.Base.{
  ◌≡◌, ◌≢◌, ◌↔◌, ◌⊎◌, refl, true, String, none, some, List, [], ◌∷◌, ◌==◌, if◌then◌else◌,
}
use device_sdk_python.Base.Int.{ℤ, pos}
use device_sdk_python.Base.Dict.{get-empty}
use device_sdk_python.Raise.{ok, raise, cache_error, entity_does_not_exist}
use device_sdk_python.Model.ValueType.{ValueType}
use device_sdk_python.Model.Value.{Value}
use device_sdk_python.Model.Metadata.{Device}
use device_sdk_python.Model.CommandValue.{validate, create_command_value, typed_value}
use device_sdk_python.Model.CommandValue.TypedValues.{typed_value-create}
use device_sdk_python.Cache.Devices
use device_sdk_python.Cache.Devices.{DeviceCache}
use device_sdk_python.Cache.Devices.Registry
use device_sdk_python.Cache.Devices.Registry.{Shows, step, promise, run, run-refines}
use device_sdk_python.Cache.Devices.Keys
use device_sdk_python.Cache.Devices.Keys.{init-IsValid, run-IsValid, check_profile_not_used_iff}
use device_sdk_python.Cache.Profiles
use device_sdk_python.Cache.Profiles.{DeviceProfileCache}
use device_sdk_python.Cache.Profiles.Derived
use device_sdk_python.Cache.Profiles.Derived.{run-IsDerived, init-IsDerived, update_lem}
use device_sdk_python.Cache.Profiles.Lookups.{
  find_last, bind_option, device_resource_lem, device_command_lem,
}
use device_sdk_python.Cache.ProvisionWatchers
use device_sdk_python.Cache.ProvisionWatchers.Keys as WatcherKeys
use device_sdk_python.Cache.ProvisionWatchers.Keys.{run-init-IsValid}
use device_sdk_python.Tests.{pump, pumps, watcher, seven}

abbrev calls : List (Registry.Call ℤ)
calls =
    Registry.Call.add pump
    ∷ Registry.Call.add pump
    ∷ Registry.Call.update_admin_state "pump" "LOCKED"
    ∷ Registry.Call.remove_by_name "valve"
    ∷ []

abbrev devices : DeviceCache ℤ
devices = Devices.init (pump ∷ [])

abbrev profile_calls : List (Derived.Call ℤ)
profile_calls = Derived.Call.update pumps ∷ Derived.Call.remove_by_name "valves" ∷ []

abbrev profiles : DeviceProfileCache ℤ
profiles = Profiles.init (pumps ∷ [])

run-refines_example :
    ((run step Devices.empty calls).0 ≡ (run promise (λ name. none) calls).0)
    × Shows (run step Devices.empty calls).1 (run promise (λ name. none) calls).1
unfolding Devices.for_name
run-refines_example = run-refines calls Devices.empty (λ name. none) (λ j. get-empty j)

run-IsValid_example : Keys.IsValid (run step devices calls).1
run-IsValid_example = run-IsValid calls devices (init-IsValid (pump ∷ []))

check_profile_not_used_iff_example :
    (Devices.check_profile_not_used (some devices) "pumps" ≡ true)
    ↔ ((k : String) (d : Device ℤ) → Devices.for_name devices k ≡ some d → d.profile_name ≢ "pumps")
check_profile_not_used_iff_example =
    check_profile_not_used_iff devices "pumps" (init-IsValid (pump ∷ []))

run-IsDerived_example : Derived.IsDerived (Derived.run profiles profile_calls)
run-IsDerived_example = run-IsDerived profile_calls profiles (init-IsDerived (pumps ∷ []))

device_resource_lem_example :
    Profiles.device_resource profiles "pumps" "level"
    ≡ bind_option
        (Profiles.for_name profiles "pumps")
        (λ p. find_last (λ dr. dr.name) "level" p.device_resources)
device_resource_lem_example =
    device_resource_lem profiles "pumps" "level" (init-IsDerived (pumps ∷ []))

device_command_lem_example :
    Profiles.device_command profiles "pumps" "fill"
    ≡ bind_option
        (Profiles.for_name profiles "pumps")
        (λ p. find_last (λ dc. dc.name) "fill" p.device_commands)
device_command_lem_example =
    device_command_lem profiles "pumps" "fill" (init-IsDerived (pumps ∷ []))

update_lem_example :
    ((Profiles.for_name profiles "pumps" ≡ none)
      × (Profiles.update profiles pumps ≡ (raise (cache_error entity_does_not_exist), profiles)))
    ⊎ ((Profiles.for_name profiles "pumps" ≢ none)
        × ((Profiles.update profiles pumps).0 ≡ ok tt)
        × ((k : String)
            → Profiles.for_name (Profiles.update profiles pumps).1 k
              ≡ (if "pumps" == k then some pumps else Profiles.for_name profiles k)))
update_lem_example = update_lem profiles pumps (init-IsDerived (pumps ∷ []))

typed_value-create_example : typed_value ValueType.uint8 seven ≡ ok (Value.int (pos 7))
unfolding create_command_value validate
typed_value-create_example =
    typed_value-create {F = ℤ} "level" ValueType.uint8 (Value.int (pos 7)) {cv = seven} refl refl

abbrev watcher_calls : List (WatcherKeys.Call ℤ)
watcher_calls =
    WatcherKeys.Call.add watcher
    ∷ WatcherKeys.Call.update_admin_state "pumps-watcher" "LOCKED"
    ∷ WatcherKeys.Call.remove_by_name "valves-watcher"
    ∷ []

run-init-IsValid_example :
    WatcherKeys.IsValid (WatcherKeys.run (ProvisionWatchers.init (watcher ∷ [])) watcher_calls)
run-init-IsValid_example = run-init-IsValid (watcher ∷ []) watcher_calls
