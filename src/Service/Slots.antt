-- ===== src/Service/Slots.antt =====
-- The three caches as slots of the state of the service.
use device_sdk_python.Base.{◌≡◌, refl, String, some}
use device_sdk_python.Raise.{Outcome}
use device_sdk_python.Model.Metadata.{Device, DeviceProfile, ProvisionWatcher}
use device_sdk_python.Cache.Devices
use device_sdk_python.Cache.Devices.{DeviceCache}
use device_sdk_python.Cache.Devices.Keys
use device_sdk_python.Cache.Devices.After
use device_sdk_python.Cache.Profiles
use device_sdk_python.Cache.Profiles.{DeviceProfileCache}
use device_sdk_python.Cache.Profiles.Derived
use device_sdk_python.Cache.Profiles.Named
use device_sdk_python.Cache.ProvisionWatchers
use device_sdk_python.Cache.ProvisionWatchers.{ProvisionWatcherCache}
use device_sdk_python.Cache.ProvisionWatchers.Keys as WatcherKeys
use device_sdk_python.Cache.ProvisionWatchers.After as WatcherAfter
use device_sdk_python.Service.State.{State, on_devices, on_profiles, on_watchers}
use device_sdk_python.Service.Slot.{Slot}

module _ {F : Type 0} where
  pub on_devices_lem :
      (method : DeviceCache F → Outcome (DeviceCache F)) (s : State F)
      → on_devices method s
        ≡ ((method s.devices).0, record s { devices = (method s.devices).1; calls = s.calls })
  unfolding on_devices
  on_devices_lem method s = refl

  pub on_profiles_lem :
      (method : DeviceProfileCache F → Outcome (DeviceProfileCache F)) (s : State F)
      → on_profiles method s
        ≡ ((method s.profiles).0, record s { profiles = (method s.profiles).1; calls = s.calls })
  unfolding on_profiles
  on_profiles_lem method s = refl

  pub on_watchers_lem :
      (method : ProvisionWatcherCache F → Outcome (ProvisionWatcherCache F)) (s : State F)
      → on_watchers method s
        ≡ ((method s.watchers).0, record s { watchers = (method s.watchers).1; calls = s.calls })
  unfolding on_watchers
  on_watchers_lem method s = refl

  pub device-named :
      (c : DeviceCache F) (k : String) (d : Device F)
      → Keys.IsValid c
      → Devices.for_name c k ≡ some d
      → d.name ≡ k
  unfolding Devices.for_name
  device-named c k d v e = v.named k d e

  pub watcher-named :
      (c : ProvisionWatcherCache F) (k : String) (w : ProvisionWatcher F)
      → WatcherKeys.IsValid c
      → ProvisionWatchers.for_name c k ≡ some w
      → w.name ≡ k
  unfolding ProvisionWatchers.for_name
  watcher-named c k w v e = v.named k w e

  abbrev pub device_slot : Slot F (DeviceCache F) (Device F)
  device_slot = record {
    get = λ s. s.devices;
    put = λ s c calls. record s { devices = c; calls = calls };
    on = on_devices;
    on_lem = on_devices_lem;
    get-put = λ s c calls. refl;
    put-put = λ s c c' calls calls'. refl;
    calls-put = λ s c calls calls'. refl;
    put-get = λ s. refl;
    name = λ d. d.name;
    for_name = Devices.for_name;
    add = Devices.add;
    update = Devices.update;
    remove_by_name = Devices.remove_by_name;
    IsValid = Keys.IsValid;
    named = device-named;
    for_name-add = λ c d v new.
        let done = After.add-ok c d new in
        (done, Keys.add-IsValid c d v, λ k. After.for_name-add c d k done);
    for_name-update = λ c d e v old.
        let done = After.update-ok c d e old in
        (done, Keys.update-IsValid c d v, λ k. After.for_name-update c d k done);
    for_name-remove = λ c n d v old.
        let done = After.remove_by_name-ok c n d old in
        (done, Keys.remove_by_name-IsValid c n v, λ k. After.for_name-remove_by_name c n k done);
  }

  abbrev pub profile_slot : Slot F (DeviceProfileCache F) (DeviceProfile F)
  profile_slot = record {
    get = λ s. s.profiles;
    put = λ s c calls. record s { profiles = c; calls = calls };
    on = on_profiles;
    on_lem = on_profiles_lem;
    get-put = λ s c calls. refl;
    put-put = λ s c c' calls calls'. refl;
    calls-put = λ s c calls calls'. refl;
    put-get = λ s. refl;
    name = λ p. p.name;
    for_name = Profiles.for_name;
    add = Profiles.add;
    update = Profiles.update;
    remove_by_name = Profiles.remove_by_name;
    IsValid = Named.IsNamed;
    named = λ c k p v e. v.named k p e;
    for_name-add = λ c p v new.
        let (done, found) = Named.for_name-add c p new in
        (
          done,
          Named.IsNamed-set c (Profiles.add c p).1 p v (Derived.add-IsDerived c p v.derived) found,
          found,
        );
    for_name-update = λ c p q v old.
        let (done, found) = Named.for_name-update c p q v.derived old in
        (
          done,
          Named.IsNamed-set c (Profiles.update c p).1 p v (Derived.update-IsDerived c p v.derived)
              found,
          found,
        );
    for_name-remove = λ c n p v old.
        let (done, found) = Named.for_name-remove c n p v.derived old in
        (
          done,
          Named.IsNamed-unset c (Profiles.remove_by_name c n).1 n v
              (Derived.remove_by_name-IsDerived c n v.derived) found,
          found,
        );
  }

  abbrev pub watcher_slot : Slot F (ProvisionWatcherCache F) (ProvisionWatcher F)
  watcher_slot = record {
    get = λ s. s.watchers;
    put = λ s c calls. record s { watchers = c; calls = calls };
    on = on_watchers;
    on_lem = on_watchers_lem;
    get-put = λ s c calls. refl;
    put-put = λ s c c' calls calls'. refl;
    calls-put = λ s c calls calls'. refl;
    put-get = λ s. refl;
    name = λ w. w.name;
    for_name = ProvisionWatchers.for_name;
    add = ProvisionWatchers.add;
    update = ProvisionWatchers.update;
    remove_by_name = ProvisionWatchers.remove_by_name;
    IsValid = WatcherKeys.IsValid;
    named = watcher-named;
    for_name-add = λ c w v new.
        let (done, found) = WatcherAfter.for_name-add c w new in
        (done, WatcherKeys.add-IsValid c w v, found);
    for_name-update = λ c w x v old.
        let (done, found) = WatcherAfter.for_name-update c w x old in
        (done, WatcherKeys.update-IsValid c w v, found);
    for_name-remove = λ c n w v old.
        let (done, found) = WatcherAfter.for_name-remove c n w old in
        (done, WatcherKeys.remove_by_name-IsValid c n v, found);
  }
