-- ===== src/Callback/Keeps.antt =====
-- The invariant of the state of the callbacks, and the rules by which a handler keeps it: those of the
-- three caches, and that of the auto event manager.
use device_sdk_python.Base.{◌≡◌, refl, Bool, true, false, Option, none, some, if◌then◌else◌}
use device_sdk_python.Raise.{Outcome, ok, raise, after, EdgexErrorKind}
use device_sdk_python.Cache.Devices.{DeviceCache}
use device_sdk_python.Cache.Devices.Keys
use device_sdk_python.Cache.Profiles.{DeviceProfileCache}
use device_sdk_python.Cache.Profiles.Derived
use device_sdk_python.Cache.ProvisionWatchers.{ProvisionWatcherCache}
use device_sdk_python.Cache.ProvisionWatchers.Keys as Watchers
use device_sdk_python.AutoEvent.Manager.{Manager}
use device_sdk_python.AutoEvent.Manager.Tracked
use device_sdk_python.Callback.State.{
  State, Outside, Handler, Call, done, refused, when, found, here, or_error, try_devices,
  try_profiles, try_watchers, note, call_driver, on_manager, on_some, answered, ◌>>◌,
}

-- If there is a manager, its threads that are not stopped are those of listed executors.
abbrev pub ManagerIsTracked : {F : Type 0} → Option (Manager F) → Type 0
ManagerIsTracked none = Unit
ManagerIsTracked (some m) = Tracked.IsTracked m

pub record IsConsistent {F : Type 0} (s : State F) : Type 0 where
  pub devices : Keys.IsValid s.devices
  pub profiles : Derived.IsDerived s.profiles
  pub watchers : Watchers.IsValid s.watchers
  pub manager : ManagerIsTracked s.manager

-- A handler that keeps the invariant, and one rule for each way to build it.
pub record Keeps {F : Type 0} (h : Handler F) : Type 0 where
  pub keeps : (s : State F) → IsConsistent s → IsConsistent (h s).1

or_error-state : {S : Type 0} (kind : EdgexErrorKind) (o : Outcome S) → (or_error kind o).1 ≡ o.1
or_error-state kind (ok u, c) = refl
or_error-state kind (raise x, c) = refl

module _ {F : Type 0} where
  pub Keeps-done : Keeps {F = F} done
  Keeps-done = record { keeps = λ s v. v }

  pub Keeps-refused : (kind : EdgexErrorKind) → Keeps {F = F} (refused kind)
  Keeps-refused kind = record { keeps = λ s v. v }

  after-Keeps :
      (o : Outcome (State F)) (k : Handler F)
      → Keeps k
      → IsConsistent o.1
      → IsConsistent (after o k).1
  after-Keeps (ok u, s) k h v = h.keeps s v
  after-Keeps (raise x, s) k h v = v

  pub Keeps->> : {m k : Handler F} → Keeps m → Keeps k → Keeps (m >> k)
  Keeps->> {m = m} {k = k} h h' = record { keeps = λ s v. after-Keeps (m s) k h' (h.keeps s v) }

  pub Keeps-when : (test : Bool) {m : Handler F} → Keeps m → Keeps (when test m)
  Keeps-when true h = h
  Keeps-when false h = Keeps-done

  pub Keeps-if : (test : Bool) {m k : Handler F} → Keeps m → Keeps k → Keeps (if test then m else k)
  Keeps-if true h h' = h
  Keeps-if false h h' = h'

  pub Keeps-found :
      {A : Type 0} (o : Option A) {m : Handler F} {k : A → Handler F}
      → Keeps m
      → ((a : A) → Keeps (k a))
      → Keeps (found o m k)
  Keeps-found none h h' = h
  Keeps-found (some a) h h' = h' a

  pub Keeps-here : (h : State F → Handler F) → ((s : State F) → Keeps (h s)) → Keeps (here h)
  Keeps-here h k = record { keeps = λ s v. (k s).keeps s v }

  pub Keeps-try_devices :
      (kind : EdgexErrorKind) (method : DeviceCache F → Outcome (DeviceCache F))
      → ((c : DeviceCache F) → Keys.IsValid c → Keys.IsValid (method c).1)
      → Keeps (try_devices kind method)
  unfolding try_devices
  Keeps-try_devices kind method h = record {
    keeps = λ s v. record {
      devices = rw (or_error-state kind (method s.devices)) (h s.devices v.devices);
      profiles = v.profiles;
      watchers = v.watchers;
      manager = v.manager;
    };
  }

  pub Keeps-try_profiles :
      (kind : EdgexErrorKind) (method : DeviceProfileCache F → Outcome (DeviceProfileCache F))
      → ((c : DeviceProfileCache F) → Derived.IsDerived c → Derived.IsDerived (method c).1)
      → Keeps (try_profiles kind method)
  unfolding try_profiles
  Keeps-try_profiles kind method h = record {
    keeps = λ s v. record {
      devices = v.devices;
      profiles = rw (or_error-state kind (method s.profiles)) (h s.profiles v.profiles);
      watchers = v.watchers;
      manager = v.manager;
    };
  }

  pub Keeps-try_watchers :
      (kind : EdgexErrorKind) (method : ProvisionWatcherCache F → Outcome (ProvisionWatcherCache F))
      → ((c : ProvisionWatcherCache F) → Watchers.IsValid c → Watchers.IsValid (method c).1)
      → Keeps (try_watchers kind method)
  unfolding try_watchers
  Keeps-try_watchers kind method h = record {
    keeps = λ s v. record {
      devices = v.devices;
      profiles = v.profiles;
      watchers = rw (or_error-state kind (method s.watchers)) (h s.watchers v.watchers);
      manager = v.manager;
    };
  }

  pub Keeps-note : (call : Call) → Keeps {F = F} (note call)
  unfolding note
  Keeps-note call = record {
    keeps = λ s v. record {
      devices = v.devices;
      profiles = v.profiles;
      watchers = v.watchers;
      manager = v.manager;
    };
  }

  answered-IsConsistent :
      (answer : Bool) (s : State F) → IsConsistent s → IsConsistent (answered answer s).1
  answered-IsConsistent true s v = v
  answered-IsConsistent false s v = v

  pub Keeps-call_driver : (outside : Outside F) (call : Call) → Keeps (call_driver outside call)
  unfolding call_driver note
  Keeps-call_driver outside call = record {
    keeps = λ s v.
        answered-IsConsistent (outside.driver s.calls call) (note call s).1
          ((Keeps-note call).keeps s v);
  }

  on_some-IsTracked :
      (manager : Option (Manager F)) (f : Manager F → Manager F)
      → ((m : Manager F) → Tracked.IsTracked m → Tracked.IsTracked (f m))
      → ManagerIsTracked manager
      → ManagerIsTracked (on_some manager f)
  on_some-IsTracked none f h v = tt
  on_some-IsTracked (some m) f h v = h m v

  pub Keeps-on_manager :
      (f : Manager F → Manager F)
      → ((m : Manager F) → Tracked.IsTracked m → Tracked.IsTracked (f m))
      → Keeps (on_manager f)
  unfolding on_manager
  Keeps-on_manager f h = record {
    keeps = λ s v. record {
      devices = v.devices;
      profiles = v.profiles;
      watchers = v.watchers;
      manager = on_some-IsTracked s.manager f h v.manager;
    };
  }
