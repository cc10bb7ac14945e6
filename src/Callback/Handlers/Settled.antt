-- ===== src/Callback/Handlers/Settled.antt =====
-- What the callbacks on a device leave when they succeed: the device in the cache or not, and its
-- auto events scheduled or not.
use device_sdk_python.Base.{◌≡◌, refl, Bool, String, Option, none, some, [], eq_refl, ap, sym, ◌∙◌}
use device_sdk_python.Raise.{Result, Outcome, ok, raise, EdgexErrorKind}
use device_sdk_python.Model.Metadata.{Device}
use device_sdk_python.Cache.Devices
use device_sdk_python.Cache.Devices.{DeviceCache}
use device_sdk_python.Cache.Devices.Keys
use device_sdk_python.Cache.Devices.After.{for_name-remove_by_name}
use device_sdk_python.AutoEvent.Manager
use device_sdk_python.AutoEvent.Manager.{Manager}
use device_sdk_python.AutoEvent.Manager.Tracked
use device_sdk_python.AutoEvent.Manager.Restarted
use device_sdk_python.AutoEvent.Manager.Restarted.{executors_at, due}
use device_sdk_python.Callback.State.{
  State, Outside, Container, or_error, try_devices, on_manager, on_some, ◌>>◌,
}
use device_sdk_python.Callback.Keeps.{Keeps, IsConsistent, Keeps-try_devices, Keeps-on_manager}
use device_sdk_python.Callback.Ensures.{Ensures, Frames}
use device_sdk_python.Callback.Handlers

or_error-ok :
    {S : Type 0} (kind : EdgexErrorKind) (o : Outcome S)
    → (or_error kind o).0 ≡ ok tt
    → (o.0 ≡ ok tt) × ((or_error kind o).1 ≡ o.1)
or_error-ok kind (ok u, c) e = (e, refl)
or_error-ok kind (raise x, c) e = cc

-- The state is consistent, and the cache holds this under the name.
pub record Holds {F : Type 0} (name : String) (o : Option (Device F)) (s : State F) : Type 0 where
  pub consistent : IsConsistent s
  pub held : Devices.for_name s.devices name ≡ o

module _ {F : Type 0} (duration : String → Option (Result F)) (changed_only : Bool) where
  -- Besides, the manager, if there is one, has scheduled for the name what the cache says is due.
  pub record IsSettled (name : String) (o : Option (Device F)) (s : State F) : Type 0 where
    pub holds : Holds name o s
    pub scheduled :
        (m : Manager F)
        → s.manager ≡ some m
        → executors_at duration changed_only m.executors name ≡ due duration changed_only o

module _ {F : Type 0} where
  pub stop-Keeps : (name : String) → Keeps {F = F} (on_manager (Manager.stop_for_device name))
  stop-Keeps name =
      Keeps-on_manager (Manager.stop_for_device name)
        (λ m v. (Tracked.stop_for_device-IsTracked m name v).0)

  pub IsConsistent-Frames : Frames {F = F} IsConsistent
  IsConsistent-Frames = record {
    frame = λ s calls v. record {
      devices = v.devices;
      profiles = v.profiles;
      watchers = v.watchers;
      manager = v.manager;
    };
  }

  pub Holds-Frames : (name : String) (o : Option (Device F)) → Frames (Holds name o)
  Holds-Frames name o = record {
    frame = λ s calls h. record {
      consistent = IsConsistent-Frames.frame s calls h.consistent;
      held = h.held;
    };
  }

  -- A method of the cache that succeeds leaves what it puts under the name.
  pub Ensures-try_devices :
      (kind : EdgexErrorKind) (method : DeviceCache F → Outcome (DeviceCache F)) (name : String)
      (o : Option (Device F))
      → ((c : DeviceCache F) → Keys.IsValid c → Keys.IsValid (method c).1)
      → ((c : DeviceCache F) → (method c).0 ≡ ok tt → Devices.for_name (method c).1 name ≡ o)
      → Ensures IsConsistent (Holds name o) (try_devices kind method)
  unfolding try_devices
  Ensures-try_devices kind method name o keeps leaves = record {
    at = λ s v e.
        let (succeeded, same) = or_error-ok kind (method s.devices) e in
        record {
          consistent = (Keeps-try_devices kind method keeps).keeps s v;
          held = rw same (leaves s.devices succeeded);
        };
  }

module _ {F : Type 0} (duration : String → Option (Result F)) (changed_only : Bool) where
  pub IsSettled-Frames :
      (name : String) (o : Option (Device F)) → Frames (IsSettled duration changed_only name o)
  IsSettled-Frames name o = record {
    frame = λ s calls h. record {
      holds = (Holds-Frames name o).frame s calls h.holds;
      scheduled = h.scheduled;
    };
  }

  some-on_some :
      (manager : Option (Manager F)) (f : Manager F → Manager F) (m : Manager F)
      → on_some manager f ≡ some m
      → (before : Manager F) × (f before ≡ m)
  some-on_some none f m e = cc
  some-on_some (some before) f m e = (before, cc)

  -- `restart_for_device` settles the device.
  pub Ensures-restart :
      (outside : Outside F) (dic : Container) (name : String) (o : Option (Device F))
      → Ensures
          (Holds name o)
          (IsSettled duration changed_only name o)
          (Handlers.restart_auto_events outside dic duration changed_only name)
  unfolding Handlers.restart_auto_events on_manager
  Ensures-restart outside dic name o = record {
    at = λ s h e. record {
      holds = record {
        consistent =
            let restart =
              Keeps-on_manager (Manager.restart_for_device duration changed_only s.devices name)
                (λ m v.
                  Tracked.restart_for_device-IsTracked duration changed_only s.devices name m v) in
            restart.keeps s h.consistent;
        held = h.held;
      };
      scheduled = λ m e.
          let (before, p) =
            some-on_some s.manager (Manager.restart_for_device duration changed_only s.devices name)
              m e in
          rw (← p) (
            Restarted.restart_for_device-due duration changed_only s.devices name before
              h.consistent.devices
            ∙ ap (due duration changed_only) h.held);
    };
  }

  -- `stop_for_device` settles a device for which nothing is due.
  pub Ensures-stop :
      (name : String) (o : Option (Device F))
      → due duration changed_only o ≡ []
      → Ensures
          (Holds name o)
          (IsSettled duration changed_only name o)
          (on_manager (Manager.stop_for_device name))
  unfolding on_manager
  Ensures-stop name o nothing = record {
    at = λ s h e. record {
      holds = record { consistent = (stop-Keeps name).keeps s h.consistent; held = h.held };
      scheduled = λ m e.
          let (before, p) = some-on_some s.manager (Manager.stop_for_device name) m e in
          rw (← p) (Restarted.stop-executors_at duration changed_only before name ∙ sym nothing);
    };
  }

  -- Stopped first and removed then: nothing is due for a device that is not there.
  pub Ensures-stop-remove :
      (kind : EdgexErrorKind) (name : String)
      → Ensures IsConsistent (IsSettled duration changed_only name none) (
          on_manager (Manager.stop_for_device name)
          >> try_devices kind (λ c. Devices.remove_by_name c name))
  unfolding on_manager try_devices due
  Ensures-stop-remove kind name = record {
    at = λ s v e.
        let (succeeded, same) = or_error-ok kind (Devices.remove_by_name s.devices name) e in
        record {
          holds = record {
            consistent =
                (Keeps-try_devices kind (λ c. Devices.remove_by_name c name)
                    (λ c w. Keys.remove_by_name-IsValid c name w)).keeps
                  (on_manager (Manager.stop_for_device name) s).1 ((stop-Keeps name).keeps s v);
            held =
                rw same (for_name-remove_by_name s.devices name name succeeded ∙ rw eq_refl refl);
          };
          scheduled = λ m p.
              let (before, q) = some-on_some s.manager (Manager.stop_for_device name) m p in
              rw (← q) (Restarted.stop-executors_at duration changed_only before name);
        };
  }
