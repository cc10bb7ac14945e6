-- ===== src/AutoEvent/Manager.antt =====
-- `AutoEventManager` of internal/autoevent/manager.py: the executors that it holds for each device, and
-- the threads of the executors that have been started. An executor is an object, so it has an identity,
-- the number of executors created before it. A thread is there from its start on; that it ends after its
-- `_stop_event` is set, at the next check of its loop, is not modelled.
pub mod Tracked
pub mod Stopped
pub mod Restarted
use device_sdk_python.Base.{
  ℕ, ◌+◌, Bool, true, false, not, ◌||◌, String, Option, none, some, List, [], ◌∷◌, ◌++◌, ◌==◌,
  nat_eq, if◌then◌else◌,
}
use device_sdk_python.Base.Dict
use device_sdk_python.Base.Dict.{Dict}
use device_sdk_python.Raise.{Result, ok, raise}
use device_sdk_python.Model.Metadata.{Device, AutoEvent, admin_state_locked}
use device_sdk_python.Cache.Devices
use device_sdk_python.Cache.Devices.{DeviceCache}
use device_sdk_python.AutoEvent.Executor.{Executor, create_executor}

pub record Scheduled (F : Type 0) : Type 0 where
  pub id : ℕ
  pub executor : Executor F

-- a thread, with whether the `_stop_event` of its executor is set
pub record Thread (F : Type 0) : Type 0 where
  pub scheduled : Scheduled F
  pub stop_event : Bool

-- `executors` is `_executors`
pub record Manager (F : Type 0) : Type 0 where
  pub executors : Dict (List (Scheduled F))
  pub threads : List (Thread F)
  pub created : ℕ

-- `self._executors.pop(device_name, [])`, and `setdefault(device.name, [])`
abbrev pub or_empty : {A : Type 0} → Option (List A) → List A
or_empty none = []
or_empty (some l) = l

module _ {F : Type 0} where
  abbrev pub empty : Manager F
  empty = record { executors = []; threads = []; created = 0 }

  -- `executor.stop()` sets the event
  stop : Scheduled F → List (Thread F) → List (Thread F)
  stop e [] = []
  stop e (t ∷ ts) =
      (if nat_eq t.scheduled.id e.id then record t { stop_event = true } else t) ∷ stop e ts

  unfoldable pub stop_each : List (Scheduled F) → List (Thread F) → List (Thread F)
  unfolding stop
  stop_each [] threads = threads
  stop_each (e ∷ es) threads = stop_each es (stop e threads)

  unfoldable pub stop_for_device : String → Manager F → Manager F
  unfolding stop_each
  stop_for_device device_name m = record m {
    executors = Dict.delete m.executors device_name;
    threads = stop_each (or_empty (Dict.get m.executors device_name)) m.threads;
  }

  stop_entries : List (List (Scheduled F)) → List (Thread F) → List (Thread F)
  unfolding stop_each
  stop_entries [] threads = threads
  stop_entries (es ∷ entries) threads = stop_entries entries (stop_each es threads)

  unfoldable pub stop_all : Manager F → Manager F
  unfolding stop_entries
  stop_all m = record m {
    executors = [];
    threads = stop_entries (Dict.values m.executors) m.threads;
  }

  -- `device_executors.append(executor)` to the list that the map holds, and `executor.start()`
  start : String → Executor F → Manager F → Manager F
  start device_name executor m =
      let e : Scheduled F = record { id = m.created; executor = executor } in
      record {
        executors =
            Dict.put m.executors device_name
              (or_empty (Dict.get m.executors device_name) ++ e ∷ []);
        threads = record { scheduled = e; stop_event = false } ∷ m.threads;
        created = m.created + 1;
      }

  -- an `AutoEventError` is logged, and the loop goes on
  start_created : String → Result (Executor F) → Manager F → Manager F
  unfolding start
  start_created device_name (raise x) m = m
  start_created device_name (ok executor) m = start device_name executor m

  -- `parse_duration` of an interval, and the option `send_changed_readings_only`
  module _ (duration : String → Option (Result F)) (changed_only : Bool) where
    start_events : String → List (AutoEvent F) → Manager F → Manager F
    unfolding start_created create_executor
    start_events device_name [] m = m
    start_events device_name (event ∷ events) m = start_events device_name events (
        if event.source_name == ""
        then m
        else start_created device_name
            (create_executor device_name event changed_only (duration event.interval)) m)

    -- `setdefault(device.name, [])`
    entered : String → Manager F → Manager F
    entered device_name m = record m {
      executors =
          if Dict.has m.executors device_name
          then m.executors
          else Dict.put m.executors device_name [];
    }

    -- from the first test of `_start_for_device` on
    start_listed : Device F → List (AutoEvent F) → Manager F → Manager F
    unfolding start_events entered
    start_listed device [] m = m
    start_listed device (event ∷ events) m =
        if device.admin_state == admin_state_locked || device.operating_state == "DOWN"
        then m
        else start_events device.name (event ∷ events) (entered device.name m)

    -- `_start_for_device`
    unfoldable pub start_for_device : Device F → Manager F → Manager F
    unfolding start_listed
    start_for_device device m = start_listed device device.auto_events m

    start_found : Option (Device F) → Manager F → Manager F
    unfolding start_for_device
    start_found none m = m
    start_found (some device) m = start_for_device device m

    unfoldable pub restart_for_device : DeviceCache F → String → Manager F → Manager F
    unfolding stop_for_device start_found
    restart_for_device devices device_name m =
        start_found (Devices.for_name devices device_name) (stop_for_device device_name m)

    start_all : List (Device F) → Manager F → Manager F
    unfolding start_for_device
    start_all [] m = m
    start_all (device ∷ devices) m = start_all devices (start_for_device device m)

    -- the executors are dropped from the map, and not stopped
    unfoldable pub start_auto_events : DeviceCache F → Manager F → Manager F
    unfolding start_all
    start_auto_events devices m = start_all (Devices.devices devices) (record m { executors = [] })
