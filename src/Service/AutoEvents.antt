-- ===== src/Service/AutoEvents.antt =====
-- `add_device_auto_event` and `remove_device_auto_event` of the service, which change the device cache
-- and restart the auto events of the device.
use device_sdk_python.Base.{
  ◌≡◌, Bool, String, Option, none, some, List, [], ◌∷◌, ◌++◌, ◌==◌, any, if◌then◌else◌, Bool-cases,
  inl, inr,
}
use device_sdk_python.Raise.{Result, Outcome, ok, raise, edgex_error, EdgexErrorKind}
use device_sdk_python.Model.Metadata.{Device, AutoEvent}
use device_sdk_python.Cache.Devices
use device_sdk_python.Cache.Devices.{DeviceCache}
use device_sdk_python.Cache.Devices.Keys
use device_sdk_python.AutoEvent.Manager
use device_sdk_python.AutoEvent.Manager.{Manager}
use device_sdk_python.AutoEvent.Manager.Restarted.{executors_at, due, restart_for_device-due}

pub record Events (F : Type 0) : Type 0 where
  pub devices : DeviceCache F
  pub manager : Manager F

module _ {F : Type 0} (duration : String → Option (Result F)) (changed_only : Bool) where
  -- `_restart_auto_events`, after an update of the cache that may raise
  restarted : String → Manager F → Outcome (DeviceCache F) → Outcome (Events F)
  restarted device_name m (raise x, c) = (raise x, record { devices = c; manager = m })
  restarted device_name m (ok _, c) = (
    ok tt,
    record {
      devices = c;
      manager = Manager.restart_for_device duration changed_only c device_name m;
    },
  )

  -- An event of the same source is changed in the clone of the device only, so the cache stays.
  with_event : DeviceCache F → Device F → AutoEvent F → Outcome (DeviceCache F)
  with_event c device event =
      if any (λ e. e.source_name == event.source_name) device.auto_events
      then (ok tt, c)
      else Devices.update c (record device { auto_events = device.auto_events ++ event ∷ [] })

  add_to : String → AutoEvent F → Events F → Option (Device F) → Outcome (Events F)
  unfolding restarted with_event
  add_to device_name event s none = (raise (edgex_error EdgexErrorKind.not_found), s)
  add_to device_name event s (some device) =
      restarted device_name s.manager (with_event s.devices device event)

  unfoldable pub add_device_auto_event : String → AutoEvent F → Events F → Outcome (Events F)
  unfolding add_to
  add_device_auto_event device_name event s =
      add_to device_name event s (Devices.for_name s.devices device_name)

  -- the first event of the source goes
  without : String → List (AutoEvent F) → List (AutoEvent F)
  without source_name [] = []
  without source_name (e ∷ es) =
      let rest = without source_name es in if e.source_name == source_name then es else e ∷ rest

  remove_from : String → AutoEvent F → Events F → Option (Device F) → Outcome (Events F)
  unfolding restarted without
  remove_from device_name event s none = (raise (edgex_error EdgexErrorKind.not_found), s)
  remove_from device_name event s (some device) = restarted device_name s.manager (
      Devices.update s.devices
        (record device { auto_events = without event.source_name device.auto_events }))

  unfoldable pub remove_device_auto_event : String → AutoEvent F → Events F → Outcome (Events F)
  unfolding remove_from
  remove_device_auto_event device_name event s =
      remove_from device_name event s (Devices.for_name s.devices device_name)

  -- The manager has scheduled for a device what is due for it.
  IsScheduled : String → Events F → Type 0
  IsScheduled device_name s =
      executors_at duration changed_only s.manager.executors device_name
      ≡ due duration changed_only (Devices.for_name s.devices device_name)

  restarted-IsScheduled :
      (device_name : String) (m : Manager F) (o : Outcome (DeviceCache F))
      → Keys.IsValid o.1
      → (restarted device_name m o).0 ≡ ok tt
      → IsScheduled device_name (restarted device_name m o).1
  unfolding restarted IsScheduled
  restarted-IsScheduled device_name m (raise x, c) v e = cc
  restarted-IsScheduled device_name m (ok _, c) v e =
      restart_for_device-due duration changed_only c device_name m v

  with_event-IsValid :
      (c : DeviceCache F) (device : Device F) (event : AutoEvent F)
      → Keys.IsValid c
      → Keys.IsValid (with_event c device event).1
  unfolding with_event
  with_event-IsValid c device event v =
      elim (Bool-cases (any (λ e. e.source_name == event.source_name) device.auto_events)) [
        | inl old ↦ rw old v
        | inr new ↦ rw new (
            Keys.update-IsValid c (record device { auto_events = device.auto_events ++ event ∷ [] })
              v)
      ]

  add_to-IsScheduled :
      (device_name : String) (event : AutoEvent F) (s : Events F) (found : Option (Device F))
      → Keys.IsValid s.devices
      → (add_to device_name event s found).0 ≡ ok tt
      → IsScheduled device_name (add_to device_name event s found).1
  unfolding add_to
  add_to-IsScheduled device_name event s none v e = cc
  add_to-IsScheduled device_name event s (some device) v e =
      restarted-IsScheduled device_name s.manager (with_event s.devices device event)
        (with_event-IsValid s.devices device event v) e

  -- On a valid device cache, an add_device_auto_event that succeeds leaves scheduled for the device
  -- what is due for it then.
  add_device_auto_event-IsScheduled :
      (device_name : String) (event : AutoEvent F) (s : Events F)
      → Keys.IsValid s.devices
      → (add_device_auto_event device_name event s).0 ≡ ok tt
      → IsScheduled device_name (add_device_auto_event device_name event s).1
  unfolding add_device_auto_event
  add_device_auto_event-IsScheduled device_name event s v e =
      add_to-IsScheduled device_name event s (Devices.for_name s.devices device_name) v e

  remove_from-IsScheduled :
      (device_name : String) (event : AutoEvent F) (s : Events F) (found : Option (Device F))
      → Keys.IsValid s.devices
      → (remove_from device_name event s found).0 ≡ ok tt
      → IsScheduled device_name (remove_from device_name event s found).1
  unfolding remove_from
  remove_from-IsScheduled device_name event s none v e = cc
  remove_from-IsScheduled device_name event s (some device) v e =
      let left = record device { auto_events = without event.source_name device.auto_events } in
      restarted-IsScheduled device_name s.manager (Devices.update s.devices left)
        (Keys.update-IsValid s.devices left v) e

  -- The same for remove_device_auto_event.
  remove_device_auto_event-IsScheduled :
      (device_name : String) (event : AutoEvent F) (s : Events F)
      → Keys.IsValid s.devices
      → (remove_device_auto_event device_name event s).0 ≡ ok tt
      → IsScheduled device_name (remove_device_auto_event device_name event s).1
  unfolding remove_device_auto_event
  remove_device_auto_event-IsScheduled device_name event s v e =
      remove_from-IsScheduled device_name event s (Devices.for_name s.devices device_name) v e
