-- ===== src/Callback/Handlers/Events.antt =====
-- Sequences of system events.
use device_sdk_python.Base.{Bool, String, Option, List, [], ◌∷◌}
use device_sdk_python.Raise.{Result}
use device_sdk_python.Model.Metadata.{Device, DeviceProfile, ProvisionWatcher}
use device_sdk_python.Callback.State.{State, Outside, Container, Handler}
use device_sdk_python.Callback.Keeps.{Keeps, IsConsistent}
use device_sdk_python.Callback.Handlers
use device_sdk_python.Callback.Handlers.Consistent

-- A system event, by the callback that handles it.
pub data Event (F : Type 0) : Type 0 where
  update_profile : DeviceProfile F → Event F
  delete_profile : String → Event F
  add_device update_device : Device F → Event F
  delete_device : String → Event F
  add_provision_watcher update_provision_watcher : ProvisionWatcher F → Event F
  delete_provision_watcher : String → Event F
  update_device_service : String → String → Option (List String) → Event F

module _ {F : Type 0} (outside : Outside F) (dic : Container)
    (duration : String → Option (Result F)) (changed_only : Bool) where
  unfoldable pub handle : Event F → Handler F
  handle (Event.update_profile profile) =
      Handlers.update_profile outside dic duration changed_only profile
  handle (Event.delete_profile name) =
      Handlers.delete_profile outside dic duration changed_only name
  handle (Event.add_device device) = Handlers.add_device outside dic duration changed_only device
  handle (Event.update_device device) =
      Handlers.update_device outside dic duration changed_only device
  handle (Event.delete_device name) = Handlers.delete_device outside dic duration changed_only name
  handle (Event.add_provision_watcher w) =
      Handlers.add_provision_watcher outside dic duration changed_only w
  handle (Event.update_provision_watcher w) =
      Handlers.update_provision_watcher outside dic duration changed_only w
  handle (Event.delete_provision_watcher name) =
      Handlers.delete_provision_watcher outside dic duration changed_only name
  handle (Event.update_device_service name state labels) =
      Handlers.update_device_service outside dic duration changed_only name state labels

  -- the events in order; an error ends only the callback that it comes from
  unfoldable pub run : List (Event F) → State F → State F
  unfolding handle
  run [] s = s
  run (event ∷ events) s = run events (handle event s).1

  handle-Keeps : (event : Event F) → Keeps (handle event)
  unfolding handle
  handle-Keeps (Event.update_profile profile) =
      Consistent.update_profile-Keeps outside dic duration changed_only profile
  handle-Keeps (Event.delete_profile name) =
      Consistent.delete_profile-Keeps outside dic duration changed_only name
  handle-Keeps (Event.add_device device) =
      Consistent.add_device-Keeps outside dic duration changed_only device
  handle-Keeps (Event.update_device device) =
      Consistent.update_device-Keeps outside dic duration changed_only device
  handle-Keeps (Event.delete_device name) =
      Consistent.delete_device-Keeps outside dic duration changed_only name
  handle-Keeps (Event.add_provision_watcher w) =
      Consistent.add_provision_watcher-Keeps outside dic duration changed_only w
  handle-Keeps (Event.update_provision_watcher w) =
      Consistent.update_provision_watcher-Keeps outside dic duration changed_only w
  handle-Keeps (Event.delete_provision_watcher name) =
      Consistent.delete_provision_watcher-Keeps outside dic duration changed_only name
  handle-Keeps (Event.update_device_service name state labels) =
      Consistent.update_device_service-Keeps outside dic duration changed_only name state labels

  -- Whatever the driver, the client and the intervals do, every sequence of system events, each with
  -- or without an error, keeps the invariants together: those of the device cache, of the profile
  -- cache and of the watcher cache, and that the auto event manager, if there is one, lists the
  -- executor of every thread that is not stopped.
  pub run-IsConsistent :
      (events : List (Event F)) (s : State F) → IsConsistent s → IsConsistent (run events s)
  unfolding run
  run-IsConsistent [] s v = v
  run-IsConsistent (event ∷ events) s v =
      run-IsConsistent events (handle event s).1 ((handle-Keeps event).keeps s v)
