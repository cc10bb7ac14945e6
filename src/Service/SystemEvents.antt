-- ===== src/Service/SystemEvents.antt =====
-- The callbacks `_on_device_added` to `_on_watcher_deleted` of the service for system events. The
-- device, profile or watcher that the details of an event describe is an argument.
pub mod Deleted
use device_sdk_python.Base.{Bool, true, false, String, Option, none, some, List, [], ◌∷◌, ◌++◌}
use device_sdk_python.Raise.{Result, Exn, ok, raise, EdgexErrorKind}
use device_sdk_python.Model.Metadata.{Device, DeviceProfile, ProvisionWatcher}
use device_sdk_python.Cache.Devices
use device_sdk_python.Cache.Profiles
use device_sdk_python.Cache.ProvisionWatchers
use device_sdk_python.Service.State.{
  State, Action, Call, Update, Outside, return, here, on_devices, on_profiles, on_watchers, note,
  ◌>>=◌, ◌>>◌,
}
use device_sdk_python.Service.Entities

-- `driver_error` is what the driver raises when it does not let a call return.
module _ {F : Type 0} (outside : Outside F) (service_key : String) (driver_error : Exn) where
  unless_raised : Bool → Action F (Unit {0})
  unless_raised true s = (ok tt, s)
  unless_raised false s = (raise driver_error, s)

  call_driver : Call F → Action F (Unit {0})
  unfolding unless_raised
  call_driver call = here (λ s. note call >> unless_raised (outside.driver s.calls call))

  unfoldable pub on_device_added : Device F → Action F (Unit {0})
  unfolding call_driver
  on_device_added details =
      on_devices (λ c. Devices.add c (record details { service_name = service_key }))
      >> call_driver (Call.driver_add details.name details.protocols details.admin_state)

  -- the driver is not told what has changed
  unfoldable pub on_device_updated : String → List (Update F) → Action F (Unit {0})
  unfolding call_driver
  on_device_updated name updates =
      Entities.patch_device outside service_key (some name) updates true
      >> call_driver (Call.driver_update name [] "UNLOCKED")

  unfoldable pub on_device_deleted : String → Action F (Unit {0})
  unfolding call_driver
  on_device_deleted name =
      Entities.remove_device_by_name outside service_key name
      >> call_driver (Call.driver_remove name [])

  unfoldable pub on_profile_added : DeviceProfile F → Action F (Unit {0})
  on_profile_added details = return tt

  unfoldable pub on_profile_updated : DeviceProfile F → Action F (Unit {0})
  on_profile_updated details = on_profiles (λ c. Profiles.update c details)

  unfoldable pub on_profile_deleted : String → Action F (Unit {0})
  on_profile_deleted name = on_profiles (λ c. Profiles.remove_by_name c name)

  unfoldable pub on_watcher_added : ProvisionWatcher F → Action F (Unit {0})
  on_watcher_added details = on_watchers (λ c. ProvisionWatchers.add c details)

  unfoldable pub on_watcher_deleted : String → Action F (Unit {0})
  on_watcher_deleted name = on_watchers (λ c. ProvisionWatchers.remove_by_name c name)
