-- ===== src/Service/Transactions.antt =====
-- The operations of the service together.
use device_sdk_python.Base.{◌≡◌, Bool, String, Option, List}
use device_sdk_python.Raise.{Exn, raise}
use device_sdk_python.Model.Metadata.{Device, DeviceProfile, ProvisionWatcher}
use device_sdk_python.Service.State.{State, Action, Update, Outside, return, ◌>>◌}
use device_sdk_python.Service.Restores.{IsValid, Same, Unchanged-then}
use device_sdk_python.Service.Entities
use device_sdk_python.Service.DeviceOperations.{
  add_device-Unchanged, update_device-Unchanged, patch_device-Unchanged,
  update_device_operating_state-Unchanged, remove_device_by_name-Unchanged,
}
use device_sdk_python.Service.ProfileOperations.{
  add_device_profile-Unchanged, update_device_profile-Unchanged,
  remove_device_profile_by_name-Unchanged,
}
use device_sdk_python.Service.WatcherOperations.{
  add_provision_watcher-Unchanged, update_provision_watcher-Unchanged,
  remove_provision_watcher-Unchanged,
}
use device_sdk_python.Service.Entities.{absent, all_updates}

pub data Operation (F : Type 0) : Type 0 where
  add_device : Device F → Bool → Operation F
  update_device : Device F → Bool → Operation F
  patch_device : Option String → List (Update F) → Bool → Operation F
  update_device_operating_state : String → String → Operation F
  remove_device_by_name : String → Operation F
  add_device_profile : DeviceProfile F → Operation F
  update_device_profile : DeviceProfile F → Operation F
  remove_device_profile_by_name : String → Operation F
  add_provision_watcher : ProvisionWatcher F → Operation F
  update_provision_watcher : ProvisionWatcher F → Operation F
  remove_provision_watcher : String → Operation F

module _ {F : Type 0} (outside : Outside F) (service_key : String) where
  unfoldable pub perform : Operation F → Action F (Unit {0})
  perform (Operation.add_device device bypass) =
      Entities.add_device outside service_key device bypass >> return tt
  perform (Operation.update_device device bypass) =
      Entities.update_device outside service_key device bypass
  perform (Operation.patch_device name updates bypass) =
      Entities.patch_device outside service_key name updates bypass
  perform (Operation.update_device_operating_state name state) =
      Entities.update_device_operating_state outside service_key name state
  perform (Operation.remove_device_by_name name) =
      Entities.remove_device_by_name outside service_key name
  perform (Operation.add_device_profile profile) =
      Entities.add_device_profile outside service_key profile >> return tt
  perform (Operation.update_device_profile profile) =
      Entities.update_device_profile outside service_key profile
  perform (Operation.remove_device_profile_by_name name) =
      Entities.remove_device_profile_by_name outside service_key name
  perform (Operation.add_provision_watcher watcher) =
      Entities.add_provision_watcher outside service_key watcher >> return tt
  perform (Operation.update_provision_watcher watcher) =
      Entities.update_provision_watcher outside service_key watcher
  perform (Operation.remove_provision_watcher name) =
      Entities.remove_provision_watcher outside service_key name

  -- On a state with valid caches, an operation of the service on a device, a profile or a watcher that
  -- raises, whether by its own checks, by the driver's validation or because Core Metadata fails,
  -- leaves every name with the device, the profile and the watcher that it found before.
  pub perform-Same :
      (operation : Operation F) (s : State F) (x : Exn)
      → IsValid s
      → (perform operation s).0 ≡ raise x
      → Same s (perform operation s).1
  unfolding perform
  perform-Same (Operation.add_device device bypass) s x v e =
      (Unchanged-then s (Entities.add_device outside service_key device bypass s) tt
          (add_device-Unchanged outside service_key device bypass s v)).raised
        x e
  perform-Same (Operation.update_device device bypass) s x v e =
      (update_device-Unchanged outside service_key device bypass s v).raised x e
  perform-Same (Operation.patch_device name updates bypass) s x v e =
      (patch_device-Unchanged outside service_key name updates bypass s v).raised x e
  perform-Same (Operation.update_device_operating_state name state) s x v e =
      (update_device_operating_state-Unchanged outside service_key name state s v).raised x e
  perform-Same (Operation.remove_device_by_name name) s x v e =
      (remove_device_by_name-Unchanged outside service_key name s v).raised x e
  perform-Same (Operation.add_device_profile profile) s x v e =
      (Unchanged-then s (Entities.add_device_profile outside service_key profile s) tt
          (add_device_profile-Unchanged outside service_key profile s v)).raised
        x e
  perform-Same (Operation.update_device_profile profile) s x v e =
      (update_device_profile-Unchanged outside service_key profile s v).raised x e
  perform-Same (Operation.remove_device_profile_by_name name) s x v e =
      (remove_device_profile_by_name-Unchanged outside service_key name s v).raised x e
  perform-Same (Operation.add_provision_watcher watcher) s x v e =
      (Unchanged-then s (Entities.add_provision_watcher outside service_key watcher s) tt
          (add_provision_watcher-Unchanged outside service_key watcher s v)).raised
        x e
  perform-Same (Operation.update_provision_watcher watcher) s x v e =
      (update_provision_watcher-Unchanged outside service_key watcher s v).raised x e
  perform-Same (Operation.remove_provision_watcher name) s x v e =
      (remove_provision_watcher-Unchanged outside service_key name s v).raised x e
