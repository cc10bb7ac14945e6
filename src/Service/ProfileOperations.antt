-- ===== src/Service/ProfileOperations.antt =====
-- The operations on profiles: what raises has changed nothing that a lookup can see.
use device_sdk_python.Base.{◌≡◌, ◌≢◌, String, none, some, Option-cases, inl, inr, arith}
use device_sdk_python.Raise.{Exn, raise, EdgexErrorKind}
use device_sdk_python.Model.Metadata.{DeviceProfile}
use device_sdk_python.Cache.Profiles
use device_sdk_python.Service.State.{State, Action, Call, Outside, return, ◌>>◌}
use device_sdk_python.Service.Metadata
use device_sdk_python.Service.Slot.{add-Restores, update-Restores, remove-Restores}
use device_sdk_python.Service.Slots.{profile_slot}
use device_sdk_python.Service.Restores.{IsValid, Unchanged, Unchanged-error, Unchanged-profiles}
use device_sdk_python.Service.Entities
use device_sdk_python.Service.Entities.{absent, all_updates}

module _ {F : Type 0} where
  get_profile_by_name-Unchanged :
      {A : Type 0} (s : State F) (name : String) (next : Action F A)
      → ((profile : DeviceProfile F)
          → Profiles.for_name s.profiles name ≡ some profile
          → Unchanged s (next s))
      → Unchanged s ((Entities.get_profile_by_name name >> next) s)
  unfolding Entities.get_profile_by_name
  get_profile_by_name-Unchanged s name next h =
      elim (Option-cases (Profiles.for_name s.profiles name)) [
        | inl e ↦ rw e (Unchanged-error s EdgexErrorKind.not_found)
        | inr (profile, e) ↦ rw e (h profile e)
      ]

  module _ (outside : Outside F) (service_key : String) where
    set_profile_id-never :
        (profile : DeviceProfile F) (id : String) (t : State F) (x : Exn)
        → (Metadata.set_profile_id outside service_key profile id t).0 ≢ raise x
    unfolding Metadata.set_profile_id
    set_profile_id-never profile id t x h = ground arith

    store_profile-Unchanged :
        (profile : DeviceProfile F) (s : State F)
        → IsValid s
        → Profiles.for_name s.profiles profile.name ≡ none
        → Unchanged s (Metadata.store_profile outside service_key profile s)
    unfolding Metadata.store_profile
    store_profile-Unchanged profile s v new =
        Unchanged-profiles s (Metadata.store_profile outside service_key profile s) (
          add-Restores profile_slot outside service_key profile (Call.add_device_profile profile)
            (Metadata.set_profile_id outside service_key profile) s (set_profile_id-never profile)
            v.profiles new)

    pub add_device_profile-Unchanged :
        (profile : DeviceProfile F) (s : State F)
        → IsValid s
        → Unchanged s (Entities.add_device_profile outside service_key profile s)
    unfolding Entities.add_device_profile Metadata.add_profile_to_metadata Metadata.prepared_profile
    add_device_profile-Unchanged profile s v =
        elim (Option-cases (Profiles.for_name s.profiles profile.name)) [
          | inr (_, old) ↦ rw old (Unchanged-error s EdgexErrorKind.duplicate_name)
          | inl new ↦ rw new (
              store_profile-Unchanged (Metadata.prepared_profile outside service_key s profile) s v
                new)
        ]

    pub update_device_profile-Unchanged :
        (profile : DeviceProfile F) (s : State F)
        → IsValid s
        → Unchanged s (Entities.update_device_profile outside service_key profile s)
    unfolding Entities.update_device_profile Metadata.update_profile_in_metadata
    update_device_profile-Unchanged profile s v =
        get_profile_by_name-Unchanged s profile.name
          (Metadata.update_profile_in_metadata outside service_key profile)
          (λ old e. rw e (
            Unchanged-profiles s _ (
              update-Restores profile_slot outside service_key profile old
                (Call.update_device_profile profile) (λ _. return tt) s (λ id t x h. cc) v.profiles
                e)))

    pub remove_device_profile_by_name-Unchanged :
        (name : String) (s : State F)
        → IsValid s
        → Unchanged s (Entities.remove_device_profile_by_name outside service_key name s)
    unfolding Entities.remove_device_profile_by_name Metadata.delete_profile_from_metadata
    remove_device_profile_by_name-Unchanged name s v =
        get_profile_by_name-Unchanged s name
          (Metadata.delete_profile_from_metadata outside service_key name)
          (λ profile e. rw e (
            Unchanged-profiles s _ (
              remove-Restores profile_slot outside service_key name profile
                (Call.delete_device_profile name) (λ _. return tt) s (λ id t x h. cc) v.profiles
                e)))
