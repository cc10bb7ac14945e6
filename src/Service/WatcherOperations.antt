-- ===== src/Service/WatcherOperations.antt =====
-- The operations on watchers: what raises has changed nothing that a lookup can see.
use device_sdk_python.Base.{◌≡◌, ◌≢◌, String, none, some, Option-cases, inl, inr, arith}
use device_sdk_python.Raise.{Exn, raise, EdgexErrorKind}
use device_sdk_python.Model.Metadata.{ProvisionWatcher}
use device_sdk_python.Cache.ProvisionWatchers
use device_sdk_python.Service.State.{State, Action, Call, Outside, return, ◌>>◌}
use device_sdk_python.Service.Metadata
use device_sdk_python.Service.Slot.{add-Restores, update-Restores, remove-Restores}
use device_sdk_python.Service.Slots.{watcher_slot}
use device_sdk_python.Service.Restores.{IsValid, Unchanged, Unchanged-error, Unchanged-watchers}
use device_sdk_python.Service.Entities
use device_sdk_python.Service.Entities.{absent, all_updates}

module _ {F : Type 0} where
  get_provision_watcher_by_name-Unchanged :
      {A : Type 0} (s : State F) (name : String) (next : Action F A)
      → ((watcher : ProvisionWatcher F)
          → ProvisionWatchers.for_name s.watchers name ≡ some watcher
          → Unchanged s (next s))
      → Unchanged s ((Entities.get_provision_watcher_by_name name >> next) s)
  unfolding Entities.get_provision_watcher_by_name
  get_provision_watcher_by_name-Unchanged s name next h =
      elim (Option-cases (ProvisionWatchers.for_name s.watchers name)) [
        | inl e ↦ rw e (Unchanged-error s EdgexErrorKind.not_found)
        | inr (watcher, e) ↦ rw e (h watcher e)
      ]

  module _ (outside : Outside F) (service_key : String) where
    set_watcher_id-never :
        (watcher : ProvisionWatcher F) (id : String) (t : State F) (x : Exn)
        → (Metadata.set_watcher_id outside service_key watcher id t).0 ≢ raise x
    unfolding Metadata.set_watcher_id
    set_watcher_id-never watcher id t x h = ground arith

    store_watcher-Unchanged :
        (watcher : ProvisionWatcher F) (s : State F)
        → IsValid s
        → ProvisionWatchers.for_name s.watchers watcher.name ≡ none
        → Unchanged s (Metadata.store_watcher outside service_key watcher s)
    unfolding Metadata.store_watcher
    store_watcher-Unchanged watcher s v new =
        Unchanged-watchers s (Metadata.store_watcher outside service_key watcher s) (
          add-Restores watcher_slot outside service_key watcher (Call.add_provision_watcher watcher)
            (Metadata.set_watcher_id outside service_key watcher) s (set_watcher_id-never watcher)
            v.watchers new)

    pub add_provision_watcher-Unchanged :
        (watcher : ProvisionWatcher F) (s : State F)
        → IsValid s
        → Unchanged s (Entities.add_provision_watcher outside service_key watcher s)
    unfolding Entities.add_provision_watcher Metadata.add_provision_watcher_to_metadata
        Metadata.prepared_watcher
    add_provision_watcher-Unchanged watcher s v =
        elim (Option-cases (ProvisionWatchers.for_name s.watchers watcher.name)) [
          | inr (_, old) ↦ rw old (Unchanged-error s EdgexErrorKind.duplicate_name)
          | inl new ↦ rw new (
              store_watcher-Unchanged
                (Metadata.prepared_watcher outside service_key s
                  (record watcher { service_name = service_key }))
                s v new)
        ]

    pub update_provision_watcher-Unchanged :
        (watcher : ProvisionWatcher F) (s : State F)
        → IsValid s
        → Unchanged s (Entities.update_provision_watcher outside service_key watcher s)
    unfolding Entities.update_provision_watcher Metadata.update_provision_watcher_in_metadata
    update_provision_watcher-Unchanged watcher s v =
        get_provision_watcher_by_name-Unchanged s watcher.name
          (Metadata.update_provision_watcher_in_metadata outside service_key watcher)
          (λ old e. rw e (
            Unchanged-watchers s _ (
              update-Restores watcher_slot outside service_key watcher old
                (Call.update_provision_watcher watcher) (λ _. return tt) s (λ id t x h. cc)
                v.watchers e)))

    pub remove_provision_watcher-Unchanged :
        (name : String) (s : State F)
        → IsValid s
        → Unchanged s (Entities.remove_provision_watcher outside service_key name s)
    unfolding Entities.remove_provision_watcher Metadata.delete_provision_watcher_from_metadata
    remove_provision_watcher-Unchanged name s v =
        get_provision_watcher_by_name-Unchanged s name
          (Metadata.delete_provision_watcher_from_metadata outside service_key name)
          (λ watcher e. rw e (
            Unchanged-watchers s _ (
              remove-Restores watcher_slot outside service_key name watcher
                (Call.delete_provision_watcher name) (λ _. return tt) s (λ id t x h. cc) v.watchers
                e)))
