-- ===== src/Service/DeviceOperations.antt =====
-- The operations on devices: what raises has changed nothing that a lookup can see.
use device_sdk_python.Base.{
  ◌≡◌, refl, ap, ◌∙◌, ◌≢◌, Bool, true, String, Option, none, some, List, [], ◌∷◌, Option-cases, inl,
  inr, arith,
}
use device_sdk_python.Raise.{Exn, raise, EdgexErrorKind}
use device_sdk_python.Model.Metadata.{Device}
use device_sdk_python.Cache.Devices
use device_sdk_python.Service.State.{
  State, Action, Call, Update, Outside, return, here, on_devices, ◌>>◌,
}
use device_sdk_python.Service.Metadata
use device_sdk_python.Service.Slot.{add-Restores, update-Restores, remove-Restores}
use device_sdk_python.Service.Slots.{device_slot, device-named}
use device_sdk_python.Service.Restores.{
  IsValid, Unchanged, Unchanged-error, Unchanged-calls, Unchanged-devices, validate-Unchanged,
}
use device_sdk_python.Service.Entities
use device_sdk_python.Service.Entities.{absent, all_updates}

module _ {F : Type 0} where
  get_device-Unchanged :
      {A : Type 0} (s : State F) (name : String) (next : Action F A)
      → ((device : Device F) → Devices.for_name s.devices name ≡ some device → Unchanged s (next s))
      → Unchanged s ((Entities.get_device_by_name name >> next) s)
  unfolding Entities.get_device_by_name
  get_device-Unchanged s name next h = elim (Option-cases (Devices.for_name s.devices name)) [
    | inl e ↦ rw e (Unchanged-error s EdgexErrorKind.not_found)
    | inr (device, e) ↦ rw e (h device e)
  ]

  set_attribute-name :
      (d : Device F) (update : Update F) → (Metadata.set_attribute d update).name ≡ d.name
  unfolding Metadata.set_attribute
  set_attribute-name d (Update.location v) = ground arith
  set_attribute-name d _ = refl

  pub set_attributes-name :
      (updates : List (Update F)) (d : Device F) → (Metadata.set_attributes d updates).name ≡ d.name
  unfolding Metadata.set_attributes
  set_attributes-name [] d = refl
  set_attributes-name (u ∷ us) d =
      set_attributes-name us (Metadata.set_attribute d u) ∙ set_attribute-name d u

  module _ (outside : Outside F) (service_key : String) where
    set_device_id-never :
        (device : Device F) (id : String) (t : State F) (x : Exn)
        → (Metadata.set_device_id outside service_key device id t).0 ≢ raise x
    unfolding Metadata.set_device_id
    set_device_id-never device id t x h = ground arith

    store_device-Unchanged :
        (device : Device F) (bypass : Bool) (s : State F)
        → IsValid s
        → Devices.for_name s.devices device.name ≡ none
        → Unchanged s (Metadata.store_device outside service_key device bypass s)
    unfolding Metadata.store_device
    store_device-Unchanged device bypass s v new =
        Unchanged-devices s (Metadata.store_device outside service_key device bypass s) (
          add-Restores device_slot outside service_key device (Call.add_device device bypass)
            (Metadata.set_device_id outside service_key device) s (set_device_id-never device)
            v.devices new)

    pub add_device-Unchanged :
        (device : Device F) (bypass : Bool) (s : State F)
        → IsValid s
        → Unchanged s (Entities.add_device outside service_key device bypass s)
    unfolding Entities.add_device Metadata.add_device_to_metadata Metadata.prepared
    add_device-Unchanged device bypass s v =
        elim (Option-cases (Devices.for_name s.devices device.name)) [
          | inr (_, old) ↦ rw old (Unchanged-error s EdgexErrorKind.duplicate_name)
          | inl new ↦ rw new (
              validate-Unchanged outside service_key s
                (record device { service_name = service_key }) bypass
                (here (λ t.
                  Metadata.store_device outside service_key
                    (Metadata.prepared outside service_key t
                      (record device { service_name = service_key }))
                    bypass))
                (λ calls.
                  let t = record s { calls = calls } in
                  let d =
                    Metadata.prepared outside service_key t
                      (record device { service_name = service_key }) in
                  Unchanged-calls s calls (Metadata.store_device outside service_key d bypass t) (
                    store_device-Unchanged d bypass t
                      (record { devices = v.devices; profiles = v.profiles; watchers = v.watchers })
                      new)))
        ]

    update_found-Unchanged :
        (d old : Device F) (call : Call F) (s : State F)
        → IsValid s
        → Devices.for_name s.devices d.name ≡ some old
        → Unchanged s (
            (on_devices (λ c. Devices.update c d)
                >> Metadata.write_through outside service_key call
                    (on_devices (λ c. Devices.update c old))
                >> return tt)
              s)
    update_found-Unchanged d old call s v known = Unchanged-devices s _ (
        update-Restores device_slot outside service_key d old call (λ _. return tt) s
          (λ id t x h. cc) v.devices known)

    pub patch-Unchanged :
        (name : String) (updates : List (Update F)) (bypass : Bool) (device : Device F)
        (s : State F)
        → IsValid s
        → Devices.for_name s.devices name ≡ some device
        → Unchanged s (Metadata.patch_device_in_metadata outside service_key name updates bypass s)
    unfolding Metadata.patch_device_in_metadata
    patch-Unchanged name updates bypass device s v old =
        let changed = Metadata.set_attributes device updates in
        let call = Call.patch_device name updates bypass in
        let named =
          set_attributes-name updates device ∙ device-named s.devices name device v.devices old in
        rw old (
          validate-Unchanged outside service_key s changed bypass
            (on_devices (λ c. Devices.update c changed)
              >> Metadata.write_through outside service_key call
                  (on_devices (λ c. Devices.update c device))
              >> return tt)
            (λ calls.
              let t = record s { calls = calls } in
              Unchanged-calls s calls _ (
                update_found-Unchanged changed device call t
                  (record { devices = v.devices; profiles = v.profiles; watchers = v.watchers })
                  (ap (Devices.for_name s.devices) named ∙ old))))

    pub delete_device-Unchanged :
        (name : String) (device : Device F) (s : State F)
        → IsValid s
        → Devices.for_name s.devices name ≡ some device
        → Unchanged s (Metadata.delete_device_from_metadata outside service_key name s)
    unfolding Metadata.delete_device_from_metadata
    delete_device-Unchanged name device s v old = rw old (
        Unchanged-devices s _ (
          remove-Restores device_slot outside service_key name device (Call.delete_device name)
            (λ _. return tt) s (λ id t x h. cc) v.devices old))

    pub update_device-Unchanged :
        (device : Device F) (bypass : Bool) (s : State F)
        → IsValid s
        → Unchanged s (Entities.update_device outside service_key device bypass s)
    unfolding Entities.update_device
    update_device-Unchanged device bypass s v =
        get_device-Unchanged s device.name
          (Metadata.patch_device_in_metadata outside service_key device.name (all_updates device)
            bypass)
          (λ old e. patch-Unchanged device.name (all_updates device) bypass old s v e)

    pub patch_device-Unchanged :
        (name : Option String) (updates : List (Update F)) (bypass : Bool) (s : State F)
        → IsValid s
        → Unchanged s (Entities.patch_device outside service_key name updates bypass s)
    unfolding Entities.patch_device
    patch_device-Unchanged none updates bypass s v =
        Unchanged-error s EdgexErrorKind.contract_invalid
    patch_device-Unchanged (some name) updates bypass s v =
        get_device-Unchanged s name
          (Metadata.patch_device_in_metadata outside service_key name updates bypass)
          (λ old e. patch-Unchanged name updates bypass old s v e)

    pub update_device_operating_state-Unchanged :
        (name state : String) (s : State F)
        → IsValid s
        → Unchanged s (Entities.update_device_operating_state outside service_key name state s)
    unfolding Entities.update_device_operating_state
    update_device_operating_state-Unchanged name state s v =
        let updates = Update.operating_state state ∷ [] in
        get_device-Unchanged s name
          (Metadata.patch_device_in_metadata outside service_key name updates true)
          (λ old e. patch-Unchanged name updates true old s v e)

    pub remove_device_by_name-Unchanged :
        (name : String) (s : State F)
        → IsValid s
        → Unchanged s (Entities.remove_device_by_name outside service_key name s)
    unfolding Entities.remove_device_by_name
    remove_device_by_name-Unchanged name s v =
        get_device-Unchanged s name (Metadata.delete_device_from_metadata outside service_key name)
          (λ device e. delete_device-Unchanged name device s v e)
