-- ===== src/Service/SystemEvents/Deleted.antt =====
-- The callback for a device that was deleted in Core Metadata deletes it there once more.
use device_sdk_python.Base.{◌≡◌, refl, String, some, List, [], ◌∷◌, ◌++◌, ap, ◌∙◌}
use device_sdk_python.Raise.{Result, Exn, ok, raise, edgex_error, EdgexErrorKind}
use device_sdk_python.Model.Metadata.{Device}
use device_sdk_python.Cache.Devices
use device_sdk_python.Cache.Devices.{DeviceCache}
use device_sdk_python.Cache.Devices.After
use device_sdk_python.Service.State.{
  State, Action, Call, Answer, Outside, return, error, note, continue, metadata_error, on_devices,
}
use device_sdk_python.Service.Metadata
use device_sdk_python.Service.Entities
use device_sdk_python.Service.Slots.{on_devices_lem}
use device_sdk_python.Service.Restores.{IsValid, Same}
use device_sdk_python.Service.DeviceOperations.{remove_device_by_name-Unchanged}
use device_sdk_python.Service.SystemEvents

module _ {F : Type 0} (outside : Outside F) (service_key : String) (driver_error : Exn) where
  after-raise :
      (r : Result (Unit {0}) × State F) (next : Action F (Unit {0})) (x : Exn)
      → r.0 ≡ raise x
      → (continue r (λ _. next)) ≡ (raise x, r.1)
  after-raise (ok u, s) next x e = cc
  after-raise (raise y, s) next x e = ap (λ r. (r, s)) e

  -- It raises, and these are the calls that have gone out.
  Fails : List (Call F) → Result (Unit {0}) × State F → Type 0
  Fails calls r = (x : Exn) × (r.0 ≡ raise x) × (r.1.calls ≡ calls)

  error-raises :
      (calls : List (Call F)) (r : Result (Unit {0}) × State F) (kind : EdgexErrorKind)
      → r.1.calls ≡ calls
      → (x : Exn) × ((continue {B = String} r (λ _. error kind)).0 ≡ raise x)
        × ((continue {B = String} r (λ _. error kind)).1.calls ≡ calls)
  error-raises calls (ok a, s) kind same = (edgex_error kind, refl, same)
  error-raises calls (raise x, s) kind same = (x, refl, same)

  -- The call goes out, and the restore makes none.
  write-raises :
      (call : Call F) (restore : Action F (Unit {0})) (client : List (Call F) → Call F → Answer)
      (s : State F)
      → outside.client ≡ some client
      → client s.calls call ≡ metadata_error
      → ((t : State F) → (restore t).1.calls ≡ t.calls)
      → (x : Exn) × ((Metadata.write_through outside service_key call restore s).0 ≡ raise x)
        × ((Metadata.write_through outside service_key call restore s).1.calls
            ≡ s.calls ++ call ∷ [])
  unfolding Metadata.write_through Metadata.on_answer note
  write-raises call restore client s there fails silent =
      let t = record s { calls = s.calls ++ call ∷ [] } in
      rw (there, fails)
        (error-raises (s.calls ++ call ∷ []) (restore t) EdgexErrorKind.server_error (silent t))

  then-raises :
      {A : Type 0} (calls : List (Call F)) (r : Result A × State F) (x : Exn)
      → r.0 ≡ raise x
      → r.1.calls ≡ calls
      → Fails calls (continue {B = Unit {0}} r (λ _. return tt))
  unfolding Fails
  then-raises calls (ok a, s) x e same = cc
  then-raises calls (raise y, s) x e same = (y, refl, same)

  delete-raises :
      (name : String) (device : Device F) (client : List (Call F) → Call F → Answer) (s : State F)
      → Devices.for_name s.devices name ≡ some device
      → outside.client ≡ some client
      → client s.calls (Call.delete_device name) ≡ metadata_error
      → Fails
          (s.calls ++ Call.delete_device name ∷ [])
          (Metadata.delete_device_from_metadata outside service_key name s)
  unfolding Metadata.delete_device_from_metadata on_devices
  delete-raises name device client s known there fails =
      let call = Call.delete_device name in
      let restore = on_devices (λ c. Devices.add c device) in
      let left = (Devices.remove_by_name s.devices name).1 in
      let t : State F = record s { devices = left } in
      let removed : on_devices (λ c. Devices.remove_by_name c name) s ≡ (ok tt, t) =
        on_devices_lem (λ c. Devices.remove_by_name c name) s
        ∙ ap (λ r. (r, t)) (After.remove_by_name-ok s.devices name device known) in
      let (x, e, called) = write-raises call restore client t there fails (λ u. refl) in
      rw (known, removed)
        (then-raises (s.calls ++ call ∷ [])
          (Metadata.write_through outside service_key call restore t) x e called)

  remove-raises :
      (name : String) (device : Device F) (client : List (Call F) → Call F → Answer) (s : State F)
      → Devices.for_name s.devices name ≡ some device
      → outside.client ≡ some client
      → client s.calls (Call.delete_device name) ≡ metadata_error
      → Fails
          (s.calls ++ Call.delete_device name ∷ [])
          (Entities.remove_device_by_name outside service_key name s)
  unfolding Entities.remove_device_by_name
  remove-raises name device client s known there fails =
      rw known (delete-raises name device client s known there fails)

  -- When Core Metadata answers the deletion of a device that the cache holds with an error, the callback
  -- for the deletion raises, its only call is the one to Core Metadata, so the driver is not told, and
  -- the caches of a valid state are as before: the device stays.
  pub on_device_deleted-stays :
      (name : String) (device : Device F) (client : List (Call F) → Call F → Answer) (s : State F)
      → IsValid s
      → Devices.for_name s.devices name ≡ some device
      → outside.client ≡ some client
      → client s.calls (Call.delete_device name) ≡ metadata_error
      → (x : Exn) × ((SystemEvents.on_device_deleted outside service_key driver_error name s).0
          ≡ raise x)
        × ((SystemEvents.on_device_deleted outside service_key driver_error name s).1.calls
            ≡ s.calls ++ Call.delete_device name ∷ [])
        × Same s (SystemEvents.on_device_deleted outside service_key driver_error name s).1
        × (Devices.for_name
              (SystemEvents.on_device_deleted outside service_key driver_error name s).1.devices
              name
            ≡ some device)
  unfolding SystemEvents.on_device_deleted Fails
  on_device_deleted-stays name device client s v known there fails =
      let (x, e, called) = remove-raises name device client s known there fails in
      let removed = Entities.remove_device_by_name outside service_key name s in
      let same = (remove_device_by_name-Unchanged outside service_key name s v).raised x e in
      let p =
        after-raise removed
          (SystemEvents.call_driver outside service_key driver_error (Call.driver_remove name [])) x
          e in
      rw p (x, refl, called, same, same.devices name ∙ known)
