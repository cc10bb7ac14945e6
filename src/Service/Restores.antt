-- ===== src/Service/Restores.antt =====
-- An operation of the service that raises changes nothing that a lookup can see.
use device_sdk_python.Base.{◌≡◌, refl, Bool, true, false, String, List, [], ◌∷◌, ◌++◌}
use device_sdk_python.Raise.{Result, Exn, ok, raise, EdgexErrorKind}
use device_sdk_python.Model.Metadata.{Device}
use device_sdk_python.Cache.Devices
use device_sdk_python.Cache.Devices.Keys
use device_sdk_python.Cache.Profiles
use device_sdk_python.Cache.Profiles.Named
use device_sdk_python.Cache.ProvisionWatchers
use device_sdk_python.Cache.ProvisionWatchers.Keys as WatcherKeys
use device_sdk_python.Service.State.{
  State, Action, Call, Outside, return, error, note, continue, ◌>>◌,
}
use device_sdk_python.Service.Metadata
use device_sdk_python.Service.Slot.{IsRestored}
use device_sdk_python.Service.Slots.{device_slot, profile_slot, watcher_slot}

-- The three caches are valid.
pub record IsValid {F : Type 0} (s : State F) : Type 0 where
  pub devices : Keys.IsValid s.devices
  pub profiles : Named.IsNamed s.profiles
  pub watchers : WatcherKeys.IsValid s.watchers

-- Every name finds the same device, profile and watcher.
pub record Same {F : Type 0} (s s' : State F) : Type 0 where
  pub devices : (k : String) → Devices.for_name s'.devices k ≡ Devices.for_name s.devices k
  pub profiles : (k : String) → Profiles.for_name s'.profiles k ≡ Profiles.for_name s.profiles k
  pub watchers :
      (k : String)
      → ProvisionWatchers.for_name s'.watchers k ≡ ProvisionWatchers.for_name s.watchers k

-- If it raises, nothing has changed.
pub record Unchanged {F A : Type 0} (s : State F) (r : Result A × State F) : Type 0 where
  pub raised : (x : Exn) → r.0 ≡ raise x → Same s r.1

module _ {F : Type 0} where
  Same-refl : (s : State F) (calls : List (Call F)) → Same s (record s { calls = calls })
  Same-refl s calls = record { devices = λ k. refl; profiles = λ k. refl; watchers = λ k. refl }

  pub Unchanged-return : {A : Type 0} (s : State F) (a : A) → Unchanged s (return a s)
  Unchanged-return s a = record { raised = λ x e. cc }

  pub Unchanged-error :
      {A : Type 0} (s : State F) (kind : EdgexErrorKind) → Unchanged {A = A} s (error kind s)
  Unchanged-error s kind = record { raised = λ x e. Same-refl s s.calls }

  pub Unchanged-then :
      {A B : Type 0} (s : State F) (r : Result A × State F) (b : B)
      → Unchanged s r
      → Unchanged s (continue r (λ _. return b))
  Unchanged-then s (ok a, t) b h = record { raised = λ x e. cc }
  Unchanged-then s (raise x, t) b h = record { raised = λ y e. h.raised x refl }

  -- The calls that went out before are no part of what a lookup sees.
  pub Unchanged-calls :
      {A : Type 0} (s : State F) (calls : List (Call F)) (r : Result A × State F)
      → Unchanged (record s { calls = calls }) r
      → Unchanged s r
  Unchanged-calls s calls r h = record {
    raised = λ x e.
        let same = h.raised x e in
        record { devices = same.devices; profiles = same.profiles; watchers = same.watchers };
  }

  -- a slot that is restored
  pub Unchanged-devices :
      {A : Type 0} (s : State F) (r : Result A × State F)
      → ((x : Exn) → r.0 ≡ raise x → IsRestored device_slot s r.1)
      → Unchanged s r
  Unchanged-devices s r h = record {
    raised = λ x e.
        let restored = h x e in
        rw restored.same
          (record { devices = restored.lookups; profiles = λ k. refl; watchers = λ k. refl });
  }

  pub Unchanged-profiles :
      {A : Type 0} (s : State F) (r : Result A × State F)
      → ((x : Exn) → r.0 ≡ raise x → IsRestored profile_slot s r.1)
      → Unchanged s r
  Unchanged-profiles s r h = record {
    raised = λ x e.
        let restored = h x e in
        rw restored.same
          (record { devices = λ k. refl; profiles = restored.lookups; watchers = λ k. refl });
  }

  pub Unchanged-watchers :
      {A : Type 0} (s : State F) (r : Result A × State F)
      → ((x : Exn) → r.0 ≡ raise x → IsRestored watcher_slot s r.1)
      → Unchanged s r
  Unchanged-watchers s r h = record {
    raised = λ x e.
        let restored = h x e in
        rw restored.same
          (record { devices = λ k. refl; profiles = λ k. refl; watchers = restored.lookups });
  }

  module _ (outside : Outside F) (service_key : String) where
    -- `validate_device` changes nothing but the calls, whether it raises or not.
    unless_valid-Unchanged :
        {A : Type 0} (s : State F) (calls : List (Call F)) (answer : Bool) (next : Action F A)
        → Unchanged s (next (record s { calls = calls }))
        → Unchanged s (
            continue
              (Metadata.unless_valid outside service_key answer (record s { calls = calls }))
              (λ _. next))
    unfolding Metadata.unless_valid
    unless_valid-Unchanged s calls true next h = h
    unless_valid-Unchanged s calls false next h = record { raised = λ x e. Same-refl s calls }

    pub validate-Unchanged :
        {A : Type 0} (s : State F) (device : Device F) (bypass : Bool) (next : Action F A)
        → ((calls : List (Call F)) → Unchanged s (next (record s { calls = calls })))
        → Unchanged s ((Metadata.validate_device outside service_key device bypass >> next) s)
    unfolding Metadata.validate_device note
    validate-Unchanged s device true next h = h s.calls
    validate-Unchanged s device false next h =
        let call = Call.validate_device device in
        unless_valid-Unchanged s (s.calls ++ call ∷ []) (outside.driver s.calls call) next
          (h (s.calls ++ call ∷ []))
