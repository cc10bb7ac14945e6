-- ===== src/Callback/Handlers/InUse.antt =====
-- The deletion of a profile that devices use.
use device_sdk_python.Base.{
  ◌≡◌, refl, ◌≢◌, Bool, false, not, String, Option, none, some, ◌==◌, any, any-all, if◌then◌else◌,
  Bool-cases, inl, inr, arith, eq_refl, eq_iff, ap, ◌∙◌,
}
use device_sdk_python.Base.Dict
use device_sdk_python.Base.Dict.{get-delete, has-get}
use device_sdk_python.Base.Dict.Distinct.{get-values, values-get}
use device_sdk_python.Raise.{Result, Outcome, ok, raise, EdgexErrorKind}
use device_sdk_python.Model.Metadata.{Device}
use device_sdk_python.Cache.Devices
use device_sdk_python.Cache.Profiles
use device_sdk_python.Cache.Profiles.{DeviceProfileCache}
use device_sdk_python.Cache.Profiles.Derived
use device_sdk_python.Callback.State.{State, Outside, Container, or_error, try_profiles}
use device_sdk_python.Callback.Keeps.{IsConsistent}
use device_sdk_python.Callback.Handlers

module _ {F : Type 0} where
  -- A device of the cache uses the profile.
  uses : State F → String → Bool
  uses s name = any (λ (d : Device F). d.profile_name == name) (Devices.devices s.devices)

  uses-device :
      (s : State F) (name k : String) (d : Device F)
      → uses s name ≡ false
      → Devices.for_name s.devices k ≡ some d
      → (d.profile_name == name) ≡ false
  unfolding uses Devices.devices Devices.for_name
  uses-device s name k d h e = ground (
    arith,
    any-all (λ (x : Device F). x.profile_name == name) (Dict.values s.devices.device_map),
    get-values s.devices.device_map (λ (x : Device F). not (x.profile_name == name)) k d,
  )

  uses-none :
      (s : State F) (name : String)
      → IsConsistent s
      → ((k : String) (d : Device F)
          → Devices.for_name s.devices k ≡ some d
          → d.profile_name ≢ name)
      → uses s name ≡ false
  unfolding uses Devices.devices Devices.for_name
  uses-none s name v h = ground (
    arith,
    any-all (λ (x : Device F). x.profile_name == name) (Dict.values s.devices.device_map),
    values-get s.devices.device_map (λ (x : Device F). not (x.profile_name == name))
        v.devices.distinct (λ k d e. ground (arith, h k d e, eq_iff d.profile_name name)),
  )

  removed-profiles :
      (s : State F) (name k : String)
      → IsConsistent s
      → Profiles.for_name (Profiles.remove_by_name s.profiles name).1 k
        ≡ (if name == k then none else Profiles.for_name s.profiles k)
  unfolding Profiles.for_name Derived.removed
  removed-profiles s name k v = rw (Derived.remove_by_name-removed s.profiles name v.profiles) (
      ground (
        arith,
        get-delete s.profiles.device_profile_map name k,
        has-get s.profiles.device_profile_map name,
        eq_iff name k,
      ))

  remove_by_name-ok :
      (s : State F) (name : String)
      → IsConsistent s
      → Profiles.for_name s.profiles name ≢ none
      → (Profiles.remove_by_name s.profiles name).0 ≡ ok tt
  unfolding Profiles.for_name
  remove_by_name-ok s name v there =
      rw (Derived.remove_by_name-removed s.profiles name v.profiles)
        (ground (arith, has-get s.profiles.device_profile_map name, there))

  or_error-same :
      (kind : EdgexErrorKind) (o : Outcome (DeviceProfileCache F))
      → ((or_error kind o).1 ≡ o.1) × (o.0 ≡ ok tt → (or_error kind o).0 ≡ ok tt)
  or_error-same kind (ok u, c) = (refl, λ e. e)
  or_error-same kind (raise x, c) = (refl, λ e. cc)

module _ {F : Type 0} (outside : Outside F) (dic : Container)
    (duration : String → Option (Result F)) (changed_only : Bool) where
  -- On a consistent state delete_profile leaves every device of the cache the profile that it had.
  -- If no device uses the profile and the profile is there, it succeeds and the profile is gone.
  pub delete_profile-in_use :
      (name : String) (s : State F)
      → IsConsistent s
      → ((k : String) (d : Device F)
          → Devices.for_name s.devices k ≡ some d
          → Profiles.for_name
              (Handlers.delete_profile outside dic duration changed_only name s).1.profiles
              d.profile_name
            ≡ Profiles.for_name s.profiles d.profile_name)
        × (((k : String) (d : Device F)
              → Devices.for_name s.devices k ≡ some d
              → d.profile_name ≢ name)
            → Profiles.for_name s.profiles name ≢ none
            → ((Handlers.delete_profile outside dic duration changed_only name s).0 ≡ ok tt)
              × (Profiles.for_name
                    (Handlers.delete_profile outside dic duration changed_only name s).1.profiles
                    name
                  ≡ none))
  unfolding Handlers.delete_profile try_profiles uses
  delete_profile-in_use name s v =
      let (same, succeeds) =
        or_error-same EdgexErrorKind.server_error (Profiles.remove_by_name s.profiles name) in
      elim (Bool-cases (uses s name)) [
        | inl used ↦ rw used (λ k d e. refl, λ unused there. cc (used, uses-none s name v unused))
        | inr unused ↦ rw unused (
          λ k d e.
              ap (λ c. Profiles.for_name c d.profile_name) same
              ∙ removed-profiles s name d.profile_name v
              ∙ ground (
                arith,
                uses-device s name k d unused e,
                eq_iff d.profile_name name,
                eq_iff name d.profile_name,
              ),
          λ _ there. (
            succeeds (remove_by_name-ok s name v there),
            ap (λ c. Profiles.for_name c name) same
                ∙ removed-profiles s name name v
                ∙ rw eq_refl refl,
          ),
        )
      ]
