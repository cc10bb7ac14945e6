-- ===== src/Cache/Profiles/Derived.antt =====
-- The invariant of `DeviceProfileCache`: the two derived maps are those of the stored profiles.
use device_sdk_python.Base.{
  ◌≡◌, refl, true, false, String, Option, none, some, List, [], ◌∷◌, ◌==◌, arith, if◌then◌else◌,
  Bool-cases, inl, inr, ◌⊎◌, ◌≢◌, eq_refl,
}
use device_sdk_python.Base.Dict
use device_sdk_python.Base.Dict.{Dict, has-get, has-delete, get-put, get-delete, is_some}
use device_sdk_python.Raise.{Outcome, ok, raise, cache_error, entity_does_not_exist}
use device_sdk_python.Model.Metadata.{DeviceProfile}
use device_sdk_python.Cache.Profiles
use device_sdk_python.Cache.Profiles.{DeviceProfileCache, lookup_in}

abbrev map_option {ℓ κ} : {A : Type ℓ} {B : Type κ} → (A → B) → Option A → Option B
map_option f none = none
map_option f (some x) = some (f x)

pub record IsDerived {F : Type 0} (c : DeviceProfileCache F) : Type 0 where
  pub resources :
      (k : String)
      → Dict.get c.device_resource_map k
        ≡ map_option
            (λ (p : DeviceProfile F). Profiles.device_resource_slice_to_map p.device_resources)
            (Dict.get c.device_profile_map k)
  pub commands :
      (k : String)
      → Dict.get c.device_command_map k
        ≡ map_option
            (λ (p : DeviceProfile F). Profiles.device_command_slice_to_map p.device_commands)
            (Dict.get c.device_profile_map k)

-- A call of one of the methods that change the cache.
pub data Call (F : Type 0) : Type 0 where
  add check_and_add update : DeviceProfile F → Call F
  remove_by_name : String → Call F

module _ {F : Type 0} where
  unfoldable pub step : DeviceProfileCache F → Call F → Outcome (DeviceProfileCache F)
  step c (Call.add profile) = Profiles.add c profile
  step c (Call.check_and_add profile) = Profiles.check_and_add c profile
  step c (Call.update profile) = Profiles.update c profile
  step c (Call.remove_by_name name) = Profiles.remove_by_name c name

  unfoldable pub run : DeviceProfileCache F → List (Call F) → DeviceProfileCache F
  run c [] = c
  run c (call ∷ calls) = run (step c call).1 calls

  store-IsDerived :
      (c : DeviceProfileCache F) (p : DeviceProfile F)
      → IsDerived c
      → IsDerived (Profiles.store c p)
  unfolding Profiles.store
  store-IsDerived c p v = record {
    resources = λ k. ground (
      arith,
      get-put c.device_profile_map p.name k p,
      get-put c.device_resource_map p.name k
          (Profiles.device_resource_slice_to_map p.device_resources),
      v.resources k,
    );
    commands = λ k. ground (
      arith,
      get-put c.device_profile_map p.name k p,
      get-put c.device_command_map p.name k
          (Profiles.device_command_slice_to_map p.device_commands),
      v.commands k,
    );
  }

  unfoldable pub removed : DeviceProfileCache F → String → DeviceProfileCache F
  removed c name = record {
    device_profile_map = Dict.delete c.device_profile_map name;
    device_resource_map = Dict.delete c.device_resource_map name;
    device_command_map = Dict.delete c.device_command_map name;
  }

  removed-IsDerived :
      (c : DeviceProfileCache F) (name : String) → IsDerived c → IsDerived (removed c name)
  unfolding removed
  removed-IsDerived c name v = record {
    resources = λ k. ground (
      arith,
      get-delete c.device_profile_map name k,
      get-delete c.device_resource_map name k,
      v.resources k,
    );
    commands = λ k. ground (
      arith,
      get-delete c.device_profile_map name k,
      get-delete c.device_command_map name k,
      v.commands k,
    );
  }

  -- On a valid cache the deletions from the derived maps find their keys.
  pub remove_by_name-removed :
      (c : DeviceProfileCache F) (name : String)
      → IsDerived c
      → Profiles.remove_by_name c name ≡ (
          if Dict.has c.device_profile_map name
          then (ok tt, removed c name)
          else (raise (cache_error entity_does_not_exist), c))
  unfolding Profiles.remove_by_name removed
  remove_by_name-removed c name v = ground (
    arith,
    v.resources name,
    v.commands name,
    has-get c.device_profile_map name,
    has-get c.device_resource_map name,
    has-get c.device_command_map name,
  )

  pub add-IsDerived :
      (c : DeviceProfileCache F) (p : DeviceProfile F)
      → IsDerived c
      → IsDerived (Profiles.add c p).1
  unfolding Profiles.add
  add-IsDerived c p v = elim (Bool-cases (Dict.has c.device_profile_map p.name)) [
    | inl old ↦ rw old v
    | inr new ↦ rw new (store-IsDerived c p v)
  ]

  pub remove_by_name-IsDerived :
      (c : DeviceProfileCache F) (name : String)
      → IsDerived c
      → IsDerived (Profiles.remove_by_name c name).1
  remove_by_name-IsDerived c name v =
      rw (remove_by_name-removed c name v) (elim (Bool-cases (Dict.has c.device_profile_map name)) [
        | inl old ↦ rw old (removed-IsDerived c name v)
        | inr new ↦ rw new v
      ])

  pub update-IsDerived :
      (c : DeviceProfileCache F) (p : DeviceProfile F)
      → IsDerived c
      → IsDerived (Profiles.update c p).1
  unfolding Profiles.update
  update-IsDerived c p v =
      rw (remove_by_name-removed c p.name v)
        (elim (Bool-cases (Dict.has c.device_profile_map p.name)) [
          | inl old ↦ rw old (add-IsDerived (removed c p.name) p (removed-IsDerived c p.name v))
          | inr new ↦ rw new v
        ])

  step-IsDerived :
      (c : DeviceProfileCache F) (call : Call F) → IsDerived c → IsDerived (step c call).1
  unfolding step Profiles.check_and_add
  step-IsDerived c (Call.add p) v = add-IsDerived c p v
  step-IsDerived c (Call.check_and_add p) v =
      elim (Bool-cases (Dict.has c.device_profile_map p.name)) [
        | inl old ↦ rw old v
        | inr new ↦ rw new (store-IsDerived c p v)
      ]
  step-IsDerived c (Call.update p) v = update-IsDerived c p v
  step-IsDerived c (Call.remove_by_name name) v = remove_by_name-IsDerived c name v

  -- Every sequence of calls, failing or not, keeps the derived maps those of the stored profiles.
  pub run-IsDerived :
      (calls : List (Call F)) (c : DeviceProfileCache F) → IsDerived c → IsDerived (run c calls)
  unfolding run
  run-IsDerived [] c v = v
  run-IsDerived (call ∷ calls) c v = run-IsDerived calls (step c call).1 (step-IsDerived c call v)

  fill-IsDerived :
      (ps : List (DeviceProfile F)) (c : DeviceProfileCache F)
      → IsDerived c
      → IsDerived (Profiles.fill c ps)
  unfolding Profiles.fill
  fill-IsDerived [] c v = v
  fill-IsDerived (p ∷ ps) c v = fill-IsDerived ps (Profiles.store c p) (store-IsDerived c p v)

  pub empty-IsDerived : IsDerived {F = F} Profiles.empty
  unfolding Dict.get
  empty-IsDerived = record { resources = λ k. refl; commands = λ k. refl }

  pub init-IsDerived : (ps : List (DeviceProfile F)) → IsDerived (Profiles.init ps)
  unfolding Profiles.init
  init-IsDerived ps = fill-IsDerived ps Profiles.empty empty-IsDerived

  update-old :
      (c : DeviceProfileCache F) (p : DeviceProfile F)
      → IsDerived c
      → Dict.has c.device_profile_map p.name ≡ true
      → Profiles.update c p ≡ (ok tt, Profiles.store (removed c p.name) p)
  unfolding Profiles.update Profiles.add removed
  update-old c p v old = rw (remove_by_name-removed c p.name v, old, has-delete, eq_refl) refl

  update-new :
      (c : DeviceProfileCache F) (p : DeviceProfile F)
      → IsDerived c
      → Dict.has c.device_profile_map p.name ≡ false
      → Profiles.update c p ≡ (raise (cache_error entity_does_not_exist), c)
  unfolding Profiles.update
  update-new c p v new = rw (remove_by_name-removed c p.name v, new) refl

  -- On a valid cache `update` of a profile that is not there raises `ENTITY_DOES_NOT_EXIST` and
  -- changes nothing. Of one that is there it succeeds: its name finds the new profile, and every
  -- other name what it found before.
  pub update_lem :
      (c : DeviceProfileCache F) (p : DeviceProfile F)
      → IsDerived c
      → ((Profiles.for_name c p.name ≡ none)
          × (Profiles.update c p ≡ (raise (cache_error entity_does_not_exist), c)))
        ⊎ ((Profiles.for_name c p.name ≢ none)
            × ((Profiles.update c p).0 ≡ ok tt)
            × ((k : String)
                → Profiles.for_name (Profiles.update c p).1 k
                  ≡ (if p.name == k then some p else Profiles.for_name c k)))
  unfolding Profiles.for_name Profiles.store removed
  update_lem c p v = elim (Bool-cases (Dict.has c.device_profile_map p.name)) [
    | inl old ↦ rw (update-old c p v old) (
        inr (
          ground (arith, has-get c.device_profile_map p.name),
          refl,
          λ k. ground (
            arith,
            get-put (Dict.delete c.device_profile_map p.name) p.name k p,
            get-delete c.device_profile_map p.name k,
          ),
        ))
    | inr new ↦ inl (ground (arith, has-get c.device_profile_map p.name), update-new c p v new)
  ]
