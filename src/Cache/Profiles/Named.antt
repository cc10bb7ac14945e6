-- ===== src/Cache/Profiles/Named.antt =====
-- A profile stands under its own name in `DeviceProfileCache`, and what `for_name` finds after a method.
use device_sdk_python.Base.{◌≡◌, String, none, some, ◌==◌, if◌then◌else◌, arith, eq_iff, inl, inr}
use device_sdk_python.Base.Dict.{get-put, get-delete, has-get}
use device_sdk_python.Raise.{ok}
use device_sdk_python.Model.Metadata.{DeviceProfile}
use device_sdk_python.Cache.Profiles
use device_sdk_python.Cache.Profiles.{DeviceProfileCache}
use device_sdk_python.Cache.Profiles.Derived
use device_sdk_python.Cache.Profiles.Derived.{
  IsDerived, removed, remove_by_name-removed, add-IsDerived, update-IsDerived,
  remove_by_name-IsDerived,
}

pub record IsNamed {F : Type 0} (c : DeviceProfileCache F) : Type 0 where
  pub derived : IsDerived c
  pub named : (k : String) (p : DeviceProfile F) → Profiles.for_name c k ≡ some p → p.name ≡ k

module _ {F : Type 0} where
  pub for_name-add :
      (c : DeviceProfileCache F) (p : DeviceProfile F)
      → Profiles.for_name c p.name ≡ none
      → ((Profiles.add c p).0 ≡ ok tt)
        × ((k : String)
            → Profiles.for_name (Profiles.add c p).1 k
              ≡ (if p.name == k then some p else Profiles.for_name c k))
  unfolding Profiles.add Profiles.store Profiles.for_name
  for_name-add c p new = (
    ground (arith, has-get c.device_profile_map p.name),
    λ k.
        ground
          (arith, has-get c.device_profile_map p.name, get-put c.device_profile_map p.name k p),
  )

  pub for_name-remove :
      (c : DeviceProfileCache F) (name : String) (p : DeviceProfile F)
      → IsDerived c
      → Profiles.for_name c name ≡ some p
      → ((Profiles.remove_by_name c name).0 ≡ ok tt)
        × ((k : String)
            → Profiles.for_name (Profiles.remove_by_name c name).1 k
              ≡ (if name == k then none else Profiles.for_name c k))
  unfolding Profiles.for_name removed
  for_name-remove c name p v old = rw (remove_by_name-removed c name v) (
    ground (arith, has-get c.device_profile_map name),
    λ k. ground (arith, has-get c.device_profile_map name, get-delete c.device_profile_map name k),
  )

  pub for_name-update :
      (c : DeviceProfileCache F) (p q : DeviceProfile F)
      → IsDerived c
      → Profiles.for_name c p.name ≡ some q
      → ((Profiles.update c p).0 ≡ ok tt)
        × ((k : String)
            → Profiles.for_name (Profiles.update c p).1 k
              ≡ (if p.name == k then some p else Profiles.for_name c k))
  for_name-update c p q v old = elim (Derived.update_lem c p v) [
    | inl (missing, _) ↦ cc
    | inr (_, done, found) ↦ (done, found)
  ]

  -- a cache whose lookups differ by one object under its name, or by one name less
  pub IsNamed-set :
      (c c' : DeviceProfileCache F) (p : DeviceProfile F)
      → IsNamed c
      → IsDerived c'
      → ((k : String)
          → Profiles.for_name c' k ≡ (if p.name == k then some p else Profiles.for_name c k))
      → IsNamed c'
  IsNamed-set c c' p v derived found = record {
    derived = derived;
    named = λ k q e. ground (arith, found k, v.named k q, eq_iff p.name k);
  }

  pub IsNamed-unset :
      (c c' : DeviceProfileCache F) (name : String)
      → IsNamed c
      → IsDerived c'
      → ((k : String)
          → Profiles.for_name c' k ≡ (if name == k then none else Profiles.for_name c k))
      → IsNamed c'
  IsNamed-unset c c' name v derived found = record {
    derived = derived;
    named = λ k q e. ground (arith, found k, v.named k q);
  }
