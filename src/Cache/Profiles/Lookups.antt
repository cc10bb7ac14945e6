-- ===== src/Cache/Profiles/Lookups.antt =====
-- With derived maps that are those of the stored profiles, a lookup through a derived map is a lookup
-- in the lists of the profile itself.
use device_sdk_python.Base.{
  ◌≡◌, refl, String, Option, none, some, List, [], ◌∷◌, ◌==◌, arith, if◌then◌else◌, inl, inr,
  Option-cases,
}
use device_sdk_python.Base.Dict
use device_sdk_python.Base.Dict.{Dict, has-get, has-delete, get-put, get-delete, is_some}
use device_sdk_python.Model.Metadata.{DeviceResource, DeviceCommand}
use device_sdk_python.Cache.Profiles
use device_sdk_python.Cache.Profiles.{DeviceProfileCache, lookup_in}
use device_sdk_python.Cache.Profiles.Derived.{IsDerived}

-- The last element of the name `n`: a later declaration takes the place of an earlier one.
pub find_last {ℓ} : {A : Type ℓ} → (A → String) → String → List A → Option A
find_last name n [] = none
find_last name n (x ∷ xs) = elim (find_last name n xs) [
  | some y ↦ some y
  | none ↦ if name x == n then some x else none
]

abbrev or_else {ℓ} : {A : Type ℓ} → Option A → Option A → Option A
or_else (some x) o = some x
or_else none o = o

abbrev pub bind_option {ℓ κ} : {A : Type ℓ} {B : Type κ} → Option A → (A → Option B) → Option B
bind_option none f = none
bind_option (some x) f = f x

module _ {F : Type 0} where
  get-resources_onto :
      (drs : List (DeviceResource F)) (m : Dict (DeviceResource F)) (n : String)
      → Dict.get (Profiles.resources_onto m drs) n
        ≡ or_else (find_last (λ dr. dr.name) n drs) (Dict.get m n)
  unfolding Profiles.resources_onto find_last
  get-resources_onto [] m n = refl
  get-resources_onto (dr ∷ drs) m n =
      ground (arith, get-resources_onto drs (Dict.put m dr.name dr) n, get-put m dr.name n dr)

  get-commands_onto :
      (dcs : List (DeviceCommand F)) (m : Dict (DeviceCommand F)) (n : String)
      → Dict.get (Profiles.commands_onto m dcs) n
        ≡ or_else (find_last (λ dc. dc.name) n dcs) (Dict.get m n)
  unfolding Profiles.commands_onto find_last
  get-commands_onto [] m n = refl
  get-commands_onto (dc ∷ dcs) m n =
      ground (arith, get-commands_onto dcs (Dict.put m dc.name dc) n, get-put m dc.name n dc)

  -- On a valid cache a resource of a profile is found exactly if the profile is there and declares
  -- a resource of that name; it is the last one that it declares.
  pub device_resource_lem :
      (c : DeviceProfileCache F) (profile_name resource_name : String)
      → IsDerived c
      → Profiles.device_resource c profile_name resource_name
        ≡ bind_option
            (Profiles.for_name c profile_name)
            (λ p. find_last (λ dr. dr.name) resource_name p.device_resources)
  unfolding Profiles.device_resource Profiles.for_name Profiles.device_resource_slice_to_map
      Dict.get
  device_resource_lem c k n v = elim (Option-cases (Dict.get c.device_profile_map k)) [
    | inl e ↦ ground (arith, v.resources k)
    | inr (p, e) ↦ ground (arith, v.resources k, get-resources_onto p.device_resources [] n)
  ]

  -- On a valid cache a command of a profile is found exactly if the profile is there and declares a
  -- command of that name; it is the last one that it declares.
  pub device_command_lem :
      (c : DeviceProfileCache F) (profile_name command_name : String)
      → IsDerived c
      → Profiles.device_command c profile_name command_name
        ≡ bind_option
            (Profiles.for_name c profile_name)
            (λ p. find_last (λ dc. dc.name) command_name p.device_commands)
  unfolding Profiles.device_command Profiles.for_name Profiles.device_command_slice_to_map Dict.get
  device_command_lem c k n v = elim (Option-cases (Dict.get c.device_profile_map k)) [
    | inl e ↦ ground (arith, v.commands k)
    | inr (p, e) ↦ ground (arith, v.commands k, get-commands_onto p.device_commands [] n)
  ]
