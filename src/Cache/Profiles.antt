-- ===== src/Cache/Profiles.antt =====
-- `DeviceProfileCache` of internal/cache/profiles.py: the profiles, and two maps derived from them.
-- A regular expression is Python's `re.Pattern`: its source text, and `search` as a function from a
-- text to the text of the leftmost match.
pub mod Derived
pub mod Lookups
pub mod Named
use device_sdk_python.Base.{
  Bool, false, ◌||◌, String, Option, none, some, List, [], ◌∷◌, ◌==◌, if◌then◌else◌,
}
use device_sdk_python.Base.Dict
use device_sdk_python.Base.Dict.{Dict}
use device_sdk_python.Raise.{
  Result, Outcome, ok, raise, after, cache_error, key_error, duplicate_name, entity_does_not_exist,
  ◌>>=◌, ◌>>◌,
}
use device_sdk_python.Model.Metadata.{
  DeviceProfile, DeviceResource, DeviceCommand, ResourceOperation,
}

pub record Pattern : Type 0 where
  pub pattern : String
  pub search : String → Option String

pub record DeviceProfileCache (F : Type 0) : Type 0 where
  pub device_profile_map : Dict (DeviceProfile F)
  pub device_resource_map : Dict (Dict (DeviceResource F))
  pub device_command_map : Dict (Dict (DeviceCommand F))

-- `m.get(k1)` and then `.get(k2)` of what is there
lookup_in : {V : Type 0} → Option (Dict V) → String → Option V
lookup_in none name = none
lookup_in (some m) name = Dict.get m name

-- `match is not None and match.group(0) == name`
abbrev spans : Option String → String → Bool
spans none name = false
spans (some group) name = group == name

or_missing : {V : Type 0} → Option V → Result V
or_missing none = raise (cache_error entity_does_not_exist)
or_missing (some v) = ok v

module _ {F : Type 0} where
  abbrev pub empty : DeviceProfileCache F
  empty = record { device_profile_map = []; device_resource_map = []; device_command_map = [] }

  resources_onto : Dict (DeviceResource F) → List (DeviceResource F) → Dict (DeviceResource F)
  resources_onto result [] = result
  resources_onto result (dr ∷ drs) = resources_onto (Dict.put result dr.name dr) drs

  unfoldable pub device_resource_slice_to_map : List (DeviceResource F) → Dict (DeviceResource F)
  unfolding resources_onto
  device_resource_slice_to_map device_resources = resources_onto [] device_resources

  commands_onto : Dict (DeviceCommand F) → List (DeviceCommand F) → Dict (DeviceCommand F)
  commands_onto result [] = result
  commands_onto result (dc ∷ dcs) = commands_onto (Dict.put result dc.name dc) dcs

  unfoldable pub device_command_slice_to_map : List (DeviceCommand F) → Dict (DeviceCommand F)
  unfolding commands_onto
  device_command_slice_to_map device_commands = commands_onto [] device_commands

  -- the three writes of `__init__` and of `_add`
  unfoldable pub store : DeviceProfileCache F → DeviceProfile F → DeviceProfileCache F
  store c profile = record {
    device_profile_map = Dict.put c.device_profile_map profile.name profile;
    device_resource_map =
        Dict.put c.device_resource_map profile.name
          (device_resource_slice_to_map profile.device_resources);
    device_command_map =
        Dict.put c.device_command_map profile.name
          (device_command_slice_to_map profile.device_commands);
  }

  fill : DeviceProfileCache F → List (DeviceProfile F) → DeviceProfileCache F
  unfolding store
  fill c [] = c
  fill c (profile ∷ profiles) = fill (store c profile) profiles

  unfoldable pub init : List (DeviceProfile F) → DeviceProfileCache F
  unfolding fill
  init profiles = fill empty profiles

  unfoldable pub for_name : DeviceProfileCache F → String → Option (DeviceProfile F)
  for_name c name = Dict.get c.device_profile_map name

  -- `all`
  unfoldable pub profiles : DeviceProfileCache F → List (DeviceProfile F)
  profiles c = Dict.values c.device_profile_map

  -- `add` and `_add`
  unfoldable pub add : DeviceProfileCache F → DeviceProfile F → Outcome (DeviceProfileCache F)
  unfolding store
  add c profile =
      if Dict.has c.device_profile_map profile.name
      then (raise (cache_error duplicate_name), c)
      else (ok tt, store c profile)

  unfoldable pub check_and_add :
      DeviceProfileCache F → DeviceProfile F → Outcome (DeviceProfileCache F)
  unfolding add
  check_and_add c profile =
      if Dict.has c.device_profile_map profile.name then (ok tt, c) else add c profile

  -- `remove_by_name` and `_remove_by_name`. `del` of a key that is not in one of the derived maps
  -- raises `KeyError`, with the deletions before it done.
  unfoldable pub remove_by_name : DeviceProfileCache F → String → Outcome (DeviceProfileCache F)
  remove_by_name c name =
      if Dict.has c.device_profile_map name
      then (let c₁ = record c { device_profile_map = Dict.delete c.device_profile_map name } in
          if Dict.has c.device_resource_map name
          then (let c₂ = record c₁ {
            device_resource_map = Dict.delete c.device_resource_map name;
          } in
              if Dict.has c.device_command_map name
              then (ok tt, record c₂ { device_command_map = Dict.delete c.device_command_map name })
              else (raise key_error, c₂))
          else (raise key_error, c₁))
      else (raise (cache_error entity_does_not_exist), c)

  unfoldable pub update : DeviceProfileCache F → DeviceProfile F → Outcome (DeviceProfileCache F)
  unfolding add remove_by_name
  update c profile = after (remove_by_name c profile.name) (λ c'. add c' profile)

  -- `none` for the pair of an empty value and `False`, here and below
  unfoldable pub device_resource :
      DeviceProfileCache F → String → String → Option (DeviceResource F)
  unfolding lookup_in
  device_resource c profile_name resource_name =
      lookup_in (Dict.get c.device_resource_map profile_name) resource_name

  unfoldable pub device_command : DeviceProfileCache F → String → String → Option (DeviceCommand F)
  unfolding lookup_in
  device_command c profile_name command_name =
      lookup_in (Dict.get c.device_command_map profile_name) command_name

  unfoldable pub regex_matches : Pattern → DeviceResource F → Bool
  regex_matches regex dr = dr.name == regex.pattern || spans (regex.search dr.name) dr.name

  matched_of : Pattern → List (DeviceResource F) → List (DeviceResource F)
  matched_of regex [] = []
  matched_of regex (dr ∷ drs) =
      let rest = matched_of regex drs in if regex_matches regex dr then dr ∷ rest else rest

  matched_in : Pattern → Option (Dict (DeviceResource F)) → Option (List (DeviceResource F))
  unfolding matched_of
  matched_in regex none = none
  matched_in regex (some resources) = some (matched_of regex (Dict.values resources))

  unfoldable pub device_resources_by_regex :
      DeviceProfileCache F → String → Pattern → Option (List (DeviceResource F))
  unfolding matched_in
  device_resources_by_regex c profile_name regex =
      matched_in regex (Dict.get c.device_resource_map profile_name)

  -- the inner loop of `resource_operation`
  operation_in : List (ResourceOperation F) → String → Option (ResourceOperation F)
  operation_in [] resource_name = none
  operation_in (ro ∷ ros) resource_name =
      if ro.device_resource == resource_name then some ro else operation_in ros resource_name

  -- the outer loop: a `return` in the inner one ends both
  operation_of : List (DeviceCommand F) → String → Option (ResourceOperation F)
  unfolding operation_in
  operation_of [] resource_name = none
  operation_of (dc ∷ dcs) resource_name =
      let rest = operation_of dcs resource_name in
      elim (operation_in dc.resource_operations resource_name) [ none ↦ rest | some ro ↦ some ro ]

  -- `self._device_command_map[profile_name]`
  commands_at : Option (Dict (DeviceCommand F)) → Result (Dict (DeviceCommand F))
  commands_at none = raise key_error
  commands_at (some m) = ok m

  verify_profile_exists : DeviceProfileCache F → String → Result (Unit {0})
  verify_profile_exists c profile_name =
      if Dict.has c.device_profile_map profile_name
      then ok tt
      else raise (cache_error entity_does_not_exist)

  unfoldable pub resource_operation :
      DeviceProfileCache F → String → String → Result (ResourceOperation F)
  unfolding operation_of or_missing commands_at verify_profile_exists
  resource_operation c profile_name resource_name = do
    verify_profile_exists c profile_name
    commands ← commands_at (Dict.get c.device_command_map profile_name)
    or_missing (operation_of (Dict.values commands) resource_name)
