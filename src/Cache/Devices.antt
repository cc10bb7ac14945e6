-- ===== src/Cache/Devices.antt =====
-- `DeviceCache` of internal/cache/devices.py. A method returns its result beside the new cache; the
-- clock of `set_last_connected_by_name` is an argument.
pub mod Registry
pub mod Keys
pub mod After
use device_sdk_python.Base.{
  Bool, true, not, ◌&&◌, ◌||◌, String, Option, none, some, List, [], ◌∷◌, ◌==◌, all, if◌then◌else◌,
}
use device_sdk_python.Base.Int.{ℤ, pos}
use device_sdk_python.Base.Dict
use device_sdk_python.Base.Dict.{Dict}
use device_sdk_python.Raise.{
  Outcome, ok, raise, after, cache_error, CacheErrorKind, duplicate_name, entity_does_not_exist,
}
use device_sdk_python.Model.Metadata.{Device, admin_state_locked, admin_state_unlocked}

pub record DeviceCache (F : Type 0) : Type 0 where
  pub device_map : Dict (Device F)
  pub last_connected : Dict ℤ

-- `state not in valid_states`
abbrev pub is_operating_state : String → Bool
is_operating_state state = state == "UP" || state == "DOWN" || state == "DISABLED"

-- `self._last_connected.get(name, 0)`
abbrev or_zero : Option ℤ → ℤ
or_zero none = pos 0
or_zero (some t) = t

module _ {F : Type 0} where
  abbrev pub empty : DeviceCache F
  empty = record { device_map = []; last_connected = [] }

  -- the loop of `__init__`; a later device of the same name takes the place of an earlier one
  fill : DeviceCache F → List (Device F) → DeviceCache F
  fill c [] = c
  fill c (device ∷ devices) =
      fill
        (record {
          device_map = Dict.put c.device_map device.name device;
          last_connected = Dict.put c.last_connected device.name (pos 0);
        })
        devices

  unfoldable pub init : List (Device F) → DeviceCache F
  unfolding fill
  init devices = fill empty devices

  -- `none` for the pair of an empty `Device` and `False`
  unfoldable pub for_name : DeviceCache F → String → Option (Device F)
  for_name c name = Dict.get c.device_map name

  unfoldable pub device_exists : DeviceCache F → String → Bool
  device_exists c name = Dict.has c.device_map name

  -- `all`
  unfoldable pub devices : DeviceCache F → List (Device F)
  devices c = Dict.values c.device_map

  -- `add` and `_add`
  unfoldable pub add : DeviceCache F → Device F → Outcome (DeviceCache F)
  add c device =
      if Dict.has c.device_map device.name then (raise (cache_error duplicate_name), c) else (
        ok tt,
        record {
          device_map = Dict.put c.device_map device.name device;
          last_connected = Dict.put c.last_connected device.name (pos 0);
        },
      )

  -- `remove_by_name` and `_remove_by_name`
  unfoldable pub remove_by_name : DeviceCache F → String → Outcome (DeviceCache F)
  remove_by_name c name =
      if Dict.has c.device_map name
      then (
        ok tt,
        record {
          device_map = Dict.delete c.device_map name;
          last_connected = Dict.delete c.last_connected name;
        },
      )
      else (raise (cache_error entity_does_not_exist), c)

  unfoldable pub update : DeviceCache F → Device F → Outcome (DeviceCache F)
  unfolding add remove_by_name
  update c device = after (remove_by_name c device.name) (λ c'. add c' device)

  -- the write to a field of the device that is stored under `name`
  modify :
      DeviceCache F → String → (Device F → Device F) → Option (Device F) → Outcome (DeviceCache F)
  modify c name f none = (raise (cache_error entity_does_not_exist), c)
  modify c name f (some device) =
      (ok tt, record c { device_map = Dict.put c.device_map name (f device) })

  unfoldable pub update_admin_state : DeviceCache F → String → String → Outcome (DeviceCache F)
  unfolding modify
  update_admin_state c name state =
      if not (state == admin_state_locked) && not (state == admin_state_unlocked)
      then (raise (cache_error CacheErrorKind.contract_invalid), c)
      else modify c name (λ d. record d { admin_state = state }) (Dict.get c.device_map name)

  unfoldable pub update_operating_state : DeviceCache F → String → String → Outcome (DeviceCache F)
  unfolding modify
  update_operating_state c name state =
      if not (is_operating_state state)
      then (raise (cache_error CacheErrorKind.contract_invalid), c)
      else modify c name (λ d. record d { operating_state = state }) (Dict.get c.device_map name)

  unfoldable pub set_last_connected_by_name : DeviceCache F → String → ℤ → DeviceCache F
  set_last_connected_by_name c name now =
      if Dict.has c.last_connected name
      then record c { last_connected = Dict.put c.last_connected name now }
      else c

  unfoldable pub get_last_connected_by_name : DeviceCache F → String → ℤ
  get_last_connected_by_name c name = or_zero (Dict.get c.last_connected name)

  -- the singleton is `none` until `create_device_cache` has run
  unfoldable pub check_profile_not_used : Option (DeviceCache F) → String → Bool
  check_profile_not_used none profile_name = true
  check_profile_not_used (some c) profile_name =
      all (λ d. not (d.profile_name == profile_name)) (Dict.values c.device_map)
