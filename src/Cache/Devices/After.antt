-- ===== src/Cache/Devices/After.antt =====
-- What `for_name` finds after a method of `DeviceCache`.
use device_sdk_python.Base.{◌≡◌, String, none, some, ◌==◌, if◌then◌else◌, arith, eq_iff}
use device_sdk_python.Base.Dict
use device_sdk_python.Base.Dict.{get-put, get-delete, has-get, has-delete}
use device_sdk_python.Raise.{ok}
use device_sdk_python.Model.Metadata.{Device}
use device_sdk_python.Cache.Devices
use device_sdk_python.Cache.Devices.{DeviceCache}

module _ {F : Type 0} where
  pub for_name-add :
      (c : DeviceCache F) (d : Device F) (k : String)
      → (Devices.add c d).0 ≡ ok tt
      → Devices.for_name (Devices.add c d).1 k
        ≡ (if d.name == k then some d else Devices.for_name c k)
  unfolding Devices.add Devices.for_name
  for_name-add c d k h = ground (arith, get-put c.device_map d.name k d)

  pub for_name-remove_by_name :
      (c : DeviceCache F) (name k : String)
      → (Devices.remove_by_name c name).0 ≡ ok tt
      → Devices.for_name (Devices.remove_by_name c name).1 k
        ≡ (if name == k then none else Devices.for_name c k)
  unfolding Devices.remove_by_name Devices.for_name
  for_name-remove_by_name c name k h = ground (arith, get-delete c.device_map name k)

  pub for_name-update :
      (c : DeviceCache F) (d : Device F) (k : String)
      → (Devices.update c d).0 ≡ ok tt
      → Devices.for_name (Devices.update c d).1 k
        ≡ (if d.name == k then some d else Devices.for_name c k)
  unfolding Devices.update Devices.add Devices.remove_by_name Devices.for_name
  for_name-update c d k h = ground (
    arith,
    get-delete c.device_map d.name k,
    get-put (Dict.delete c.device_map d.name) d.name k d,
    has-delete c.device_map d.name d.name,
    eq_iff d.name d.name,
    eq_iff d.name k,
  )

  -- When the methods succeed.
  pub add-ok :
      (c : DeviceCache F) (d : Device F)
      → Devices.for_name c d.name ≡ none
      → (Devices.add c d).0 ≡ ok tt
  unfolding Devices.add Devices.for_name
  add-ok c d new = ground (arith, has-get c.device_map d.name)

  pub remove_by_name-ok :
      (c : DeviceCache F) (name : String) (d : Device F)
      → Devices.for_name c name ≡ some d
      → (Devices.remove_by_name c name).0 ≡ ok tt
  unfolding Devices.remove_by_name Devices.for_name
  remove_by_name-ok c name d old = ground (arith, has-get c.device_map name)

  pub update-ok :
      (c : DeviceCache F) (d e : Device F)
      → Devices.for_name c d.name ≡ some e
      → (Devices.update c d).0 ≡ ok tt
  unfolding Devices.update Devices.add Devices.remove_by_name Devices.for_name
  update-ok c d e old = ground (
    arith,
    has-get c.device_map d.name,
    has-delete c.device_map d.name d.name,
    eq_iff d.name d.name,
  )
