-- ===== src/Cache/ProvisionWatchers/After.antt =====
-- What `for_name` finds after a method of `ProvisionWatcherCache`.
use device_sdk_python.Base.{◌≡◌, String, none, some, ◌==◌, if◌then◌else◌, arith, eq_iff}
use device_sdk_python.Base.Dict
use device_sdk_python.Base.Dict.{get-put, get-delete, has-get, has-delete}
use device_sdk_python.Raise.{ok}
use device_sdk_python.Model.Metadata.{ProvisionWatcher}
use device_sdk_python.Cache.ProvisionWatchers
use device_sdk_python.Cache.ProvisionWatchers.{ProvisionWatcherCache}

module _ {F : Type 0} where
  pub for_name-add :
      (c : ProvisionWatcherCache F) (w : ProvisionWatcher F)
      → ProvisionWatchers.for_name c w.name ≡ none
      → ((ProvisionWatchers.add c w).0 ≡ ok tt)
        × ((k : String)
            → ProvisionWatchers.for_name (ProvisionWatchers.add c w).1 k
              ≡ (if w.name == k then some w else ProvisionWatchers.for_name c k))
  unfolding ProvisionWatchers.add ProvisionWatchers.for_name
  for_name-add c w new = (
    ground (arith, has-get c.pw_map w.name),
    λ k. ground (arith, has-get c.pw_map w.name, get-put c.pw_map w.name k w),
  )

  pub for_name-remove :
      (c : ProvisionWatcherCache F) (name : String) (w : ProvisionWatcher F)
      → ProvisionWatchers.for_name c name ≡ some w
      → ((ProvisionWatchers.remove_by_name c name).0 ≡ ok tt)
        × ((k : String)
            → ProvisionWatchers.for_name (ProvisionWatchers.remove_by_name c name).1 k
              ≡ (if name == k then none else ProvisionWatchers.for_name c k))
  unfolding ProvisionWatchers.remove_by_name ProvisionWatchers.for_name
  for_name-remove c name w old = (
    ground (arith, has-get c.pw_map name),
    λ k. ground (arith, has-get c.pw_map name, get-delete c.pw_map name k),
  )

  pub for_name-update :
      (c : ProvisionWatcherCache F) (w v : ProvisionWatcher F)
      → ProvisionWatchers.for_name c w.name ≡ some v
      → ((ProvisionWatchers.update c w).0 ≡ ok tt)
        × ((k : String)
            → ProvisionWatchers.for_name (ProvisionWatchers.update c w).1 k
              ≡ (if w.name == k then some w else ProvisionWatchers.for_name c k))
  unfolding ProvisionWatchers.update ProvisionWatchers.add ProvisionWatchers.remove_by_name
      ProvisionWatchers.for_name
  for_name-update c w v old = (
    ground
        (arith, has-get c.pw_map w.name, has-delete c.pw_map w.name w.name, eq_iff w.name w.name),
    λ k. ground (
      arith,
      has-get c.pw_map w.name,
      has-delete c.pw_map w.name w.name,
      get-delete c.pw_map w.name k,
      get-put (Dict.delete c.pw_map w.name) w.name k w,
      eq_iff w.name w.name,
      eq_iff w.name k,
    ),
  )
