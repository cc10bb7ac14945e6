-- ===== src/Cache/ProvisionWatchers.antt =====
-- `ProvisionWatcherCache` of internal/cache/provisionwatchers.py.
pub mod Keys
pub mod After
use device_sdk_python.Base.{
  not, ◌&&◌, String, Option, none, some, List, [], ◌∷◌, ◌==◌, if◌then◌else◌,
}
use device_sdk_python.Base.Dict
use device_sdk_python.Base.Dict.{Dict}
use device_sdk_python.Raise.{
  Outcome, ok, raise, after, cache_error, CacheErrorKind, duplicate_name, entity_does_not_exist,
}
use device_sdk_python.Model.Metadata.{ProvisionWatcher, admin_state_locked, admin_state_unlocked}

pub record ProvisionWatcherCache (F : Type 0) : Type 0 where
  pub pw_map : Dict (ProvisionWatcher F)

module _ {F : Type 0} where
  fill : ProvisionWatcherCache F → List (ProvisionWatcher F) → ProvisionWatcherCache F
  fill c [] = c
  fill c (watcher ∷ watchers) =
      fill (record { pw_map = Dict.put c.pw_map watcher.name watcher }) watchers

  unfoldable pub init : List (ProvisionWatcher F) → ProvisionWatcherCache F
  unfolding fill
  init watchers = fill (record { pw_map = [] }) watchers

  -- `none` for the pair of an empty `ProvisionWatcher` and `False`
  unfoldable pub for_name : ProvisionWatcherCache F → String → Option (ProvisionWatcher F)
  for_name c name = Dict.get c.pw_map name

  -- `all`
  unfoldable pub watchers : ProvisionWatcherCache F → List (ProvisionWatcher F)
  watchers c = Dict.values c.pw_map

  -- `add` and `_add`
  unfoldable pub add :
      ProvisionWatcherCache F → ProvisionWatcher F → Outcome (ProvisionWatcherCache F)
  add c watcher =
      if Dict.has c.pw_map watcher.name
      then (raise (cache_error duplicate_name), c)
      else (ok tt, record { pw_map = Dict.put c.pw_map watcher.name watcher })

  -- `remove_by_name` and `_remove_by_name`
  unfoldable pub remove_by_name :
      ProvisionWatcherCache F → String → Outcome (ProvisionWatcherCache F)
  remove_by_name c name =
      if Dict.has c.pw_map name
      then (ok tt, record { pw_map = Dict.delete c.pw_map name })
      else (raise (cache_error entity_does_not_exist), c)

  unfoldable pub update :
      ProvisionWatcherCache F → ProvisionWatcher F → Outcome (ProvisionWatcherCache F)
  unfolding add remove_by_name
  update c watcher = after (remove_by_name c watcher.name) (λ c'. add c' watcher)

  -- the write to a field of the watcher that is stored under `name`
  modify :
      ProvisionWatcherCache F
      → String
      → String
      → Option (ProvisionWatcher F)
      → Outcome (ProvisionWatcherCache F)
  modify c name state none = (raise (cache_error entity_does_not_exist), c)
  modify c name state (some watcher) =
      (ok tt, record { pw_map = Dict.put c.pw_map name (record watcher { admin_state = state }) })

  unfoldable pub update_admin_state :
      ProvisionWatcherCache F → String → String → Outcome (ProvisionWatcherCache F)
  unfolding modify
  update_admin_state c name state =
      if not (state == admin_state_locked) && not (state == admin_state_unlocked)
      then (raise (cache_error CacheErrorKind.contract_invalid), c)
      else modify c name state (Dict.get c.pw_map name)
