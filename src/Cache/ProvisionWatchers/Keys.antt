-- ===== src/Cache/ProvisionWatchers/Keys.antt =====
-- The invariant of `ProvisionWatcherCache`: a watcher stands under its own name, and no name has a
-- second entry.
use device_sdk_python.Base.{
  ◌≡◌, refl, not, ◌&&◌, ◌∷◌, String, Option, none, some, List, [], ◌==◌, arith, eq_iff, Bool-cases,
  inl, inr,
}
use device_sdk_python.Base.Dict
use device_sdk_python.Base.Dict.{has-get, has-put, has-delete, get-put, get-delete}
use device_sdk_python.Base.Dict.Distinct.{IsDistinct, put-IsDistinct, delete-IsDistinct}
use device_sdk_python.Raise.{Outcome, ok, raise, after}
use device_sdk_python.Model.Metadata.{ProvisionWatcher}
use device_sdk_python.Cache.ProvisionWatchers
use device_sdk_python.Cache.ProvisionWatchers.{ProvisionWatcherCache}

pub record IsValid {F : Type 0} (c : ProvisionWatcherCache F) : Type 0 where
  pub named : (k : String) (w : ProvisionWatcher F) → Dict.get c.pw_map k ≡ some w → w.name ≡ k
  pub distinct : IsDistinct c.pw_map

-- A call of one of the methods that change the cache.
pub data Call (F : Type 0) : Type 0 where
  add update : ProvisionWatcher F → Call F
  remove_by_name : String → Call F
  update_admin_state : String → String → Call F

module _ {F : Type 0} where
  unfoldable pub step : ProvisionWatcherCache F → Call F → Outcome (ProvisionWatcherCache F)
  step c (Call.add watcher) = ProvisionWatchers.add c watcher
  step c (Call.update watcher) = ProvisionWatchers.update c watcher
  step c (Call.remove_by_name name) = ProvisionWatchers.remove_by_name c name
  step c (Call.update_admin_state name state) = ProvisionWatchers.update_admin_state c name state

  unfoldable pub run : ProvisionWatcherCache F → List (Call F) → ProvisionWatcherCache F
  unfolding step
  run c [] = c
  run c (call ∷ calls) = run (step c call).1 calls

  -- a write under the watcher's own name
  stored-IsValid :
      (c : ProvisionWatcherCache F) (k : String) (w : ProvisionWatcher F)
      → w.name ≡ k
      → IsValid c
      → IsValid (record { pw_map = Dict.put c.pw_map k w })
  stored-IsValid c k w e v = record {
    named = λ j x p. ground (arith, get-put c.pw_map k j w, v.named j x, eq_iff k j, e);
    distinct = put-IsDistinct c.pw_map k w v.distinct;
  }

  pub add-IsValid :
      (c : ProvisionWatcherCache F) (w : ProvisionWatcher F)
      → IsValid c
      → IsValid (ProvisionWatchers.add c w).1
  unfolding ProvisionWatchers.add
  add-IsValid c w v = elim (Bool-cases (Dict.has c.pw_map w.name)) [
    | inl old ↦ rw old v
    | inr new ↦ rw new (stored-IsValid c w.name w refl v)
  ]

  pub remove_by_name-IsValid :
      (c : ProvisionWatcherCache F) (name : String)
      → IsValid c
      → IsValid (ProvisionWatchers.remove_by_name c name).1
  unfolding ProvisionWatchers.remove_by_name
  remove_by_name-IsValid c name v = elim (Bool-cases (Dict.has c.pw_map name)) [
    | inl old ↦ rw old (record {
      named = λ k w p. ground (arith, get-delete c.pw_map name k, v.named k w);
      distinct = delete-IsDistinct c.pw_map name v.distinct;
    })
    | inr new ↦ rw new v
  ]

  after-IsValid :
      (o : Outcome (ProvisionWatcherCache F)) (w : ProvisionWatcher F)
      → IsValid o.1
      → IsValid (after o (λ c. ProvisionWatchers.add c w)).1
  after-IsValid (ok u, c) w v = add-IsValid c w v
  after-IsValid (raise x, c) w v = v

  pub update-IsValid :
      (c : ProvisionWatcherCache F) (w : ProvisionWatcher F)
      → IsValid c
      → IsValid (ProvisionWatchers.update c w).1
  unfolding ProvisionWatchers.update
  update-IsValid c w v =
      after-IsValid (ProvisionWatchers.remove_by_name c w.name) w
        (remove_by_name-IsValid c w.name v)

  modify-IsValid :
      (c : ProvisionWatcherCache F) (name state : String)
      → IsValid c
      → (o : Option (ProvisionWatcher F)) → Dict.get c.pw_map name ≡ o
      → IsValid (ProvisionWatchers.modify c name state o).1
  unfolding ProvisionWatchers.modify
  modify-IsValid c name state v none e = v
  modify-IsValid c name state v (some w) e =
      stored-IsValid c name (record w { admin_state = state }) (v.named name w e) v

  step-IsValid : (c : ProvisionWatcherCache F) (call : Call F) → IsValid c → IsValid (step c call).1
  unfolding step ProvisionWatchers.update_admin_state
  step-IsValid c (Call.add w) v = add-IsValid c w v
  step-IsValid c (Call.update w) v = update-IsValid c w v
  step-IsValid c (Call.remove_by_name name) v = remove_by_name-IsValid c name v
  step-IsValid c (Call.update_admin_state name state) v =
      elim (Bool-cases (not (state == "LOCKED") && not (state == "UNLOCKED"))) [
        | inl e ↦ rw e v
        | inr e ↦ rw e (modify-IsValid c name state v (Dict.get c.pw_map name) refl)
      ]

  pub run-IsValid :
      (calls : List (Call F)) (c : ProvisionWatcherCache F) → IsValid c → IsValid (run c calls)
  unfolding run
  run-IsValid [] c v = v
  run-IsValid (call ∷ calls) c v = run-IsValid calls (step c call).1 (step-IsValid c call v)

  fill-IsValid :
      (ws : List (ProvisionWatcher F)) (c : ProvisionWatcherCache F)
      → IsValid c
      → IsValid (ProvisionWatchers.fill c ws)
  unfolding ProvisionWatchers.fill
  fill-IsValid [] c v = v
  fill-IsValid (w ∷ ws) c v =
      fill-IsValid ws (record { pw_map = Dict.put c.pw_map w.name w })
        (stored-IsValid c w.name w refl v)

  -- The cache that the constructor builds from any watchers is valid, and every sequence of calls on
  -- it, failing or not, keeps it so: a watcher is stored under its own name, and names are distinct.
  pub run-init-IsValid :
      (ws : List (ProvisionWatcher F)) (calls : List (Call F))
      → IsValid (run (ProvisionWatchers.init ws) calls)
  unfolding ProvisionWatchers.init Dict.get
  run-init-IsValid ws calls =
      run-IsValid calls (ProvisionWatchers.init ws)
        (fill-IsValid ws (record { pw_map = [] }) (record { named = λ k w p. cc; distinct = tt }))
