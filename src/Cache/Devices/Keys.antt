-- ===== src/Cache/Devices/Keys.antt =====
-- The invariant of `DeviceCache`: a device stands under its own name, no name has a second entry,
-- and the two maps have the same keys.
use device_sdk_python.Base.{
  ◌≡◌, refl, ◌≢◌, true, not, String, Option, none, some, List, [], ◌∷◌, ◌==◌, arith, eq_iff, ◌↔◌,
  ◌&&◌, Bool-cases, inl, inr,
}
use device_sdk_python.Base.Int.{ℤ, pos}
use device_sdk_python.Base.Dict
use device_sdk_python.Base.Dict.{has-get, has-put, has-delete, get-put, get-delete}
use device_sdk_python.Base.Dict.Distinct.{
  IsDistinct, get-values, values-get, put-IsDistinct, delete-IsDistinct,
}
use device_sdk_python.Raise.{Outcome, ok, raise, after}
use device_sdk_python.Model.Metadata.{Device}
use device_sdk_python.Cache.Devices
use device_sdk_python.Cache.Devices.{DeviceCache, is_operating_state}
use device_sdk_python.Cache.Devices.Registry.{Call, step, run}

pub record IsValid {F : Type 0} (c : DeviceCache F) : Type 0 where
  pub named : (k : String) (d : Device F) → Dict.get c.device_map k ≡ some d → d.name ≡ k
  pub distinct : IsDistinct c.device_map
  pub tracked : (k : String) → Dict.has c.last_connected k ≡ Dict.has c.device_map k

module _ {F : Type 0} where
  stored : DeviceCache F → Device F → ℤ → DeviceCache F
  stored c d t = record {
    device_map = Dict.put c.device_map d.name d;
    last_connected = Dict.put c.last_connected d.name t;
  }

  stored-IsValid : (c : DeviceCache F) (d : Device F) (t : ℤ) → IsValid c → IsValid (stored c d t)
  unfolding stored
  stored-IsValid c d t v = record {
    named = λ k e p. ground (arith, get-put c.device_map d.name k d, v.named k e, eq_iff d.name k);
    distinct = put-IsDistinct c.device_map d.name d v.distinct;
    tracked = λ k.
        ground (
          arith,
          has-put c.device_map d.name k d,
          has-put c.last_connected d.name k t,
          v.tracked k,
        );
  }

  pub add-IsValid : (c : DeviceCache F) (d : Device F) → IsValid c → IsValid (Devices.add c d).1
  unfolding Devices.add
  add-IsValid c d v = elim (Bool-cases (Dict.has c.device_map d.name)) [
    | inl old ↦ rw old v
    | inr new ↦ rw new (unfold stored in stored-IsValid c d (pos 0) v)
  ]

  pub remove_by_name-IsValid :
      (c : DeviceCache F) (name : String) → IsValid c → IsValid (Devices.remove_by_name c name).1
  unfolding Devices.remove_by_name
  remove_by_name-IsValid c name v = elim (Bool-cases (Dict.has c.device_map name)) [
    | inl old ↦ rw old (record {
      named = λ k e p. ground (arith, get-delete c.device_map name k, v.named k e);
      distinct = delete-IsDistinct c.device_map name v.distinct;
      tracked = λ k.
          ground (
            arith,
            has-delete c.device_map name k,
            has-delete c.last_connected name k,
            v.tracked k,
          );
    })
    | inr new ↦ rw new v
  ]

  after-IsValid :
      (o : Outcome (DeviceCache F)) (f : DeviceCache F → Outcome (DeviceCache F))
      → IsValid o.1
      → ((c : DeviceCache F) → IsValid c → IsValid (f c).1)
      → IsValid (after o f).1
  after-IsValid (ok u, c) f v h = h c v
  after-IsValid (raise e, c) f v h = v

  pub update-IsValid :
      (c : DeviceCache F) (d : Device F) → IsValid c → IsValid (Devices.update c d).1
  unfolding Devices.update
  update-IsValid c d v =
      after-IsValid (Devices.remove_by_name c d.name) (λ c'. Devices.add c' d)
        (remove_by_name-IsValid c d.name v) (λ c' w. add-IsValid c' d w)

  -- `f` is the write to a field that is not the name.
  modify-IsValid :
      (c : DeviceCache F) (name : String) (f : Device F → Device F)
      → ((d : Device F) → (f d).name ≡ d.name)
      → IsValid c
      → (o : Option (Device F)) → Dict.get c.device_map name ≡ o
      → IsValid (Devices.modify c name f o).1
  unfolding Devices.modify
  modify-IsValid c name f same v none e = v
  modify-IsValid c name f same v (some d) e = record {
    named = λ k x p. ground (
      arith,
      get-put c.device_map name k (f d),
      v.named k x,
      v.named name d,
      same d,
      eq_iff name k,
    );
    distinct = put-IsDistinct c.device_map name (f d) v.distinct;
    tracked = λ k. ground (
      arith,
      has-put c.device_map name k (f d),
      v.tracked k,
      has-get c.device_map k,
      eq_iff name k,
    );
  }

  step-IsValid : (c : DeviceCache F) (call : Call F) → IsValid c → IsValid (step c call).1
  unfolding step Devices.update_admin_state Devices.update_operating_state
      Devices.set_last_connected_by_name
  step-IsValid c (Call.add d) v = add-IsValid c d v
  step-IsValid c (Call.update d) v = update-IsValid c d v
  step-IsValid c (Call.remove_by_name name) v = remove_by_name-IsValid c name v
  step-IsValid c (Call.update_admin_state name state) v =
      elim (Bool-cases (not (state == "LOCKED") && not (state == "UNLOCKED"))) [
        | inl e ↦ rw e v
        | inr e ↦ rw e (
            modify-IsValid c name (λ d. record d { admin_state = state }) (λ d. refl) v
              (Dict.get c.device_map name) refl)
      ]
  step-IsValid c (Call.update_operating_state name state) v =
      elim (Bool-cases (is_operating_state state)) [
        | inl e ↦ rw e (
            modify-IsValid c name (λ d. record d { operating_state = state }) (λ d. refl) v
              (Dict.get c.device_map name) refl)
        | inr e ↦ rw e v
      ]
  step-IsValid c (Call.set_last_connected_by_name name now) v =
      elim (Bool-cases (Dict.has c.last_connected name)) [
        | inl e ↦ rw e (record {
          named = v.named;
          distinct = v.distinct;
          tracked = λ k. ground (
            arith,
            has-put c.last_connected name k now,
            v.tracked k,
            v.tracked name,
            eq_iff name k,
          );
        })
        | inr e ↦ rw e v
      ]

  -- Every sequence of calls, failing or not, keeps the invariant.
  pub run-IsValid :
      (calls : List (Call F)) (c : DeviceCache F) → IsValid c → IsValid (run step c calls).1
  unfolding run
  run-IsValid [] c v = v
  run-IsValid (call ∷ calls) c v = run-IsValid calls (step c call).1 (step-IsValid c call v)

  fill-IsValid :
      (ds : List (Device F)) (c : DeviceCache F) → IsValid c → IsValid (Devices.fill c ds)
  unfolding Devices.fill stored
  fill-IsValid [] c v = v
  fill-IsValid (d ∷ ds) c v = fill-IsValid ds (stored c d (pos 0)) (stored-IsValid c d (pos 0) v)

  -- The constructor builds a cache that satisfies the invariant, whatever the devices.
  pub init-IsValid : (ds : List (Device F)) → IsValid (Devices.init ds)
  unfolding Devices.init Dict.has Dict.get
  init-IsValid ds =
      fill-IsValid ds Devices.empty
        (record { named = λ k d p. cc; distinct = tt; tracked = λ k. refl })

  -- `check_profile_not_used` answers True exactly when no device that `for_name` finds has the
  -- profile.
  pub check_profile_not_used_iff :
      (c : DeviceCache F) (profile_name : String)
      → IsValid c
      → (Devices.check_profile_not_used (some c) profile_name ≡ true) ↔ (
          (k : String) (d : Device F)
          → Devices.for_name c k ≡ some d
          → d.profile_name ≢ profile_name)
  unfolding Devices.check_profile_not_used Devices.for_name
  check_profile_not_used_iff c p v = (
    λ h k d e q. ground (
      arith,
      get-values c.device_map (λ (d : Device F). not (d.profile_name == p)) k d,
      eq_iff d.profile_name p,
    ),
    λ h.
        values-get c.device_map (λ d. not (d.profile_name == p)) v.distinct
          (λ k d e. ground (arith, h k d e, eq_iff d.profile_name p)),
  )
