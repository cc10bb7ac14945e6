-- ===== src/Cache/Devices/Registry.antt =====
-- The device cache against its specification: a registry that says which device a name has.
use device_sdk_python.Base.{
  ◌≡◌, refl, Bool, true, false, ◌||◌, String, Option, none, some, List, [], ◌∷◌, ◌==◌, arith,
  eq_iff, if◌then◌else◌, Bool-cases, inl, inr,
}
use mathlib.Core.Path.{ap₂}
use device_sdk_python.Base.Int.{ℤ}
use device_sdk_python.Base.Dict
use device_sdk_python.Base.Dict.{has-get, has-delete, get-put, get-delete, get-empty}
use device_sdk_python.Raise.{
  Result, Outcome, ok, raise, cache_error, CacheErrorKind, duplicate_name, entity_does_not_exist,
}
use device_sdk_python.Model.Metadata.{Device}
use device_sdk_python.Cache.Devices
use device_sdk_python.Cache.Devices.{DeviceCache, is_operating_state}

-- A call of one of the methods that change the cache.
pub data Call (F : Type 0) : Type 0 where
  add update : Device F → Call F
  remove_by_name : String → Call F
  update_admin_state update_operating_state : String → String → Call F
  set_last_connected_by_name : String → ℤ → Call F

-- What a name stands for: a device, or nothing.
abbrev pub Registry : Type 0 → Type 0
Registry F = String → Option (Device F)

module _ {F : Type 0} where
  unfoldable pub step : DeviceCache F → Call F → Outcome (DeviceCache F)
  step c (Call.add device) = Devices.add c device
  step c (Call.update device) = Devices.update c device
  step c (Call.remove_by_name name) = Devices.remove_by_name c name
  step c (Call.update_admin_state name state) = Devices.update_admin_state c name state
  step c (Call.update_operating_state name state) = Devices.update_operating_state c name state
  step c (Call.set_last_connected_by_name name now) =
      (ok tt, Devices.set_last_connected_by_name c name now)

  abbrev pub assign : Registry F → String → Option (Device F) → Registry F
  assign r name o j = if name == j then o else r j

  -- What each method promises of the registry.
  abbrev insert_new : Registry F → Device F → Option (Device F) → Outcome (Registry F)
  insert_new r device none = (ok tt, assign r device.name (some device))
  insert_new r device (some _) = (raise (cache_error duplicate_name), r)

  abbrev replace :
      Registry F → String → Option (Device F) → Option (Device F) → Outcome (Registry F)
  replace r name o none = (raise (cache_error entity_does_not_exist), r)
  replace r name o (some _) = (ok tt, assign r name o)

  abbrev change :
      Registry F → String → Bool → (Device F → Device F) → Option (Device F) → Outcome (Registry F)
  change r name false f o = (raise (cache_error CacheErrorKind.contract_invalid), r)
  change r name true f none = (raise (cache_error entity_does_not_exist), r)
  change r name true f (some device) = (ok tt, assign r name (some (f device)))

  -- `add` wants a new name, and all other methods a name that is there. `update` and the changes
  -- of a state put one device in the place of another.
  pub promise : Registry F → Call F → Outcome (Registry F)
  promise r (Call.add device) = insert_new r device (r device.name)
  promise r (Call.update device) = replace r device.name (some device) (r device.name)
  promise r (Call.remove_by_name name) = replace r name none (r name)
  promise r (Call.update_admin_state name state) =
      change r name (state == "LOCKED" || state == "UNLOCKED")
        (λ d. record d { admin_state = state }) (r name)
  promise r (Call.update_operating_state name state) =
      change r name (is_operating_state state) (λ d. record d { operating_state = state }) (r name)
  promise r (Call.set_last_connected_by_name name now) = (ok tt, r)

  abbrev pub Shows : DeviceCache F → Registry F → Type 0
  Shows c r = (j : String) → Devices.for_name c j ≡ r j

  -- The results of the calls of a sequence, in order, and what they leave.
  unfoldable pub run :
      {S : Type 0} → (S → Call F → Outcome S) → S → List (Call F) → List (Result (Unit {0})) × S
  run next s [] = ([], s)
  run next s (call ∷ calls) =
      let (r, s') = next s call in let (rs, t) = run next s' calls in (r ∷ rs, t)

  abbrev Agree : Outcome (DeviceCache F) → Outcome (Registry F) → Type 0
  Agree x y = (x.0 ≡ y.0) × Shows x.1 y.1

  modify-change :
      (c : DeviceCache F) (r : Registry F) (name : String) (f : Device F → Device F)
      → Shows c r
      → (o : Option (Device F)) → Agree (Devices.modify c name f o) (change r name true f o)
  unfolding Devices.modify Devices.for_name
  modify-change c r name f h none = (refl, h)
  modify-change c r name f h (some d) = (refl, λ j. rw (get-put c.device_map name j (f d), h j))

  step-promise :
      (c : DeviceCache F) (r : Registry F) (call : Call F)
      → Shows c r
      → Agree (step c call) (promise r call)
  unfolding step promise Devices.for_name Devices.add Devices.update Devices.remove_by_name
      Devices.update_admin_state Devices.update_operating_state Devices.set_last_connected_by_name
  step-promise c r (Call.add device) h = (
    ground (arith, h device.name, has-get c.device_map device.name),
    λ j. ground (
      arith,
      h j,
      h device.name,
      has-get c.device_map device.name,
      get-put c.device_map device.name j device,
    ),
  )
  step-promise c r (Call.remove_by_name name) h = (
    ground (arith, h name, has-get c.device_map name),
    λ j. ground (arith, h j, h name, has-get c.device_map name, get-delete c.device_map name j),
  )
  step-promise c r (Call.update device) h = (
    ground (
      arith,
      h device.name,
      has-get c.device_map device.name,
      has-delete c.device_map device.name device.name,
      eq_iff device.name device.name,
    ),
    λ j. ground (
      arith,
      h j,
      h device.name,
      has-get c.device_map device.name,
      has-delete c.device_map device.name device.name,
      eq_iff device.name device.name,
      eq_iff device.name j,
      get-delete c.device_map device.name j,
      get-put (Dict.delete c.device_map device.name) device.name j device,
    ),
  )
  step-promise c r (Call.update_admin_state name state) h =
      let write = modify-change c r name (λ d. record d { admin_state = state }) h (r name) in
      elim (Bool-cases (state == "LOCKED")) [
        | inl locked ↦ rw (locked, h name) write
        | inr e ↦ elim (Bool-cases (state == "UNLOCKED")) [
          | inl unlocked ↦ rw (e, unlocked, h name) write
          | inr e' ↦ rw (e, e') (refl, h)
        ]
      ]
  step-promise c r (Call.update_operating_state name state) h =
      let write = modify-change c r name (λ d. record d { operating_state = state }) h (r name) in
      elim (Bool-cases (is_operating_state state)) [
        | inl valid ↦ rw (valid, h name) write
        | inr e ↦ rw e (refl, h)
      ]
  step-promise c r (Call.set_last_connected_by_name name now) h = (refl, λ j. ground (arith, h j))

  -- A cache that starts by showing a registry answers every sequence of calls with the results that
  -- the registry promises, in order, errors included, and shows the registry that they leave.
  pub run-refines :
      (calls : List (Call F)) (c : DeviceCache F) (r : Registry F)
      → Shows c r
      → ((run step c calls).0 ≡ (run promise r calls).0)
        × Shows (run step c calls).1 (run promise r calls).1
  unfolding run
  run-refines [] c r h = (refl, h)
  run-refines (call ∷ calls) c r h =
      let (e, h') = step-promise c r call h in
      let (es, t) = run-refines calls (step c call).1 (promise r call).1 h' in (ap₂ ◌∷◌ e es, t)
