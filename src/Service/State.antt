-- ===== src/Service/State.antt =====
-- What the methods of the service work on: the three caches, and the calls that went out to Core
-- Metadata and to the driver, which are not part of the repository and may answer by all calls made
-- before. A method is an action: it may raise, and leaves a state.
use device_sdk_python.Base.{Bool, String, Option, none, some, List, [], ◌∷◌, ◌++◌}
use device_sdk_python.Base.Int.{ℤ}
use device_sdk_python.Base.Dict.{Dict}
use device_sdk_python.Raise.{Result, Outcome, ok, raise, edgex_error, EdgexErrorKind}
use device_sdk_python.Model.Value.{Value}
use device_sdk_python.Model.Metadata.{
  Device, DeviceProfile, ProvisionWatcher, AutoEvent, ProtocolProperties,
}
use device_sdk_python.Cache.Devices.{DeviceCache}
use device_sdk_python.Cache.Profiles.{DeviceProfileCache}
use device_sdk_python.Cache.ProvisionWatchers.{ProvisionWatcherCache}

-- One entry of the `updates` of a patch: a field of `Device` with its new value, or a key that is no
-- field. The key `name` never occurs.
pub data Update (F : Type 0) : Type 0 where
  id description admin_state operating_state service_name profile_name : String → Update F
  labels : List String → Update F
  location : Value F → Update F
  auto_events : List (AutoEvent F) → Update F
  protocols : Dict ProtocolProperties → Update F
  last_connected last_reported created modified : ℤ → Update F
  tags properties : Dict (Value F) → Update F
  unknown : String → Value F → Update F

pub data Call (F : Type 0) : Type 0 where
  -- the client of Core Metadata
  add_device : Device F → Bool → Call F
  patch_device : String → List (Update F) → Bool → Call F
  delete_device : String → Call F
  add_device_profile update_device_profile : DeviceProfile F → Call F
  delete_device_profile : String → Call F
  add_provision_watcher update_provision_watcher : ProvisionWatcher F → Call F
  delete_provision_watcher : String → Call F
  -- the driver
  validate_device : Device F → Call F
  driver_add : String → Dict ProtocolProperties → String → Call F
  driver_update : String → Dict ProtocolProperties → String → Call F
  driver_remove : String → Dict ProtocolProperties → Call F

-- What Core Metadata answers: a `MetadataError`, or an id, which may be empty.
pub data Answer : Type 0 where
  metadata_error : Answer
  answered : String → Answer

-- The client, if one is configured; whether the driver lets a call return; and `make_uid`.
pub record Outside (F : Type 0) : Type 0 where
  pub client : Option (List (Call F) → Call F → Answer)
  pub driver : List (Call F) → Call F → Bool
  pub make_uid : List (Call F) → String

pub record State (F : Type 0) : Type 0 where
  pub devices : DeviceCache F
  pub profiles : DeviceProfileCache F
  pub watchers : ProvisionWatcherCache F
  pub calls : List (Call F)

abbrev pub Action : Type 0 → Type 0 → Type 0
Action F A = State F → Result A × State F

infixl 5 ◌>>=◌ ◌>>◌
abbrev pub continue : {F A B : Type 0} → Result A × State F → (A → Action F B) → Result B × State F
continue (ok a, s) k = k a s
continue (raise e, s) k = (raise e, s)

abbrev pub ◌>>=◌ : {F A B : Type 0} → Action F A → (A → Action F B) → Action F B
◌>>=◌ m k s = continue (m s) k

abbrev pub ◌>>◌ : {F A B : Type 0} → Action F A → Action F B → Action F B
m >> k = m >>= λ _. k

module _ {F : Type 0} where
  abbrev pub return : {A : Type 0} → A → Action F A
  return a s = (ok a, s)

  -- raise create_edgx_error(kind, ...)
  abbrev pub error : {A : Type 0} → EdgexErrorKind → Action F A
  error kind s = (raise (edgex_error kind), s)

  abbrev pub here : {A : Type 0} → (State F → Action F A) → Action F A
  here action s = action s s

  abbrev pub found : {A B : Type 0} → Option A → Action F B → (A → Action F B) → Action F B
  found none missing present = missing
  found (some a) missing present = present a

  -- the methods of the caches
  unfoldable pub on_devices : (DeviceCache F → Outcome (DeviceCache F)) → Action F (Unit {0})
  on_devices method s = let (r, c) = method s.devices in (r, record s { devices = c })

  unfoldable pub on_profiles :
      (DeviceProfileCache F → Outcome (DeviceProfileCache F)) → Action F (Unit {0})
  on_profiles method s = let (r, c) = method s.profiles in (r, record s { profiles = c })

  unfoldable pub on_watchers :
      (ProvisionWatcherCache F → Outcome (ProvisionWatcherCache F)) → Action F (Unit {0})
  on_watchers method s = let (r, c) = method s.watchers in (r, record s { watchers = c })

  -- a call that goes out
  unfoldable pub note : Call F → Action F (Unit {0})
  note call s = (ok tt, record s { calls = s.calls ++ call ∷ [] })
