-- ===== src/Callback/State.antt =====
-- What the callbacks of internal/application/callback.py work on: the objects of the container `dic`.
-- The driver, the tracker of failures and the client of device profiles are not part of the
-- repository: the calls of them are noted, and their answers may depend on all calls before.
use device_sdk_python.Base.{Bool, true, false, String, Option, none, some, List, [], ◌∷◌, ◌++◌}
use device_sdk_python.Base.Int.{ℤ}
use device_sdk_python.Base.Dict.{Dict}
use device_sdk_python.Raise.{Outcome, ok, raise, after, edgex_error, EdgexErrorKind}
use device_sdk_python.Model.Metadata.{ProtocolProperties, DeviceProfile}
use device_sdk_python.Cache.Devices.{DeviceCache}
use device_sdk_python.Cache.Profiles.{DeviceProfileCache}
use device_sdk_python.Cache.ProvisionWatchers.{ProvisionWatcherCache}
use device_sdk_python.Command.State.{DeviceOptions}
use device_sdk_python.AutoEvent.Manager.{Manager}

-- A call that went out: of the driver, of the tracker, and of the client.
pub data Call : Type 0 where
  add_device update_device : String → Dict ProtocolProperties → String → Call
  remove_device : String → Dict ProtocolProperties → Call
  set_failures : String → ℤ → Call
  remove_failures : String → Call
  profile_by_name : String → Call

-- Whether the call of the driver returns (`false` for an exception), and what the client returns:
-- `none` for an exception or for no profile.
pub record Outside (F : Type 0) : Type 0 where
  pub driver : List Call → Call → Bool
  pub client : List Call → String → Option (DeviceProfile F)

-- the `device_service` object
pub record ServiceModel : Type 0 where
  pub name : String
  pub admin_state : String
  pub labels : List String

pub record State (F : Type 0) : Type 0 where
  pub devices : DeviceCache F
  pub profiles : DeviceProfileCache F
  pub watchers : ProvisionWatcherCache F
  pub manager : Option (Manager F)
  pub service : Option ServiceModel
  pub calls : List Call

-- What the container holds besides: the configuration, whether there is a tracker, and whether there
-- is a client.
pub record Container : Type 0 where
  pub configuration : Option (Option DeviceOptions)
  pub has_tracker : Bool
  pub has_client : Bool

-- A callback returns None or an `EdgexError`, and leaves the state.
abbrev pub Handler : Type 0 → Type 0
Handler F = State F → Outcome (State F)

infixl 5 ◌>>◌
abbrev pub ◌>>◌ : {F : Type 0} → Handler F → Handler F → Handler F
(m >> k) s = after (m s) k

-- `except Exception: return EdgexError(kind, ...)`
abbrev pub or_error : {S : Type 0} → EdgexErrorKind → Outcome S → Outcome S
or_error kind (ok u, c) = (ok u, c)
or_error kind (raise x, c) = (raise (edgex_error kind), c)

module _ {F : Type 0} where
  abbrev pub done : Handler F
  done s = (ok tt, s)

  -- `return EdgexError(kind, ...)`
  abbrev pub refused : EdgexErrorKind → Handler F
  refused kind s = (raise (edgex_error kind), s)

  abbrev pub when : Bool → Handler F → Handler F
  when true action = action
  when false action = done

  -- by the pair of a value and whether it is there
  abbrev pub found : {A : Type 0} → Option A → Handler F → (A → Handler F) → Handler F
  found none missing present = missing
  found (some a) missing present = present a

  -- by what the state holds now
  abbrev pub here : (State F → Handler F) → Handler F
  here handler s = handler s s

  -- a method of a cache, under `try`
  unfoldable pub try_devices :
      EdgexErrorKind → (DeviceCache F → Outcome (DeviceCache F)) → Handler F
  try_devices kind method s =
      let (r, c) = or_error kind (method s.devices) in (r, record s { devices = c })

  unfoldable pub try_profiles :
      EdgexErrorKind → (DeviceProfileCache F → Outcome (DeviceProfileCache F)) → Handler F
  try_profiles kind method s =
      let (r, c) = or_error kind (method s.profiles) in (r, record s { profiles = c })

  unfoldable pub try_watchers :
      EdgexErrorKind → (ProvisionWatcherCache F → Outcome (ProvisionWatcherCache F)) → Handler F
  try_watchers kind method s =
      let (r, c) = or_error kind (method s.watchers) in (r, record s { watchers = c })

  -- a call whose answer is not used
  unfoldable pub note : Call → Handler F
  note call s = (ok tt, record s { calls = s.calls ++ call ∷ [] })

  abbrev pub answered : Bool → State F → Outcome (State F)
  answered true s = (ok tt, s)
  answered false s = (raise (edgex_error EdgexErrorKind.server_error), s)

  -- a call of the driver, under `try`
  unfoldable pub call_driver : Outside F → Call → Handler F
  call_driver outside call s =
      answered (outside.driver s.calls call) (record s { calls = s.calls ++ call ∷ [] })

  abbrev pub on_some : Option (Manager F) → (Manager F → Manager F) → Option (Manager F)
  on_some none f = none
  on_some (some m) f = some (f m)

  -- `if auto_event_manager is not None`
  unfoldable pub on_manager : (Manager F → Manager F) → Handler F
  on_manager f s = (ok tt, record s { manager = on_some s.manager f })
