-- ===== src/Scan/Wrapper.antt =====
-- `profile_scan_wrapper` and `stop_profile_scan` of internal/application/profilescan.py. The driver and
-- the clients are not part of the repository: the calls of them are noted, and their answers may depend
-- on all calls before.
use device_sdk_python.Base.{
  ◌&&◌, Bool, true, false, String, Option, none, some, List, [], ◌∷◌, ◌++◌, ◌==◌, if◌then◌else◌,
  ◌≡◌, refl, ◌∙◌, arith, Bool-cases, Option-cases, inl, inr,
}
use device_sdk_python.Base.Int.{ℤ, pos, negsuc}
use device_sdk_python.Base.Dict.{Dict}
use device_sdk_python.Raise.{Outcome, Exn, ok, raise, after, edgex_error, EdgexErrorKind}
use device_sdk_python.Model.Value.{Value}
use device_sdk_python.Model.Metadata.{DeviceProfile}
use device_sdk_python.Cache.Devices
use device_sdk_python.Cache.Devices.{DeviceCache}
use device_sdk_python.Cache.Profiles
use device_sdk_python.Cache.Profiles.{DeviceProfileCache}
use device_sdk_python.Scan.Locker.{is_busy, acquire, release}

-- models/profilescan.py
pub record ProfileScanRequest (F : Type 0) : Type 0 where
  pub device_name : String
  pub profile_name : String
  pub request_id : String
  pub options : Dict (Value F)

pub data Call (F : Type 0) : Type 0 where
  report_progress : String → ℤ → String → Call F
  profile_scan : ProfileScanRequest F → Call F
  stop_scan : String → Dict (Value F) → Call F
  add_device_profile : DeviceProfile F → Call F
  update_device : String → String → Call F

-- What the driver's scan returns (`none` for an exception), whether its stop and the clients let a call
-- return, and what they raise if not; a client may be missing.
pub record Outside (F : Type 0) : Type 0 where
  pub profile_scan : List (Call F) → Option (DeviceProfile F)
  pub stop_profile_scan : List (Call F) → Bool
  pub error : Exn
  pub device_profile_client : Option (List (Call F) → Bool)
  pub device_client : Option (List (Call F) → Bool)
  pub has_message_client : Bool

pub record State (F : Type 0) : Type 0 where
  pub busy_map : Dict Bool
  pub profiles : Option (DeviceProfileCache F)
  pub calls : List (Call F)

abbrev is_locked : Option String → Bool
is_locked none = false
is_locked (some admin_state) = admin_state == "LOCKED"

module _ {F : Type 0} where
  note : Call F → State F → State F
  note call s = record s { calls = s.calls ++ call ∷ [] }

  -- a call that returns, or raises an exception of its own
  answered : Exn → Bool → State F → Outcome (State F)
  answered x true s = (ok tt, s)
  answered x false s = (raise x, s)

  call_client : Exn → (List (Call F) → Bool) → Call F → State F → Outcome (State F)
  unfolding note answered
  call_client x client call s = answered x (client s.calls) (note call s)

  -- `profiles.add(profile)`
  add_to_cache : DeviceProfile F → Option (DeviceProfileCache F) → State F → Outcome (State F)
  add_to_cache profile none s = (ok tt, s)
  add_to_cache profile (some profiles) s =
      let (r, c) = Profiles.add profiles profile in (r, record s { profiles = some c })

  keep_profile : Exn → DeviceProfile F → Option (List (Call F) → Bool) → State F → Outcome (State F)
  unfolding call_client add_to_cache
  keep_profile x profile none s = add_to_cache profile s.profiles s
  keep_profile x profile (some client) s = call_client x client (Call.add_device_profile profile) s

  name_profile :
      Exn → String → DeviceProfile F → Option (List (Call F) → Bool) → State F → Outcome (State F)
  unfolding call_client
  name_profile x device_name profile none s = (ok tt, s)
  name_profile x device_name profile (some client) s =
      call_client x client (Call.update_device device_name profile.name) s

  -- `_publish_progress`, which never raises
  unfoldable pub publish_progress : Outside F → String → ℤ → String → State F → State F
  unfolding note
  publish_progress outside request_id progress device_name s =
      if outside.has_message_client
      then note (Call.report_progress request_id progress device_name) s
      else s

  -- what follows the scan of the driver, under `try`
  handle_profile :
      Outside F → ProfileScanRequest F → Option (DeviceProfile F) → State F → Outcome (State F)
  unfolding keep_profile name_profile
  handle_profile outside req none s = (raise outside.error, s)
  handle_profile outside req (some profile) s =
      after (keep_profile outside.error profile outside.device_profile_client s)
        (name_profile outside.error req.device_name profile outside.device_client)

  -- `_publish_progress` with 100, or with -1 under `except`
  conclude : Outside F → ProfileScanRequest F → Outcome (State F) → State F
  unfolding publish_progress
  conclude outside req (ok _, s) =
      publish_progress outside req.request_id (pos 100) req.device_name s
  conclude outside req (raise x, s) =
      publish_progress outside req.request_id (negsuc 0) req.device_name s

  scan_driver : Outside F → ProfileScanRequest F → State F → Outcome (State F)
  unfolding note handle_profile
  scan_driver outside req s =
      handle_profile outside req (outside.profile_scan s.calls) (note (Call.profile_scan req) s)

  -- the statement `try` without its `finally`
  unfoldable pub scan : Outside F → ProfileScanRequest F → State F → State F
  unfolding conclude scan_driver publish_progress
  scan outside req s =
      conclude outside req (
        scan_driver outside req (publish_progress outside req.request_id (pos 0) req.device_name s))

  -- `_locker.acquire` and `_locker.release`, by the name of the request
  unfoldable pub acquire_for : ProfileScanRequest F → State F → Bool × State F
  acquire_for req s =
      let (acquired, busy_map) = acquire s.busy_map req.device_name in
      (acquired, record s { busy_map = busy_map })

  unfoldable pub release_for : ProfileScanRequest F → State F → State F
  release_for req s = record s { busy_map = release s.busy_map req.device_name }

  unfoldable pub guarded : Outside F → ProfileScanRequest F → Bool × State F → Bool × State F
  unfolding scan release_for
  guarded outside req (false, s) = (false, s)
  guarded outside req (true, s) = (true, release_for req (scan outside req s))

  -- the flag that goes to `busy_result`, and the state
  unfoldable pub profile_scan_wrapper : Outside F → ProfileScanRequest F → State F → Bool × State F
  unfolding guarded acquire_for
  profile_scan_wrapper outside req s = guarded outside req (acquire_for req s)

  -- Whether there is a driver that scans, and whether it can stop; the state of the service; the
  -- cache of devices, if there is one.
  stop_known : Outside F → Bool → String → Dict (Value F) → State F → Outcome (State F)
  unfolding call_client
  stop_known outside can_stop device_name options s =
      if is_busy s.busy_map device_name && can_stop
      then call_client outside.error outside.stop_profile_scan (Call.stop_scan device_name options)
          s
      else (ok tt, s)

  is_missing : Option (DeviceCache F) → String → Bool
  is_missing none device_name = false
  is_missing (some devices) device_name = elim (Devices.for_name devices device_name) [
    | none ↦ true
    | some device ↦ false
  ]

  unfoldable pub stop_profile_scan :
      Outside F
      → Option Bool
      → Option String
      → Option (DeviceCache F)
      → String
      → Dict (Value F)
      → State F
      → Outcome (State F)
  unfolding stop_known is_missing
  stop_profile_scan outside none admin_state devices device_name options s =
      (raise (edgex_error EdgexErrorKind.not_implemented), s)
  stop_profile_scan outside (some can_stop) admin_state devices device_name options s =
      if is_locked admin_state
      then (raise (edgex_error EdgexErrorKind.service_locked), s)
      else if is_missing devices device_name
      then (raise (edgex_error EdgexErrorKind.not_found), s)
      else stop_known outside can_stop device_name options s

  publish-busy_map :
      (outside : Outside F) (request_id : String) (progress : ℤ) (device_name : String)
      (s : State F)
      → (publish_progress outside request_id progress device_name s).busy_map ≡ s.busy_map
  unfolding publish_progress note
  publish-busy_map outside request_id progress device_name s = ground arith

  call_client-busy_map :
      (x : Exn) (client : List (Call F) → Bool) (call : Call F) (s : State F)
      → (call_client x client call s).1.busy_map ≡ s.busy_map
  unfolding call_client answered note
  call_client-busy_map x client call s = elim (Bool-cases (client s.calls)) [
    | inl e ↦ rw e refl
    | inr e ↦ rw e refl
  ]

  keep_profile-busy_map :
      (x : Exn) (profile : DeviceProfile F) (client : Option (List (Call F) → Bool)) (s : State F)
      → (keep_profile x profile client s).1.busy_map ≡ s.busy_map
  unfolding keep_profile add_to_cache
  keep_profile-busy_map x profile (some client) s =
      call_client-busy_map x client (Call.add_device_profile profile) s
  keep_profile-busy_map x profile none s = elim (Option-cases s.profiles) [
    | inl e ↦ rw e refl
    | inr (profiles, e) ↦ rw e refl
  ]

  name_profile-busy_map :
      (x : Exn) (device_name : String) (profile : DeviceProfile F)
      (client : Option (List (Call F) → Bool)) (s : State F)
      → (name_profile x device_name profile client s).1.busy_map ≡ s.busy_map
  unfolding name_profile
  name_profile-busy_map x device_name profile none s = refl
  name_profile-busy_map x device_name profile (some client) s =
      call_client-busy_map x client (Call.update_device device_name profile.name) s

  after-busy_map :
      (o : Outcome (State F)) (next : State F → Outcome (State F))
      → ((s : State F) → (next s).1.busy_map ≡ s.busy_map)
      → (after o next).1.busy_map ≡ o.1.busy_map
  after-busy_map (ok u, s) next h = h s
  after-busy_map (raise x, s) next h = refl

  handle_profile-busy_map :
      (outside : Outside F) (req : ProfileScanRequest F) (profile : Option (DeviceProfile F))
      (s : State F)
      → (handle_profile outside req profile s).1.busy_map ≡ s.busy_map
  unfolding handle_profile
  handle_profile-busy_map outside req none s = refl
  handle_profile-busy_map outside req (some profile) s =
      after-busy_map (keep_profile outside.error profile outside.device_profile_client s)
        (name_profile outside.error req.device_name profile outside.device_client)
        (name_profile-busy_map outside.error req.device_name profile outside.device_client)
      ∙ keep_profile-busy_map outside.error profile outside.device_profile_client s

  conclude-busy_map :
      (outside : Outside F) (req : ProfileScanRequest F) (o : Outcome (State F))
      → (conclude outside req o).busy_map ≡ o.1.busy_map
  unfolding conclude
  conclude-busy_map outside req (ok u, s) =
      publish-busy_map outside req.request_id (pos 100) req.device_name s
  conclude-busy_map outside req (raise x, s) =
      publish-busy_map outside req.request_id (negsuc 0) req.device_name s

  -- The scan leaves the locks as they are.
  pub scan-busy_map :
      (outside : Outside F) (req : ProfileScanRequest F) (s : State F)
      → (scan outside req s).busy_map ≡ s.busy_map
  unfolding scan scan_driver note
  scan-busy_map outside req s =
      let s₀ = publish_progress outside req.request_id (pos 0) req.device_name s in
      conclude-busy_map outside req (scan_driver outside req s₀)
      ∙ handle_profile-busy_map outside req (outside.profile_scan s₀.calls)
          (note (Call.profile_scan req) s₀)
      ∙ publish-busy_map outside req.request_id (pos 0) req.device_name s
