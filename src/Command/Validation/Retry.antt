-- ===== src/Command/Validation/Retry.antt =====
-- What the count of failures does to a device that is DOWN.
use device_sdk_python.Base.{
  ◌≡◌, refl, ap, ◌∙◌, Bool, true, false, ◌&&◌, ◌||◌, String, Option, some, ◌==◌, eq_refl, arith,
}
use device_sdk_python.Base.Int.{ℤ, pos, negsuc, ltb_ℤ, eq_ℤ}
use device_sdk_python.Base.Dict
use device_sdk_python.Base.Dict.{get-put}
use device_sdk_python.Raise.{ok, raise, edgex_error, EdgexErrorKind, refuse, found_or}
use device_sdk_python.Model.Metadata.{Device, admin_state_locked}
use device_sdk_python.Cache.Devices
use device_sdk_python.Command.State.{State, Outside, Service, DeviceOptions}
use device_sdk_python.Command.Failures.{
  allowed_fails, device_down_timeout, operating_state_down, failure_count, set_failure_count,
  device_request_failed, or_zero,
}
use device_sdk_python.Command.Failures.Counting.{failure_at_zero}
use device_sdk_python.Command.Validation.{
  validate_service_and_device_state, service_locked, no_retry, is_zero,
}
use device_sdk_python.Command.Validation.States.{Serves, validate_iff}

or_true : (a b : Bool) → (a || b || true) ≡ true
or_true true b = refl
or_true false true = refl
or_true false false = refl

positive : (a : ℤ) → ltb_ℤ (pos 0) a ≡ true → eq_ℤ a (pos 0) ≡ false
positive (pos a) h = ground arith
positive (negsuc a) h = refl

module _ {F : Type 0} where
  -- A device that is DOWN, and would take commands if it were not.
  pub record IsDown (s : State F) (configuration : Option DeviceOptions) (service : Option Service)
      (device_name : String) (device : Device F) : Type 0 where
    pub tracked : ltb_ℤ (pos 0) (allowed_fails configuration) ≡ true
    pub retried : eq_ℤ (device_down_timeout configuration) (pos 0) ≡ false
    pub opened : service_locked service ≡ false
    pub found : Devices.for_name s.devices device_name ≡ some device
    pub unlocked : (device.admin_state == admin_state_locked) ≡ false
    pub down : (device.operating_state == operating_state_down) ≡ true
    pub profiled : (device.profile_name == "") ≡ false

  exhausted_no_retry :
      (s : State F) (configuration : Option DeviceOptions) (device_name : String)
      → Dict.get s.failures device_name ≡ some (pos 0)
      → no_retry s configuration device_name ≡ true
  exhausted_no_retry s configuration device_name e =
      let tests : Option ℤ → Bool = λ o.
        eq_ℤ (allowed_fails configuration) (pos 0)
        || eq_ℤ (device_down_timeout configuration) (pos 0)
        || is_zero o in
      ap tests e
      ∙ or_true (eq_ℤ (allowed_fails configuration) (pos 0))
          (eq_ℤ (device_down_timeout configuration) (pos 0))

  refused :
      (s : State F) (configuration : Option DeviceOptions) (service : Option Service)
      (device_name : String) (device : Device F)
      → IsDown s configuration service device_name device
      → no_retry s configuration device_name ≡ true
      → validate_service_and_device_state s configuration service device_name
        ≡ raise (edgex_error EdgexErrorKind.service_locked)
  unfolding validate_service_and_device_state refuse found_or
  refused s configuration service device_name device h none_left =
      simp (h.opened, h.found, h.unlocked, h.down, none_left)

  retry_left :
      (s : State F) (configuration : Option DeviceOptions) (service : Option Service)
      (device_name : String) (device : Device F)
      → IsDown s configuration service device_name device
      → no_retry (set_failure_count device_name (negsuc 0) s) configuration device_name ≡ false
  unfolding set_failure_count
  retry_left s configuration service device_name device h = simp (
    positive (allowed_fails configuration) h.tracked,
    h.retried,
    get-put s.failures device_name device_name (negsuc 0),
    eq_refl device_name,
  )

  let_through :
      (s : State F) (configuration : Option DeviceOptions) (service : Option Service)
      (device_name : String) (device : Device F)
      → IsDown s configuration service device_name device
      → Serves (set_failure_count device_name (negsuc 0) s) configuration service device_name device
  unfolding set_failure_count
  let_through s configuration service device_name device h = (
    h.opened,
    h.found,
    h.unlocked,
    ap (λ b. (device.operating_state == operating_state_down) && b)
          (retry_left s configuration service device_name device h)
        ∙ and_false (device.operating_state == operating_state_down),
    h.profiled,
  )
    where
      and_false : (b : Bool) → (b && false) ≡ false
      and_false true = refl
      and_false false = refl

  counted :
      (s : State F) (device_name : String)
      → Dict.get (set_failure_count device_name (negsuc 0) s).failures device_name ≡ some (negsuc 0)
  unfolding set_failure_count
  counted s device_name =
      rw (get-put s.failures device_name device_name (negsuc 0), eq_refl device_name) refl

  -- When retries are configured, a device that is DOWN and whose count of failures is 0 is refused;
  -- the failure of that request takes the count to -1, and then the device is let through, though it
  -- is still DOWN.
  pub refused_then_let_through :
      (outside : Outside F) (s : State F) (configuration : Option DeviceOptions)
      (service : Option Service) (device_name : String) (device : Device F)
      → IsDown s configuration service device_name device
      → Dict.get s.failures device_name ≡ some (pos 0)
      → (validate_service_and_device_state s configuration service device_name
          ≡ raise (edgex_error EdgexErrorKind.service_locked))
        × (Dict.get
              (device_request_failed outside configuration service device_name s).1.failures
              device_name
            ≡ some (negsuc 0))
        × (validate_service_and_device_state
              (device_request_failed outside configuration service device_name s).1
              configuration
              service
              device_name
            ≡ ok device)
  unfolding failure_count
  refused_then_let_through outside s configuration service device_name device h e =
      let failed =
        failure_at_zero outside configuration service device_name s h.tracked (ap or_zero e) in
      (
        refused s configuration service device_name device h
            (exhausted_no_retry s configuration device_name e),
        ap (λ p. Dict.get p.1.failures device_name) failed ∙ counted s device_name,
        ap (λ p. validate_service_and_device_state p.1 configuration service device_name) failed
            ∙ (validate_iff (set_failure_count device_name (negsuc 0) s) configuration service
                  device_name device).1
                (let_through s configuration service device_name device h),
      )
