-- ===== src/Command/Failures/Silent.antt =====
-- The tracker of failures never calls the driver.
use device_sdk_python.Base.{
  refl, ◌∙◌, Bool, true, false, not, String, Option, none, some, [], ◌∷◌, ◌==◌,
}
use mathlib.Core.List.{append-nil}
use device_sdk_python.Base.Int.{ℤ, pos, ltb_ℤ, eq_ℤ}
use device_sdk_python.Model.Metadata.{Device}
use device_sdk_python.Raise.{Outcome}
use device_sdk_python.Cache.Devices
use device_sdk_python.Cache.Devices.{DeviceCache}
use device_sdk_python.Command.State.{State, Outside, Service, DeviceOptions, patch}
use device_sdk_python.Command.DriverCalls.{
  driver_calls, driver_calls-append, Quiet, Quiet-refl, Quiet-trans, continue-Quiet, when-Quiet,
}
use device_sdk_python.Command.Failures
use device_sdk_python.Command.Failures.{
  allowed_fails, operating_state_down, operating_state_up, failure_count, device_request_failed,
  device_request_succeeded, update_device_operating_state,
}

module _ {F : Type 0} (outside : Outside F) where
  call_patch-Quiet :
      (name state : String) (s : State F) → Quiet s (Failures.call_patch outside name state s).1
  unfolding Failures.call_patch
  call_patch-Quiet name state s = record {
    same = driver_calls-append s.calls (patch name state ∷ []) ∙ append-nil (driver_calls s.calls);
  }

  on_devices-Quiet :
      (method : DeviceCache F → Outcome (DeviceCache F)) (s : State F)
      → Quiet s (Failures.on_devices method s).1
  on_devices-Quiet method s = record { same = refl }

  unless_patched-Quiet :
      (snapshot : Device F) (patched : Bool) (s : State F)
      → Quiet s (Failures.unless_patched outside snapshot patched s).1
  unfolding Failures.unless_patched
  unless_patched-Quiet snapshot true s = Quiet-refl
  unless_patched-Quiet snapshot false s =
      let method : DeviceCache F → Outcome (DeviceCache F) = λ c. Devices.update c snapshot in
      continue-Quiet {B = Unit} (Failures.on_devices method s) _ (on_devices-Quiet method s)
        (λ _ s₁. Quiet-refl {s = s₁})

  update_found-Quiet :
      (service : Service) (name state : String) (found : Option (Device F)) (s : State F)
      → Quiet s (Failures.update_found outside service name state found s).1
  unfolding Failures.update_found Failures.patch_found
  update_found-Quiet service name state none s = Quiet-refl
  update_found-Quiet service name state (some device) s =
      let method : DeviceCache F → Outcome (DeviceCache F) =
        λ c. Devices.update c (record device { operating_state = state }) in
      continue-Quiet (Failures.on_devices method s) _ (on_devices-Quiet method s) (λ _ s₁.
        when-Quiet service.has_client _ s₁ (
          continue-Quiet (Failures.call_patch outside name state s₁)
            (Failures.unless_patched outside device) (call_patch-Quiet name state s₁)
            (unless_patched-Quiet device)))

  report_state-Quiet :
      (service : Option Service) (name state : String) (s : State F)
      → Quiet s (Failures.report_state outside service name state s).1
  unfolding Failures.report_state update_device_operating_state
  report_state-Quiet none name state s = Quiet-refl
  report_state-Quiet (some service) name state s =
      when-Quiet service.updates _ s (update_found-Quiet service name state _ s)

  exhausted-Quiet :
      (service : Option Service) (name : String) (found : Option (Device F)) (s : State F)
      → Quiet s (Failures.exhausted outside service name found s).1
  unfolding Failures.exhausted
  exhausted-Quiet service name none s = Quiet-refl
  exhausted-Quiet service name (some device) s =
      when-Quiet (not (device.operating_state == operating_state_down)) _ s
        (report_state-Quiet service name operating_state_down s)

  after_count-Quiet :
      (service : Option Service) (name : String) (count : ℤ) (s : State F)
      → Quiet s (Failures.after_count outside service name count s).1
  unfolding Failures.after_count
  after_count-Quiet service name count s =
      when-Quiet (eq_ℤ count (pos 0))
        (Failures.exhausted outside service name (Devices.for_name s.devices name)) s
        (exhausted-Quiet service name (Devices.for_name s.devices name) s)

  decrease-Quiet :
      (name : String) (s : State F) → Quiet s (Failures.decrease_failure_count name s).1
  unfolding Failures.decrease_failure_count Failures.set_failure_count
  decrease-Quiet name s = record { same = refl }

  pub failed-Quiet :
      (configuration : Option DeviceOptions) (service : Option Service) (name : String)
      (s : State F)
      → Quiet s (device_request_failed outside configuration service name s).1
  unfolding device_request_failed
  failed-Quiet configuration service name s =
      when-Quiet (ltb_ℤ (pos 0) (allowed_fails configuration)) _ s (
        continue-Quiet (Failures.decrease_failure_count name s)
          (Failures.after_count outside service name) (decrease-Quiet name s)
          (after_count-Quiet service name))

  pub succeeded-Quiet :
      (configuration : Option DeviceOptions) (service : Option Service) (device : Device F)
      (s : State F)
      → Quiet s (device_request_succeeded outside configuration service device s).1
  unfolding device_request_succeeded Failures.restored Failures.set_failure_count
  succeeded-Quiet configuration service device s =
      when-Quiet _ (Failures.restored outside (allowed_fails configuration) service device) s (
        Quiet-trans {s₁ = Failures.set_failure_count device.name (allowed_fails configuration) s}
          (record { same = refl })
          (when-Quiet (device.operating_state == operating_state_down) _ _
            (report_state-Quiet service device.name operating_state_up _)))
