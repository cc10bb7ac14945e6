-- ===== src/Command/Frame/DriverUse.antt =====
-- The frame of a command calls the driver only by the work on a device that it lets through.
use mathlib.Core.Path.{subst}
use device_sdk_python.Base.{sym, ◌≡◌, refl, Bool, true, false, String, Option, ◌==◌, if◌then◌else◌}
use device_sdk_python.Base.Int.{ℤ}
use device_sdk_python.Raise.{ok-injective, Result, Exn, EdgexErrorKind, ok, raise, edgex_error}
use device_sdk_python.Model.Metadata.{Device}
use device_sdk_python.Cache.Devices
use device_sdk_python.Command.State.{State, Action, Call, continue, Outside, Service, DeviceOptions}
use device_sdk_python.Command.DriverCalls.{
  Called, Called-then, continue-Called, Quiet, Quiet-refl, AtMostOnce, never, AtMostOnce-map,
  then-Quiet, continue-Quiet, continue-AtMostOnce,
}
use device_sdk_python.Command.Failures.{device_request_failed, device_request_succeeded}
use device_sdk_python.Command.Failures.Silent.{failed-Quiet, succeeded-Quiet}
use device_sdk_python.Command.Validation.{validate_service_and_device_state}
use device_sdk_python.Command.Frame.{recorded, served, validated, let_through, command_frame}

module _ {F : Type 0} (now : ℤ) (outside : Outside F) (configuration : Option DeviceOptions)
    (service : Option Service) where
  recorded-Quiet :
      {A : Type 0} (device_name : String) (p : Result A × State F)
      → Quiet p.1 (recorded now outside configuration service device_name p).1
  unfolding recorded
  recorded-Quiet device_name (ok a, s) = Quiet-refl
  recorded-Quiet {A} device_name (raise (Exn.edgex_error kind), s) =
      continue-Quiet {B = A} (device_request_failed outside configuration service device_name s) _
        (failed-Quiet outside configuration service device_name s) (λ _ _. Quiet-refl)
  recorded-Quiet device_name (raise e, s) = Quiet-refl

  connected-Quiet :
      (device_name : String) (s : State F)
      → Quiet s
          (record s { devices = Devices.set_last_connected_by_name s.devices device_name now })
  connected-Quiet device_name s = record { same = refl }

  served-Quiet :
      {A : Type 0} (device_name : String) (p : Device F × A) (s : State F)
      → Quiet s (served now outside configuration service device_name p s).1
  unfolding served
  served-Quiet {A} device_name (device, a) s =
      continue-Quiet {B = A} (device_request_succeeded outside configuration service device s) _
        (succeeded-Quiet outside configuration service device s) (λ _. connected-Quiet device_name)

  -- The call is one that the work on a device may make, when the device is let through.
  abbrev pub LetThrough : State F → String → (Device F → Call F → Type 0) → Call F → Type 0
  LetThrough s device_name P call =
      (device : Device F) × (validate_service_and_device_state s configuration service device_name
        ≡ ok device)
      × P device call

  let_through-AtMostOnce :
      {A : Type 0} (P : Device F → Call F → Type 0) (work : Device F → Action F A) (s : State F)
      (r : Result (Device F))
      → ((device : Device F) → AtMostOnce (P device) s (work device s).1)
      → AtMostOnce
          (λ call. (device : Device F) × (r ≡ ok device) × P device call)
          s
          (let_through now outside configuration service work r s).1
  unfolding let_through
  let_through-AtMostOnce P work s (raise e) h = never Quiet-refl
  let_through-AtMostOnce {A} P work s (ok device) h =
      AtMostOnce-map (λ call p. (device, refl, p))
        (continue-AtMostOnce {B = Device F × A} (work device s) (λ a s₁. (ok (device, a), s₁))
          (h device) (λ _ _. Quiet-refl))

  pub command_frame-AtMostOnce :
      {A : Type 0} (P : Device F → Call F → Type 0) (device_name command_name : String)
      (work : Device F → Action F A) (s : State F)
      → ((device : Device F) → AtMostOnce (P device) s (work device s).1)
      → AtMostOnce
          (LetThrough s device_name P)
          s
          (command_frame now outside configuration service device_name command_name work s).1
  unfolding command_frame validated
  command_frame-AtMostOnce P device_name command_name work s h =
      named (device_name == "") (command_name == "")
    where
      body :
          AtMostOnce
            (LetThrough s device_name P)
            s
            (continue
              (recorded now outside configuration service device_name
                (validated now outside configuration service device_name work s))
              (served now outside configuration service device_name)).1
      body =
          continue-AtMostOnce _ (served now outside configuration service device_name)
            (then-Quiet
              (let_through-AtMostOnce P work s
                (validate_service_and_device_state s configuration service device_name) h)
              (recorded-Quiet device_name _))
            (served-Quiet device_name)

      named :
          (b c : Bool)
          → AtMostOnce
              (LetThrough s device_name P)
              s
              (if b
                then (raise (edgex_error EdgexErrorKind.contract_invalid), s)
                else if c
                then (raise (edgex_error EdgexErrorKind.contract_invalid), s)
                else continue
                    (recorded now outside configuration service device_name
                      (validated now outside configuration service device_name work s))
                    (served now outside configuration service device_name)).1
      named true c = never Quiet-refl
      named false true = never Quiet-refl
      named false false = body

  let_through-Called :
      {A : Type 0} (call : Call F) (work : Device F → Action F A) (s : State F)
      (r : Result (Device F)) (device : Device F)
      → r ≡ ok device
      → Called call s (work device s).1
      → Called call s (let_through now outside configuration service work r s).1
  unfolding let_through
  let_through-Called call work s (raise x) device e c = cc
  let_through-Called {A} call work s (ok found) device e c =
      continue-Called {B = Device F × A} (work found s) (λ a s₁. (ok (found, a), s₁))
        (subst (λ d. Called call s (work d s).1) (sym (ok-injective e)) c) (λ _ _. Quiet-refl)

  pub command_frame-Called :
      {A : Type 0} (call : Call F) (device_name command_name : String)
      (work : Device F → Action F A) (s : State F) (device : Device F)
      → (device_name == "") ≡ false
      → (command_name == "") ≡ false
      → validate_service_and_device_state s configuration service device_name ≡ ok device
      → Called call s (work device s).1
      → Called call s
          (command_frame now outside configuration service device_name command_name work s).1
  unfolding command_frame validated
  command_frame-Called call device_name command_name work s device named commanded e c = rw named (
      rw commanded (
        continue-Called _ (served now outside configuration service device_name)
          (Called-then
            (let_through-Called call work s
              (validate_service_and_device_state s configuration service device_name) device e c)
            (recorded-Quiet device_name _))
          (served-Quiet device_name)))
