-- ===== src/Command/Failures/Counting.antt =====
-- The count of failures, and when a device is reported.
use mathlib.Core.Path.{subst}
use device_sdk_python.Base.{
  ℕ, zero, suc, ◌+◌, ◌≡◌, refl, sym, ap, ◌∙◌, true, false, String, Option, some, if◌then◌else◌,
  eq_refl, arith,
}
use device_sdk_python.Base.Int.{ℤ, pos, negsuc, ◌-ℤ◌, ltb_ℤ, eq_ℤ}
use device_sdk_python.Base.Dict
use device_sdk_python.Base.Dict.{get-put}
use device_sdk_python.Cache.Devices
use device_sdk_python.Raise.{ok}
use device_sdk_python.Command.State.{State, Outside, Service, DeviceOptions, continue, when, ◌>>=◌}
use device_sdk_python.Command.Failures
use device_sdk_python.Command.Failures.{
  allowed_fails, failure_count, set_failure_count, decrease_failure_count, device_request_failed,
}

minus_one : (count : ℕ) → pos (suc (suc count)) -ℤ pos 1 ≡ pos (suc count)
unfolding ◌-ℤ◌
minus_one count = ground arith

not_zero : (count : ℕ) → eq_ℤ (pos (suc count)) (pos 0) ≡ false
not_zero count = ground arith

module _ {F : Type 0} (outside : Outside F) (configuration : Option DeviceOptions)
    (service : Option Service) (device_name : String) where
  -- n failures of the device, one after the other
  unfoldable pub fail_times : ℕ → State F → State F
  unfolding device_request_failed
  fail_times zero s = s
  fail_times (suc n) s =
      fail_times n (device_request_failed outside configuration service device_name s).1

  count-set :
      (count : ℤ) (s : State F)
      → failure_count (set_failure_count device_name count s) device_name ≡ count
  unfolding failure_count set_failure_count
  count-set count s = ap Failures.or_zero (
      get-put s.failures device_name device_name count
      ∙ ap (λ b. if b then some count else Dict.get s.failures device_name) (eq_refl device_name))

  uncounted :
      (s : State F) (count : ℕ)
      → Failures.after_count outside service device_name (pos (suc count)) s ≡ (ok tt, s)
  unfolding Failures.after_count
  uncounted s count =
      ap
        (λ b.
          when b
            (Failures.exhausted outside service device_name
              (Devices.for_name s.devices device_name))
            s)
        (not_zero count)

  decreased :
      (s : State F) (count : ℕ)
      → failure_count s device_name ≡ pos (suc (suc count))
      → decrease_failure_count device_name s
        ≡ (ok (pos (suc count)), set_failure_count device_name (pos (suc count)) s)
  unfolding decrease_failure_count
  decreased s count e =
      ap (λ c. (ok c, set_failure_count device_name c s)) (ap (λ c. c -ℤ pos 1) e ∙ minus_one count)

  one_failure :
      (s : State F) (count : ℕ)
      → ltb_ℤ (pos 0) (allowed_fails configuration) ≡ true
      → failure_count s device_name ≡ pos (suc (suc count))
      → device_request_failed outside configuration service device_name s
        ≡ (ok tt, set_failure_count device_name (pos (suc count)) s)
  unfolding device_request_failed
  one_failure s count tracked e =
      let body =
        decrease_failure_count device_name >>= Failures.after_count outside service device_name in
      ap (λ b. when b body s) tracked
      ∙ ap (λ p. continue p (Failures.after_count outside service device_name))
          (decreased s count e)
      ∙ uncounted (set_failure_count device_name (pos (suc count)) s) count

  -- What n failures leave, of a count that was n more.
  abbrev pub Untouched : ℕ → State F → State F → Type 0
  Untouched rest s s' =
      (failure_count s' device_name ≡ pos (suc rest))
      × (s'.devices ≡ s.devices)
      × (s'.calls ≡ s.calls)

  -- When failures are tracked and the count of the device is more than n, then after n failed
  -- requests the count is n less, and neither the device cache was changed nor any call went out.
  pub fail_times-Untouched :
      (n rest : ℕ) (s : State F)
      → ltb_ℤ (pos 0) (allowed_fails configuration) ≡ true
      → failure_count s device_name ≡ pos (n + suc rest)
      → Untouched rest s (fail_times n s)
  unfolding fail_times set_failure_count
  fail_times-Untouched zero rest s tracked e =
      let same : 0 + suc rest ≡ suc rest = omega arith in (e ∙ ap pos same, refl, refl)
  fail_times-Untouched (suc n) rest s tracked e =
      let count : suc n + suc rest ≡ suc (suc (n + rest)) = omega arith in
      let count' : suc (n + rest) ≡ n + suc rest = omega arith in
      let next = set_failure_count device_name (pos (suc (n + rest))) s in
      let one = one_failure s (n + rest) tracked (e ∙ ap pos count) in
      subst (λ s'. Untouched rest s (fail_times n s')) (sym (ap (λ p. p.1) one))
        (fail_times-Untouched n rest next tracked
          (count-set (pos (suc (n + rest))) s ∙ ap pos count'))

  -- The failure of a device whose count is 0 takes the count to -1, and does nothing else.
  pub failure_at_zero :
      (s : State F)
      → ltb_ℤ (pos 0) (allowed_fails configuration) ≡ true
      → failure_count s device_name ≡ pos 0
      → device_request_failed outside configuration service device_name s
        ≡ (ok tt, set_failure_count device_name (negsuc 0) s)
  unfolding device_request_failed decrease_failure_count Failures.after_count ◌-ℤ◌
  failure_at_zero s tracked e =
      let body =
        decrease_failure_count device_name >>= Failures.after_count outside service device_name in
      let decreased : decrease_failure_count device_name s
          ≡ (ok (negsuc 0), set_failure_count device_name (negsuc 0) s) =
        ap (λ c. (ok (c -ℤ pos 1), set_failure_count device_name (c -ℤ pos 1) s)) e in
      ap (λ b. when b body s) tracked
      ∙ ap (λ p. continue p (Failures.after_count outside service device_name)) decreased
