-- ===== src/Transformer/WriteParameter/InRange.antt =====
-- Write parameters of the integer types through the incoming transformation.
use device_sdk_python.Base.{◌≡◌, refl, sym, ◌∙◌, true, false, some, arith}
use device_sdk_python.Base.Int.{ℤ, ◌≤ℤ◌}
use mathlib.Core.Path.{subst}
use device_sdk_python.Raise.{Result, ok, raise, ◌>>=◌, ◌>>◌}
use device_sdk_python.Floats.{Floats}
use device_sdk_python.Model.ValueType.{ValueType, is_integer}
use device_sdk_python.Model.Metadata.{ResourceProperties}
use device_sdk_python.Model.CommandValue.{CommandValue}
use device_sdk_python.Transformer.Numbers.{Number, int, as_number}
use device_sdk_python.Transformer.ReadResult.{
  shift_step, base_step, scale_step, offset_step, assign,
}
use device_sdk_python.Transformer.StepRanges.{
  NumberFits, Keeps, HoldsInteger, numeric_of_integer, mask_step-Keeps, shift_step-Keeps,
  base_step-Keeps, scale_step-Keeps, offset_step-Keeps, Keeps-then, assigned,
}
use device_sdk_python.Transformer.WriteParameter.{
  write_chain, negated, transform_write_parameter, validate_write_maximum, validate_write_minimum,
  if_set,
}

module _ (fl : Floats) where
  open fl use {Float}

  module _ (props : ResourceProperties Float) (vt : ValueType)
      (integer : is_integer vt ≡ true) where
    pub write_chain-Keeps :
        (n : Number Float) → NumberFits fl vt n → Keeps fl vt (write_chain fl props vt n)
    unfolding write_chain
    write_chain-Keeps n fits =
        Keeps-then fl props vt integer (offset_step fl props false vt n) _
          (offset_step-Keeps fl props vt integer false n fits)
          (λ n₁ h₁.
            Keeps-then fl props vt integer (scale_step fl props false vt n₁) _
              (scale_step-Keeps fl props vt integer false n₁ h₁)
              (λ n₂ h₂.
                Keeps-then fl props vt integer (base_step fl props false vt n₂) _
                  (base_step-Keeps fl props vt integer false n₂ h₂)
                  (λ n₃ h₃.
                    Keeps-then fl props vt integer (shift_step fl (negated props.shift) vt n₃) _
                      (shift_step-Keeps fl props vt integer (negated props.shift) n₃ h₃)
                      (λ n₄ h₄. mask_step-Keeps fl props vt integer n₄ h₄))))

  write_parameter-chain :
      (cv : CommandValue Float) (props : ResourceProperties Float) (v : HoldsInteger fl cv)
      → transform_write_parameter fl cv props ≡ (do
        if_set fl props.maximum (validate_write_maximum fl (int v.held) cv.value_type)
        if_set fl props.minimum (validate_write_minimum fl (int v.held) cv.value_type)
        n ← write_chain fl props cv.value_type (int v.held)
        ok (assign fl cv (int v.held) n))
  unfolding transform_write_parameter as_number
  write_parameter-chain cv props v = rw (v.value, numeric_of_integer cv.value_type v.integer) refl

  maximum_passed :
      (vt : ValueType) (i b : ℤ) (maximum : Float)
      → is_integer vt ≡ true
      → fl.to_int maximum ≡ ok b
      → validate_write_maximum fl (int i) vt maximum ≡ ok tt
      → i ≤ℤ b
  unfolding validate_write_maximum is_integer
  maximum_passed ValueType.float32 i b m h e p = cc
  maximum_passed ValueType.float64 i b m h e p = cc
  maximum_passed vt i b m h e p = ground arith

  minimum_passed :
      (vt : ValueType) (i b : ℤ) (minimum : Float)
      → is_integer vt ≡ true
      → fl.to_int minimum ≡ ok b
      → validate_write_minimum fl (int i) vt minimum ≡ ok tt
      → b ≤ℤ i
  unfolding validate_write_minimum is_integer
  minimum_passed ValueType.float32 i b m h e p = cc
  minimum_passed ValueType.float64 i b m h e p = cc
  minimum_passed vt i b m h e p = ground arith

  -- The two checks passed if what follows them was reached.
  reached :
      {A : Type 0} (m n : Result (Unit {0})) (k : Result A) {a : A}
      → (m >> (n >> k)) ≡ ok a
      → (m ≡ ok tt) × (n ≡ ok tt) × (k ≡ ok a)
  reached (ok _) (ok _) k e = (refl, refl, e)
  reached (ok _) (raise x) k e = cc
  reached (raise x) n k e = cc

  -- A write parameter of an integer type, in the range of its type, is still such a value after the
  -- incoming transformation, if that succeeds; its type is the same, and before the transformation
  -- it lay within the maximum and the minimum that are set, truncated to integers.
  pub transform_write_parameter-HoldsInteger :
      (cv : CommandValue Float) (props : ResourceProperties Float) {cv' : CommandValue Float}
      (v : HoldsInteger fl cv)
      → transform_write_parameter fl cv props ≡ ok cv'
      → HoldsInteger fl cv'
        × (cv'.value_type ≡ cv.value_type)
        × ((m : Float) (b : ℤ) → props.maximum ≡ some m → fl.to_int m ≡ ok b → v.held ≤ℤ b)
        × ((m : Float) (b : ℤ) → props.minimum ≡ some m → fl.to_int m ≡ ok b → b ≤ℤ v.held)
  transform_write_parameter-HoldsInteger cv props v e =
      let vt = cv.value_type in
      let chain = write_chain fl props vt (int v.held) in
      let (above, below, done) =
        reached (if_set fl props.maximum (validate_write_maximum fl (int v.held) vt))
          (if_set fl props.minimum (validate_write_minimum fl (int v.held) vt))
          (chain >>= λ n. ok (assign fl cv (int v.held) n))
          (sym (write_parameter-chain cv props v) ∙ e) in
      let (held, same, _) =
        assigned fl cv v chain (write_chain-Keeps props vt v.integer (int v.held) v.fits) done in
      (
        held,
        same,
        λ m b set bound. maximum_passed vt v.held b m v.integer bound (
            subst (λ o. if_set fl o (validate_write_maximum fl (int v.held) vt) ≡ ok tt) set above),
        λ m b set bound. minimum_passed vt v.held b m v.integer bound (
            subst (λ o. if_set fl o (validate_write_minimum fl (int v.held) vt) ≡ ok tt) set below),
      )
