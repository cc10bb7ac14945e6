-- ===== src/Transformer/ReadResult/InRange.antt =====
-- Readings of the integer types stay in the range of their type through the outgoing transformation.
use device_sdk_python.Base.{◌≡◌, refl, sym, ◌∙◌, true}
use device_sdk_python.Raise.{ok, ◌>>=◌}
use device_sdk_python.Floats.{Floats}
use device_sdk_python.Model.ValueType.{ValueType, is_integer}
use device_sdk_python.Model.Metadata.{ResourceProperties}
use device_sdk_python.Model.CommandValue.{CommandValue}
use device_sdk_python.Transformer.Numbers.{Number, int, as_number}
use device_sdk_python.Transformer.ReadResult.{
  mask_step, shift_step, base_step, scale_step, assign, is_nan, read_chain, transform_read_result,
}
use device_sdk_python.Transformer.StepRanges.{
  NumberFits, Keeps, HoldsInteger, numeric_of_integer, not_float_of_integer, mask_step-Keeps,
  shift_step-Keeps, base_step-Keeps, scale_step-Keeps, offset_step-Keeps, Keeps-then, assigned,
}

module _ (fl : Floats) where
  open fl use {Float}

  module _ (props : ResourceProperties Float) (vt : ValueType)
      (integer : is_integer vt ≡ true) where
    pub read_chain-Keeps :
        (n : Number Float) → NumberFits fl vt n → Keeps fl vt (read_chain fl props vt n)
    unfolding read_chain
    read_chain-Keeps n fits =
        Keeps-then fl props vt integer (mask_step fl props vt n) _
          (mask_step-Keeps fl props vt integer n fits)
          (λ n₁ h₁.
            Keeps-then fl props vt integer (shift_step fl props.shift vt n₁) _
              (shift_step-Keeps fl props vt integer props.shift n₁ h₁)
              (λ n₂ h₂.
                Keeps-then fl props vt integer (base_step fl props true vt n₂) _
                  (base_step-Keeps fl props vt integer true n₂ h₂)
                  (λ n₃ h₃.
                    Keeps-then fl props vt integer (scale_step fl props true vt n₃) _
                      (scale_step-Keeps fl props vt integer true n₃ h₃)
                      (λ n₄ h₄. offset_step-Keeps fl props vt integer true n₄ h₄))))

  read_result-chain :
      (cv : CommandValue Float) (props : ResourceProperties Float) (v : HoldsInteger fl cv)
      → transform_read_result fl cv props
        ≡ (read_chain fl props cv.value_type (int v.held) >>= λ n. ok (assign fl cv (int v.held) n))
  unfolding transform_read_result is_nan as_number
  read_result-chain cv props v =
      rw
        (
          v.value,
          numeric_of_integer cv.value_type v.integer,
          not_float_of_integer cv.value_type v.integer,
        )
        refl

  -- A reading of an integer type in the range of its type is still such a reading after the outgoing
  -- transformation, if that succeeds, under any properties and whatever the floats compute.
  pub transform_read_result-HoldsInteger :
      (cv : CommandValue Float) (props : ResourceProperties Float) {cv' : CommandValue Float}
      → HoldsInteger fl cv
      → transform_read_result fl cv props ≡ ok cv'
      → HoldsInteger fl cv'
        × (cv'.value_type ≡ cv.value_type)
        × (cv'.device_resource_name ≡ cv.device_resource_name)
  transform_read_result-HoldsInteger cv props v e =
      assigned fl cv v (read_chain fl props cv.value_type (int v.held))
        (read_chain-Keeps props cv.value_type v.integer (int v.held) v.fits)
        (sym (read_result-chain cv props v) ∙ e)
