-- ===== src/Transformer/WriteParameter/Alike.antt =====
-- The incoming transformation keeps the name and the type of a parameter, and leaves a null alone.
use device_sdk_python.Base.{◌≡◌, refl, true, not, ◌||◌, arith}
use device_sdk_python.Raise.{ok, Returns, Returns-ok, Returns-if, Returns-bind}
use device_sdk_python.Floats.{Floats}
use device_sdk_python.Model.ValueType.{is_numeric}
use device_sdk_python.Model.Value.{is_null}
use device_sdk_python.Model.Metadata.{ResourceProperties}
use device_sdk_python.Model.CommandValue.{CommandValue}
use device_sdk_python.Transformer.Numbers.{Number, as_number}
use device_sdk_python.Transformer.ReadResult.{assign}
use device_sdk_python.Transformer.WriteParameter
use device_sdk_python.Transformer.WriteParameter.{
  transform_write_parameter, validate_write_maximum, validate_write_minimum, write_chain,
}

module _ (fl : Floats) where
  open fl use {Float}

  -- the same name and type
  abbrev pub Alike : CommandValue Float → CommandValue Float → Type 0
  Alike cv cv' =
      (cv'.device_resource_name ≡ cv.device_resource_name) × (cv'.value_type ≡ cv.value_type)

  assign-Alike : (cv : CommandValue Float) (n m : Number Float) → Alike cv (assign fl cv n m)
  unfolding assign
  assign-Alike cv n m = ground arith

  pub transform-Alike :
      (cv : CommandValue Float) (props : ResourceProperties Float)
      → Returns (Alike cv) (transform_write_parameter fl cv props)
  unfolding transform_write_parameter
  transform-Alike cv props =
      Returns-if (is_null cv.value || not (is_numeric cv.value_type)) (λ _. Returns-ok (refl, refl))
        (λ _. Returns-bind (as_number cv.value) _ (λ n _.
          Returns-bind
            (WriteParameter.if_set fl props.maximum (validate_write_maximum fl n cv.value_type)) _
            (λ _ _.
              Returns-bind
                (WriteParameter.if_set fl props.minimum (validate_write_minimum fl n cv.value_type))
                _
                (λ _ _.
                  Returns-bind (write_chain fl props cv.value_type n) _
                    (λ m _. Returns-ok (assign-Alike cv n m))))))

  pub transform-null :
      (cv : CommandValue Float) (props : ResourceProperties Float) {cv' : CommandValue Float}
      → is_null cv.value ≡ true
      → transform_write_parameter fl cv props ≡ ok cv'
      → cv' ≡ cv
  unfolding transform_write_parameter
  transform-null cv props null e = ground arith
