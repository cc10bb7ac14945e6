-- ===== src/Transformer/WriteParameter.antt =====
-- The incoming transformation of a write parameter: internal/transformer/transformparam.py.
pub mod InRange
pub mod Alike
use device_sdk_python.Base.{Bool, true, false, not, ◌||◌, Option, none, some, if◌then◌else◌}
use device_sdk_python.Base.Int.{ℤ, neg_ℤ, ltb_ℤ}
use device_sdk_python.Raise.{Result, ok, raise, write_parameter_error, ◌>>=◌, ◌>>◌}
use device_sdk_python.Floats.{Floats}
use device_sdk_python.Model.ValueType.{ValueType, is_integer, is_numeric}
use device_sdk_python.Model.Value.{is_null}
use device_sdk_python.Model.Metadata.{ResourceProperties}
use device_sdk_python.Model.CommandValue.{CommandValue}
use device_sdk_python.Transformer.Numbers.{Number, int, float, as_number}
use device_sdk_python.Transformer.ReadResult.{
  mask_step, shift_step, base_step, scale_step, offset_step, assign,
}

-- the shift property with its sign changed
abbrev pub negated : Option ℤ → Option ℤ
negated none = none
negated (some s) = some (neg_ℤ s)

module _ (fl : Floats) where
  open fl use {Float, to_int, to_float32}

  -- a < b, of two numbers
  number_lt : Number Float → Number Float → Bool
  number_lt (int i) (int j) = ltb_ℤ i j
  number_lt (int i) (float y) = fl.int_lt i y
  number_lt (float x) (int j) = fl.lt_int x j
  number_lt (float x) (float y) = fl.lt x y

  guard : Bool → Result (Unit {0})
  guard out = if out then raise write_parameter_error else ok tt

  -- The bound is truncated to an int for the integer types, and rounded to a float32 for Float32.
  unfoldable pub validate_write_maximum : Number Float → ValueType → Float → Result (Unit {0})
  unfolding number_lt guard is_integer
  validate_write_maximum value ValueType.float32 maximum = do
    bound ← to_float32 maximum
    guard (number_lt (float bound) value)
  validate_write_maximum value ValueType.float64 maximum = guard (number_lt (float maximum) value)
  validate_write_maximum value vt maximum =
      if is_integer vt
      then (do bound ← to_int maximum; guard (number_lt (int bound) value))
      else ok tt

  unfoldable pub validate_write_minimum : Number Float → ValueType → Float → Result (Unit {0})
  unfolding number_lt guard is_integer
  validate_write_minimum value ValueType.float32 minimum = do
    bound ← to_float32 minimum
    guard (number_lt value (float bound))
  validate_write_minimum value ValueType.float64 minimum = guard (number_lt value (float minimum))
  validate_write_minimum value vt minimum =
      if is_integer vt
      then (do bound ← to_int minimum; guard (number_lt value (int bound)))
      else ok tt

  -- `if bound is not None: check(bound)`
  abbrev if_set : Option Float → (Float → Result (Unit {0})) → Result (Unit {0})
  if_set none check = ok tt
  if_set (some bound) check = check bound

  unfoldable pub write_chain :
      ResourceProperties Float → ValueType → Number Float → Result (Number Float)
  unfolding mask_step shift_step base_step scale_step offset_step neg_ℤ
  write_chain props vt n = do
    n₁ ← offset_step fl props false vt n
    n₂ ← scale_step fl props false vt n₁
    n₃ ← base_step fl props false vt n₂
    n₄ ← shift_step fl (negated props.shift) vt n₃
    mask_step fl props vt n₄

  unfoldable pub transform_write_parameter :
      CommandValue Float → ResourceProperties Float → Result (CommandValue Float)
  unfolding validate_write_maximum validate_write_minimum write_chain assign as_number is_numeric
  transform_write_parameter cv props =
      if is_null cv.value || not (is_numeric cv.value_type) then ok cv else (do
        value ← as_number cv.value
        if_set props.maximum (validate_write_maximum value cv.value_type)
        if_set props.minimum (validate_write_minimum value cv.value_type)
        new_value ← write_chain props cv.value_type value
        ok (assign fl cv value new_value))
