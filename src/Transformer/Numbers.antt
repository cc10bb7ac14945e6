-- ===== src/Transformer/Numbers.antt =====
-- Python's numbers, and the steps Base, Scale and Offset of internal/transformer: checknan.py,
-- transformvaluechecker.py and the rest of transformresult.py's helpers. A `CommandValue` whose
-- value is not of its value type, which `validate` refuses, raises `TypeError` here.
use device_sdk_python.Base.{◌-◌, ◌^◌, Bool, true, false, not, ◌&&◌, if◌then◌else◌}
use device_sdk_python.Base.Int.{ℤ, pos, negsuc, ◌+ℤ◌, ◌-ℤ◌, ◌*ℤ◌, eq_ℤ}
use device_sdk_python.Raise.{Result, ok, raise, type_error, overflow_transformer_error, ◌>>=◌, ◌>>◌}
use device_sdk_python.Floats.{Floats}
use device_sdk_python.Model.ValueType.{ValueType, is_integer}
use device_sdk_python.Model.Value.{Value}
use device_sdk_python.Transformer.Words.{truncate_int, trunc_div}

pub data Number (F : Type 0) : Type 0 where
  int : ℤ → Number F
  float : F → Number F

module _ {F : Type 0} where
  -- What a value is in arithmetic: `True` is 1.
  unfoldable pub as_number : Value F → Result (Number F)
  as_number (Value.int i) = ok (int i)
  as_number (Value.float f) = ok (float f)
  as_number (Value.bool true) = ok (int (pos 1))
  as_number (Value.bool false) = ok (int (pos 0))
  as_number _ = raise type_error

  abbrev pub of_number : Number F → Value F
  of_number (int i) = Value.int i
  of_number (float f) = Value.float f

  -- an operand of `&`, `<<` and `>>`
  abbrev pub as_int : Number F → Result ℤ
  as_int (int i) = ok i
  as_int (float f) = raise type_error

-- `_MIN_INT8` to `_MAX_UINT64`. `float(2 ** 64 - 1)` is 2 ** 64 and `float(2 ** 63 - 1)` is 2 ** 63.
abbrev pub checked_range : ValueType → ℤ × ℤ
checked_range ValueType.uint8 = (pos 0, pos (2 ^ 8 - 1))
checked_range ValueType.uint16 = (pos 0, pos (2 ^ 16 - 1))
checked_range ValueType.uint32 = (pos 0, pos (2 ^ 32 - 1))
checked_range ValueType.uint64 = (pos 0, pos (2 ^ 64))
checked_range ValueType.int8 = (negsuc (2 ^ 7 - 1), pos (2 ^ 7 - 1))
checked_range ValueType.int16 = (negsuc (2 ^ 15 - 1), pos (2 ^ 15 - 1))
checked_range ValueType.int32 = (negsuc (2 ^ 31 - 1), pos (2 ^ 31 - 1))
checked_range ValueType.int64 = (negsuc (2 ^ 63 - 1), pos (2 ^ 63))
checked_range _ = (pos 0, pos 0)

module _ (fl : Floats) where
  open fl use {
    Float, of_int, to_int, to_float32, trunc, isnan, isinf, fabs, int_le, le_int, int_eq, eq,
  }

  -- `math.trunc(transformed) == transformed`, after the comparisons of the range have passed
  is_integral : Float → Result Bool
  is_integral x = do i ← trunc x; ok (int_eq i x)

  -- `low <= transformed <= high and ...`
  integral_in : ℤ × ℤ → Float → Result Bool
  unfolding is_integral
  integral_in (low, high) x = if int_le low x && le_int x high then is_integral x else ok false

  unfoldable pub check_transformed_value_in_range : ValueType → Float → Result Bool
  unfolding integral_in is_integer
  check_transformed_value_in_range ValueType.float32 x =
      ok (not (isnan x) && fl.le (fabs x) fl.max_float32)
  check_transformed_value_in_range ValueType.float64 x = ok (not (isnan x) && not (isinf x))
  check_transformed_value_in_range vt x =
      if is_integer vt then integral_in (checked_range vt) x else ok false

  -- `_check_in_range`
  unfoldable pub check_in_range : ValueType → Float → Result (Unit {0})
  unfolding check_transformed_value_in_range
  check_in_range vt x = do
    in_range ← check_transformed_value_in_range vt x
    if in_range then ok tt else raise overflow_transformer_error

  -- float(value)
  abbrev pub float_of : Number Float → Result Float
  float_of (int i) = of_int i
  float_of (float f) = ok f

  -- `_to_value_float`
  unfoldable pub to_value_float : Number Float → ValueType → Result Float
  to_value_float n ValueType.float32 = do x ← float_of n; to_float32 x
  to_value_float n _ = float_of n

  -- `_from_value_float`
  unfoldable pub from_value_float : Float → ValueType → Result (Number Float)
  unfolding truncate_int
  from_value_float x ValueType.float32 = do y ← to_float32 x; ok (float y)
  from_value_float x ValueType.float64 = ok (float x)
  from_value_float x vt = do i ← to_int x; j ← truncate_int i vt; ok (int j)

  unfoldable pub transform_base : Number Float → Float → Bool → ValueType → Result (Number Float)
  unfolding to_value_float check_in_range from_value_float
  transform_base value base read vt = do
    value_float ← to_value_float value vt
    result ←
        (if read
          then fl.pow base value_float
          else (do a ← fl.log value_float; b ← fl.log base; fl.div a b))
    check_in_range vt result
    from_value_float result vt

  -- the `return` of `transform_scale` and of `transform_offset` for the two float types and for the
  -- types that are no number
  float_result : Float → ValueType → Result (Number Float)
  float_result x ValueType.float32 = do y ← to_float32 x; ok (float y)
  float_result x _ = ok (float x)

  -- `value * int_scale` or `_trunc_div(value, int_scale)`, truncated
  unfoldable pub scale_int : ℤ → ℤ → Bool → ValueType → Result ℤ
  unfolding truncate_int trunc_div ◌*ℤ◌
  scale_int value int_scale true vt = truncate_int (value *ℤ int_scale) vt
  scale_int value int_scale false vt = do q ← trunc_div value int_scale; truncate_int q vt

  unfoldable pub transform_scale : Number Float → Float → Bool → ValueType → Result (Number Float)
  unfolding to_value_float check_in_range is_integer scale_int float_result
  transform_scale value scale read vt = do
    value_float ← to_value_float value vt
    result ← (if read then ok (fl.mul value_float scale) else fl.div value_float scale)
    check_in_range vt result
    if is_integer vt
        then (do
          int_scale ← to_int scale
          i ← as_int value
          j ← scale_int i int_scale read vt
          ok (int j))
        else float_result result vt

  unfoldable pub transform_offset : Number Float → Float → Bool → ValueType → Result (Number Float)
  unfolding to_value_float check_in_range is_integer float_result truncate_int ◌+ℤ◌ ◌-ℤ◌
  transform_offset value offset read vt = do
    value_float ← to_value_float value vt
    let result = (if read then fl.add value_float offset else fl.sub value_float offset)
    check_in_range vt result
    if is_integer vt
        then (do
          int_offset ← to_int offset
          i ← as_int value
          j ← truncate_int (if read then i +ℤ int_offset else i -ℤ int_offset) vt
          ok (int j))
        else float_result result vt

  -- a == b
  abbrev pub number_eq : Number Float → Number Float → Bool
  number_eq (int i) (int j) = eq_ℤ i j
  number_eq (int i) (float f) = int_eq i f
  number_eq (float f) (int i) = int_eq i f
  number_eq (float f) (float g) = eq f g
