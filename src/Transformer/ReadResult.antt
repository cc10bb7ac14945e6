-- ===== src/Transformer/ReadResult.antt =====
-- The outgoing transformation of a reading: `transform_read_result`, `check_assertion` and
-- `map_command_value` of internal/transformer/transformresult.py, `is_nan` of checknan.py. An
-- assignment to `cv.value` is the new `CommandValue`; a step that raises has assigned nothing.
pub mod InRange
use device_sdk_python.Base.{
  Bool, true, false, not, ◌&&◌, ◌||◌, String, Option, none, some, ◌==◌, if◌then◌else◌, length,
}
use device_sdk_python.Base.Int.{ℤ, pos, eq_ℤ}
use device_sdk_python.Base.Dict
use device_sdk_python.Base.Dict.{Dict}
use device_sdk_python.Raise.{
  Result, ok, raise, transformer_error, nan_transformer_error, ◌>>=◌, ◌>>◌,
}
use device_sdk_python.Floats.{Floats}
use device_sdk_python.Model.ValueType.{ValueType, is_integer, is_numeric, is_binary}
use device_sdk_python.Model.Value.{Value, is_null}
use device_sdk_python.Model.Metadata.{ResourceProperties}
use device_sdk_python.Model.CommandValue.{CommandValue, create_command_value}
use device_sdk_python.Transformer.Words.{transform_mask, transform_shift}
use device_sdk_python.Transformer.Numbers.{
  Number, int, float, as_number, of_number, as_int, float_of, transform_base, transform_scale,
  transform_offset, number_eq,
}

abbrev pub is_float_type : ValueType → Bool
is_float_type ValueType.float32 = true
is_float_type ValueType.float64 = true
is_float_type _ = false

module _ (fl : Floats) where
  open fl use {Float}

  -- `is_nan` of a `CommandValue`, and `check_nan` of a value and its type
  unfoldable pub is_nan : Value Float → ValueType → Result Bool
  unfolding as_number
  is_nan value vt =
      if not (is_float_type vt)
      then ok false
      else if is_null value
      then ok false
      else (do n ← as_number value; x ← float_of fl n; ok (fl.isnan x))

  -- One step of the chain: the number is left as it is if the property is missing, or if the
  -- condition on it fails.
  unfoldable pub optional_step :
      {P : Type 0}
      → Option P
      → (P → Bool)
      → (P → Result (Number Float))
      → Number Float
      → Result (Number Float)
  optional_step none applies f n = ok n
  optional_step (some p) applies f n = if applies p then f p else ok n

  unfoldable pub mask_step :
      ResourceProperties Float → ValueType → Number Float → Result (Number Float)
  unfolding optional_step transform_mask is_integer
  mask_step props vt n =
      optional_step props.mask (λ mask. not (eq_ℤ mask (pos 0)) && is_integer vt)
        (λ mask. do i ← as_int n; j ← transform_mask i mask vt; ok (int j)) n

  unfoldable pub shift_step : Option ℤ → ValueType → Number Float → Result (Number Float)
  unfolding optional_step transform_shift is_integer
  shift_step shift vt n =
      optional_step shift (λ s. not (eq_ℤ s (pos 0)) && is_integer vt)
        (λ s. do i ← as_int n; j ← transform_shift i s vt; ok (int j)) n

  unfoldable pub base_step :
      ResourceProperties Float → Bool → ValueType → Number Float → Result (Number Float)
  unfolding optional_step transform_base
  base_step props read vt n =
      optional_step props.base (λ b. not (fl.eq b fl.zero)) (λ b. transform_base fl n b read vt) n

  unfoldable pub scale_step :
      ResourceProperties Float → Bool → ValueType → Number Float → Result (Number Float)
  unfolding optional_step transform_scale
  scale_step props read vt n =
      optional_step props.scale (λ s. not (fl.eq s fl.one)) (λ s. transform_scale fl n s read vt) n

  unfoldable pub offset_step :
      ResourceProperties Float → Bool → ValueType → Number Float → Result (Number Float)
  unfolding optional_step transform_offset
  offset_step props read vt n =
      optional_step props.offset (λ o. not (fl.eq o fl.zero)) (λ o. transform_offset fl n o read vt)
        n

  unfoldable pub read_chain :
      ResourceProperties Float → ValueType → Number Float → Result (Number Float)
  unfolding mask_step shift_step base_step scale_step offset_step
  read_chain props vt n = do
    n₁ ← mask_step props vt n
    n₂ ← shift_step props.shift vt n₁
    n₃ ← base_step props true vt n₂
    n₄ ← scale_step props true vt n₃
    offset_step props true vt n₄

  -- `if value != new_value: cv.value = new_value`
  unfoldable pub assign : CommandValue Float → Number Float → Number Float → CommandValue Float
  assign cv value new_value =
      if number_eq fl value new_value then cv else record cv { value = of_number new_value }

  unfoldable pub transform_read_result :
      CommandValue Float → ResourceProperties Float → Result (CommandValue Float)
  unfolding is_nan read_chain assign as_number is_numeric
  transform_read_result cv props =
      if is_null cv.value || not (is_numeric cv.value_type) then ok cv else (do
        nan ← is_nan cv.value cv.value_type
        if nan then raise nan_transformer_error else (do
          value ← as_number cv.value
          new_value ← read_chain props cv.value_type value
          ok (assign cv value new_value)))

  -- `CommandValue.value_to_string`
  unfoldable pub value_to_string : CommandValue Float → Result String
  unfolding is_binary
  value_to_string cv =
      if is_binary cv.value_type then fl.binary_text cv.value else ok (fl.str cv.value)

  unfoldable pub check_assertion : CommandValue Float → String → Result (Unit {0})
  unfolding value_to_string
  check_assertion cv assertion = if assertion == "" then ok tt else (do
    shown ← value_to_string cv
    if shown == assertion then ok tt else raise transformer_error)

  -- the result of `mappings[key]`, if it is there
  unfoldable pub mapped : String → Option String → Result (Option (CommandValue Float))
  unfolding create_command_value
  mapped name none = ok none
  mapped name (some text) = do
    cv ← create_command_value name ValueType.string (Value.str text)
    ok (some cv)

  unfoldable pub map_command_value :
      CommandValue Float → Dict String → Result (Option (CommandValue Float))
  unfolding value_to_string mapped
  map_command_value cv mappings = do
    key ← value_to_string cv
    mapped cv.device_resource_name (Dict.get mappings key)
