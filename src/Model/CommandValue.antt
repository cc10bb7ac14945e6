-- ===== src/Model/CommandValue.antt =====
-- `CommandValue`, `validate` and the typed getters of models/command_value.py.
pub mod TypedValues
use device_sdk_python.Base.{
  ℕ, Bool, String, Option, none, some, [], ltb, length, if◌then◌else◌, ◌&&◌, not, ◌==◌,
}
use device_sdk_python.Base.Int.{ℤ, pos}
use device_sdk_python.Base.Dict.{Dict}
use device_sdk_python.Raise.{Result, ok, raise, value_type_error, ◌>>=◌, ◌>>◌}
use device_sdk_python.Model.ValueType.{ValueType, is_binary, text}
use device_sdk_python.Model.Value.{
  Value, is_null, is_bool, is_str, is_int, is_float, is_bytes, is_dict, is_list_of,
}

abbrev pub max_binary_bytes : ℕ
max_binary_bytes = 16777216

module _ {F : Type 0} where
  -- `_TYPE_CHECKERS`; `none` for a value type that the table lacks
  unfoldable pub type_checker : ValueType → Option (Value F → Bool)
  unfolding is_list_of
  type_checker ValueType.string = some is_str
  type_checker ValueType.string_array = some (is_list_of is_str)
  type_checker ValueType.bool = some is_bool
  type_checker ValueType.bool_array = some (is_list_of is_bool)
  type_checker ValueType.uint8 = some is_int
  type_checker ValueType.uint8_array = some (is_list_of is_int)
  type_checker ValueType.uint16 = some is_int
  type_checker ValueType.uint16_array = some (is_list_of is_int)
  type_checker ValueType.uint32 = some is_int
  type_checker ValueType.uint32_array = some (is_list_of is_int)
  type_checker ValueType.uint64 = some is_int
  type_checker ValueType.uint64_array = some (is_list_of is_int)
  type_checker ValueType.int8 = some is_int
  type_checker ValueType.int8_array = some (is_list_of is_int)
  type_checker ValueType.int16 = some is_int
  type_checker ValueType.int16_array = some (is_list_of is_int)
  type_checker ValueType.int32 = some is_int
  type_checker ValueType.int32_array = some (is_list_of is_int)
  type_checker ValueType.int64 = some is_int
  type_checker ValueType.int64_array = some (is_list_of is_int)
  type_checker ValueType.float32 = some is_float
  type_checker ValueType.float32_array = some (is_list_of is_float)
  type_checker ValueType.float64 = some is_float
  type_checker ValueType.float64_array = some (is_list_of is_float)
  type_checker ValueType.binary = some is_bytes
  type_checker ValueType.object = some (λ v. not (is_null v))
  type_checker ValueType.object_array = some (is_list_of is_dict)
  type_checker (ValueType.unrecognized name) = none

  -- len(value), of a value that is bytes
  abbrev pub byte_length : Value F → ℕ
  byte_length (Value.bytes b) = length b
  byte_length _ = 0

  check_type : ValueType → Value F → Option (Value F → Bool) → Result (Unit {0})
  check_type vt v none = raise value_type_error
  check_type vt v (some checker) =
      if checker v
      then (if is_binary vt && ltb max_binary_bytes (byte_length v)
          then raise value_type_error
          else ok tt)
      else raise value_type_error

  unfoldable pub validate : ValueType → Value F → Result (Unit {0})
  unfolding type_checker check_type is_binary
  validate vt v = if is_null v then ok tt else check_type vt v (type_checker vt)

pub record CommandValue (F : Type 0) : Type 0 where
  pub device_resource_name : String
  pub value_type : ValueType
  pub value : Value F
  pub origin : ℤ
  pub tags : Dict String

module _ {F : Type 0} where
  -- `CommandValue(...)` with `__post_init__`, by way of `create_command_value`
  unfoldable pub create_command_value : String → ValueType → Value F → Result (CommandValue F)
  create_command_value name vt v = do
    validate vt v
    ok (record {
      device_resource_name = name;
      value_type = vt;
      value = v;
      origin = pos 0;
      tags = [];
    })

  unfoldable pub create_command_value_with_origin :
      String → ValueType → Value F → ℤ → Result (CommandValue F)
  create_command_value_with_origin name vt v origin = do
    command_value ← create_command_value name vt v
    ok (record command_value { origin = origin })

-- `_require_type`: the type that a getter asks for must be the declared one.
module _ {F : Type 0} where
  require_type : CommandValue F → ValueType → Result (Unit {0})
  unfolding text
  require_type cv vt = if text cv.value_type == text vt then ok tt else raise value_type_error

  -- `if not p(self.value): raise`, and the value
  checked : (Value F → Bool) → Value F → Result (Value F)
  checked p v = if p v then ok v else raise value_type_error

  -- `_int_value`, `_float_value`, `_int_array_value`, `_float_array_value`
  unfoldable pub int_value : CommandValue F → ValueType → Result (Value F)
  unfolding require_type checked
  int_value cv vt = require_type cv vt >> checked is_int cv.value

  unfoldable pub float_value : CommandValue F → ValueType → Result (Value F)
  unfolding require_type checked
  float_value cv vt = require_type cv vt >> checked is_float cv.value

  unfoldable pub int_array_value : CommandValue F → ValueType → Result (Value F)
  unfolding require_type checked is_list_of
  int_array_value cv vt = require_type cv vt >> checked (is_list_of is_int) cv.value

  unfoldable pub float_array_value : CommandValue F → ValueType → Result (Value F)
  unfolding require_type checked is_list_of
  float_array_value cv vt = require_type cv vt >> checked (is_list_of is_float) cv.value

  unfoldable pub bool_value : CommandValue F → Result (Value F)
  unfolding require_type checked
  bool_value cv = require_type cv ValueType.bool >> checked is_bool cv.value

  unfoldable pub string_value : CommandValue F → Result (Value F)
  unfolding require_type checked
  string_value cv = require_type cv ValueType.string >> checked is_str cv.value

  unfoldable pub bool_array_value : CommandValue F → Result (Value F)
  unfolding require_type checked is_list_of
  bool_array_value cv =
      require_type cv ValueType.bool_array >> checked (is_list_of is_bool) cv.value

  unfoldable pub string_array_value : CommandValue F → Result (Value F)
  unfolding require_type checked is_list_of
  string_array_value cv =
      require_type cv ValueType.string_array >> checked (is_list_of is_str) cv.value

  -- A null value is returned before the type is looked at.
  unfoldable pub binary_value : CommandValue F → Result (Value F)
  unfolding require_type checked
  binary_value cv =
      if is_null cv.value
      then ok Value.null
      else require_type cv ValueType.binary >> checked is_bytes cv.value

  unfoldable pub object_value : CommandValue F → Result (Value F)
  unfolding require_type
  object_value cv = require_type cv ValueType.object >> ok cv.value

  unfoldable pub object_array_value : CommandValue F → Result (Value F)
  unfolding require_type checked is_list_of
  object_array_value cv =
      require_type cv ValueType.object_array >> checked (is_list_of is_dict) cv.value

  -- The getter of each value type, `int8_value` to `float64_array_value` by the four above.
  unfoldable pub typed_value : ValueType → CommandValue F → Result (Value F)
  unfolding int_value float_value int_array_value float_array_value bool_value string_value
      bool_array_value string_array_value binary_value object_value object_array_value
  typed_value ValueType.bool cv = bool_value cv
  typed_value ValueType.string cv = string_value cv
  typed_value ValueType.uint8 cv = int_value cv ValueType.uint8
  typed_value ValueType.uint16 cv = int_value cv ValueType.uint16
  typed_value ValueType.uint32 cv = int_value cv ValueType.uint32
  typed_value ValueType.uint64 cv = int_value cv ValueType.uint64
  typed_value ValueType.int8 cv = int_value cv ValueType.int8
  typed_value ValueType.int16 cv = int_value cv ValueType.int16
  typed_value ValueType.int32 cv = int_value cv ValueType.int32
  typed_value ValueType.int64 cv = int_value cv ValueType.int64
  typed_value ValueType.float32 cv = float_value cv ValueType.float32
  typed_value ValueType.float64 cv = float_value cv ValueType.float64
  typed_value ValueType.binary cv = binary_value cv
  typed_value ValueType.bool_array cv = bool_array_value cv
  typed_value ValueType.string_array cv = string_array_value cv
  typed_value ValueType.uint8_array cv = int_array_value cv ValueType.uint8_array
  typed_value ValueType.uint16_array cv = int_array_value cv ValueType.uint16_array
  typed_value ValueType.uint32_array cv = int_array_value cv ValueType.uint32_array
  typed_value ValueType.uint64_array cv = int_array_value cv ValueType.uint64_array
  typed_value ValueType.int8_array cv = int_array_value cv ValueType.int8_array
  typed_value ValueType.int16_array cv = int_array_value cv ValueType.int16_array
  typed_value ValueType.int32_array cv = int_array_value cv ValueType.int32_array
  typed_value ValueType.int64_array cv = int_array_value cv ValueType.int64_array
  typed_value ValueType.float32_array cv = float_array_value cv ValueType.float32_array
  typed_value ValueType.float64_array cv = float_array_value cv ValueType.float64_array
  typed_value ValueType.object cv = object_value cv
  typed_value ValueType.object_array cv = object_array_value cv
  typed_value (ValueType.unrecognized name) cv = raise value_type_error
