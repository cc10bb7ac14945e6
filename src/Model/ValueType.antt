-- ===== src/Model/ValueType.antt =====
-- The value types of models/command_value.py. A profile may name any text as a value type:
-- `unrecognized` holds a text that is none of the constants.
use device_sdk_python.Base.{Bool, true, false, String}

pub data ValueType : Type 0 where
  bool string uint8 uint16 uint32 uint64 int8 int16 int32 int64 float32 float64 : ValueType
  binary bool_array string_array uint8_array uint16_array uint32_array uint64_array : ValueType
  int8_array int16_array int32_array int64_array float32_array float64_array : ValueType
  object object_array : ValueType
  unrecognized : String → ValueType

-- `_INTEGER_VALUE_TYPES` of transformvaluechecker.py
unfoldable pub is_integer : ValueType → Bool
is_integer ValueType.uint8 = true
is_integer ValueType.uint16 = true
is_integer ValueType.uint32 = true
is_integer ValueType.uint64 = true
is_integer ValueType.int8 = true
is_integer ValueType.int16 = true
is_integer ValueType.int32 = true
is_integer ValueType.int64 = true
is_integer _ = false

-- `_NUMERIC_VALUE_TYPES` of transformresult.py and of executor.py
unfoldable pub is_numeric : ValueType → Bool
is_numeric ValueType.uint8 = true
is_numeric ValueType.uint16 = true
is_numeric ValueType.uint32 = true
is_numeric ValueType.uint64 = true
is_numeric ValueType.int8 = true
is_numeric ValueType.int16 = true
is_numeric ValueType.int32 = true
is_numeric ValueType.int64 = true
is_numeric ValueType.float32 = true
is_numeric ValueType.float64 = true
is_numeric _ = false

-- `_SIGNED_VALUE_TYPES` of transformresult.py
unfoldable pub is_signed : ValueType → Bool
is_signed ValueType.int8 = true
is_signed ValueType.int16 = true
is_signed ValueType.int32 = true
is_signed ValueType.int64 = true
is_signed _ = false

unfoldable pub is_binary : ValueType → Bool
is_binary ValueType.binary = true
is_binary _ = false

-- the constants `VALUETYPE_*`
unfoldable pub text : ValueType → String
text ValueType.bool = "Bool"
text ValueType.string = "String"
text ValueType.uint8 = "Uint8"
text ValueType.uint16 = "Uint16"
text ValueType.uint32 = "Uint32"
text ValueType.uint64 = "Uint64"
text ValueType.int8 = "Int8"
text ValueType.int16 = "Int16"
text ValueType.int32 = "Int32"
text ValueType.int64 = "Int64"
text ValueType.float32 = "Float32"
text ValueType.float64 = "Float64"
text ValueType.binary = "Binary"
text ValueType.bool_array = "BoolArray"
text ValueType.string_array = "StringArray"
text ValueType.uint8_array = "Uint8Array"
text ValueType.uint16_array = "Uint16Array"
text ValueType.uint32_array = "Uint32Array"
text ValueType.uint64_array = "Uint64Array"
text ValueType.int8_array = "Int8Array"
text ValueType.int16_array = "Int16Array"
text ValueType.int32_array = "Int32Array"
text ValueType.int64_array = "Int64Array"
text ValueType.float32_array = "Float32Array"
text ValueType.float64_array = "Float64Array"
text ValueType.object = "Object"
text ValueType.object_array = "ObjectArray"
text (ValueType.unrecognized s) = s
