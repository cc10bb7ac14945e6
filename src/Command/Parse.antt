-- ===== src/Command/Parse.antt =====
-- The coercion of a write value: `create_command_value_from_device_resource` and its helpers.
-- Python's own functions on texts, `json`, `base64` and `struct` are a parameter.
pub mod InRange
use device_sdk_python.Base.{
  ℕ, ◌-◌, ◌^◌, Bool, true, false, not, ◌&&◌, ◌||◌, String, Option, none, some, List, [], ◌∷◌, ◌==◌,
  if◌then◌else◌, any, map,
}
use device_sdk_python.Base.Int.{ℤ, pos, neg_ℤ, ltb_ℤ, leb_ℤ}
use device_sdk_python.Raise.{
  Result, Exn, ok, raise, edgex_error, EdgexErrorKind, value_type_error, value_error, type_error,
  ◌>>=◌, ◌>>◌,
}
use device_sdk_python.Floats.{Floats}
use device_sdk_python.Model.ValueType.{ValueType}
use device_sdk_python.Model.Value.{Value, Values, Fields, is_null, is_list_of, is_dict, is_str}
use device_sdk_python.Model.Metadata.{DeviceResource}
use device_sdk_python.Model.CommandValue.{CommandValue, create_command_value}

pub record Codecs (F : Type 0) : Type 0 where
  -- json.loads(text), int(text, 10), base64.b64decode(text): a `ValueError` when they fail
  pub json_loads : String → Result (Value F)
  pub int_of : String → Result ℤ
  pub b64decode : String → Result (List ℕ)
  -- struct.unpack(">f" or ">d", data[:width])[0]; none for `struct.error`
  pub unpack_float32 : List ℕ → Option F
  pub unpack_float64 : List ℕ → Option F
  -- text.strip() == "", and text.strip("[]").split(",") with strip(" ") of each item
  pub is_blank : String → Bool
  pub comma_items : String → List String
  -- the characters of a text
  pub characters : String → List String

abbrev pub server_error : Exn
server_error = edgex_error EdgexErrorKind.server_error

module _ {F : Type 0} where
  pub list_of : List (Value F) → Values F
  list_of [] = Values.nil
  list_of (v ∷ vs) = Values.cons v (list_of vs)

  -- for item in arr, for a list
  pub items_of : Values F → List (Value F)
  items_of Values.nil = []
  items_of (Values.cons v vs) = v ∷ items_of vs

  keys_of : Fields F → List (Value F)
  keys_of Fields.end = []
  keys_of (Fields.field key v more) = Value.str key ∷ keys_of more

-- `except (TypeError, ValueError)`, raised again as `_conversion_error`
pub or_conversion_error : {A : Type 0} → Result A → Result A
or_conversion_error (ok a) = ok a
or_conversion_error (raise Exn.value_error) = raise server_error
or_conversion_error (raise Exn.type_error) = raise server_error
or_conversion_error (raise e) = raise e

pub unless : {A : Type 0} → Bool → Result A → Result A
unless test next = if test then raise server_error else next

unfoldable pub parse_bool : String → Result Bool
parse_bool v =
    if any (λ s. v == s) ("1" ∷ "t" ∷ "T" ∷ "TRUE" ∷ "true" ∷ "True" ∷ [])
    then ok true
    else if any (λ s. v == s) ("0" ∷ "f" ∷ "F" ∷ "FALSE" ∷ "false" ∷ "False" ∷ [])
    then ok false
    else raise server_error

module _ (fl : Floats) (codecs : Codecs fl.Float) where
  open fl use {Float, to_float32}

  json_array : String → Result (Value Float)
  unfolding or_conversion_error
  json_array v = or_conversion_error (codecs.json_loads v)

  unfoldable pub parse_uint : String → ℕ → Result ℤ
  unfolding or_conversion_error unless
  parse_uint v bits = do
    number ← or_conversion_error (codecs.int_of v)
    unless (ltb_ℤ number (pos 0) || ltb_ℤ (pos (2 ^ bits - 1)) number) (ok number)

  unfoldable pub parse_int : String → ℕ → Result ℤ
  unfolding or_conversion_error unless neg_ℤ
  parse_int v bits = do
    number ← or_conversion_error (codecs.int_of v)
    unless (ltb_ℤ number (neg_ℤ (pos (2 ^ (bits - 1)))) || ltb_ℤ (pos (2 ^ (bits - 1) - 1)) number)
        (ok number)

  -- the loop of `_parse_uint_array`
  parse_uints : List String → ℕ → Result (List (Value Float))
  unfolding parse_uint
  parse_uints [] bits = ok []
  parse_uints (item ∷ items) bits = do
    number ← parse_uint item bits
    rest ← parse_uints items bits
    ok (Value.int number ∷ rest)

  unfoldable pub parse_uint_array : String → ℕ → Result (Value Float)
  unfolding parse_uints list_of
  parse_uint_array v bits = do
    result ← parse_uints (codecs.comma_items v) bits
    ok (Value.list (list_of result))

  -- one round of the loop of `_parse_int_array`
  signed_item : ℕ → Value Float → Result (Value Float)
  unfolding unless neg_ℤ
  signed_item bits (Value.int item) =
      unless
        (not (leb_ℤ (neg_ℤ (pos (2 ^ (bits - 1)))) item && leb_ℤ item (pos (2 ^ (bits - 1) - 1))))
        (ok (Value.int item))
  signed_item bits _ = raise server_error

  signed_items : ℕ → Values Float → Result (Values Float)
  unfolding signed_item
  signed_items bits Values.nil = ok Values.nil
  signed_items bits (Values.cons v vs) = do
    item ← signed_item bits v
    rest ← signed_items bits vs
    ok (Values.cons item rest)

  signed_list : ℕ → Value Float → Result (Value Float)
  unfolding signed_items
  signed_list bits (Value.list vs) = do result ← signed_items bits vs; ok (Value.list result)
  signed_list bits _ = raise server_error

  unfoldable pub parse_int_array : String → ℕ → Result (Value Float)
  unfolding json_array signed_list
  parse_int_array v bits = do arr ← json_array v; signed_list bits arr

  -- `_float_from_bytes`, of what `struct.unpack` gave
  float_from_bytes : Option Float → Result Float
  unfolding unless
  float_from_bytes none = raise server_error
  float_from_bytes (some value) = unless (fl.isnan value) (ok value)

  -- The `try` of `_parse_float32` and `_parse_float64`: a `ValueError` sends to the bytes.
  float_or : Result Float → Result Float → (Float → Result Float) → Result Float
  unfolding unless
  float_or (ok value) from_bytes rounded = unless (fl.isinf value) (rounded value)
  float_or (raise Exn.value_error) from_bytes rounded = from_bytes
  float_or (raise e) from_bytes rounded = raise e

  unfoldable pub parse_float32 : String → Result Float
  unfolding float_or float_from_bytes
  parse_float32 v =
      float_or (fl.parse v)
        (do bytes ← codecs.b64decode v; float_from_bytes (codecs.unpack_float32 bytes)) to_float32

  unfoldable pub parse_float64 : String → Result Float
  unfolding float_or float_from_bytes
  parse_float64 v =
      float_or (fl.parse v)
        (do bytes ← codecs.b64decode v; float_from_bytes (codecs.unpack_float64 bytes)) (λ x. ok x)

  -- float(item)
  float_of_item : Value Float → Result Float
  float_of_item (Value.int i) = fl.of_int i
  float_of_item (Value.float x) = ok x
  float_of_item (Value.str s) = fl.parse s
  float_of_item (Value.bool true) = fl.of_int (pos 1)
  float_of_item (Value.bool false) = fl.of_int (pos 0)
  float_of_item _ = raise type_error

  -- iter(arr), which raises for a value that is no sequence
  iterate : Value Float → Result (List (Value Float))
  unfolding items_of keys_of
  iterate (Value.list vs) = ok (items_of vs)
  iterate (Value.dict fields) = ok (keys_of fields)
  iterate (Value.str s) = ok (map Value.str (codecs.characters s))
  iterate _ = raise type_error

  float32_items : List (Value Float) → Result (List (Value Float))
  unfolding float_of_item
  float32_items [] = ok []
  float32_items (item ∷ items) = do
    x ← float_of_item item
    rounded ← to_float32 x
    rest ← float32_items items
    ok (Value.float rounded ∷ rest)

  float32_array : String → Result (Value Float)
  unfolding json_array iterate float32_items list_of
  float32_array v = do
    arr ← json_array v
    items ← iterate arr
    result ← float32_items items
    ok (Value.list (list_of result))

  -- `_normalize_to_object`; the value is a `str`, or is passed on when it is a `dict`
  unfoldable pub normalize_to_object : Value Float → Result (Value Float)
  unfolding or_conversion_error unless
  normalize_to_object Value.null = ok Value.null
  normalize_to_object (Value.str s) = do
    obj ← or_conversion_error (codecs.json_loads s)
    unless (not (is_dict obj)) (ok obj)
  normalize_to_object (Value.dict fields) = ok (Value.dict fields)
  normalize_to_object _ = raise server_error

  unfoldable pub normalize_to_object_array : Value Float → Result (Value Float)
  unfolding or_conversion_error unless is_list_of
  normalize_to_object_array Value.null = ok Value.null
  normalize_to_object_array (Value.str s) = do
    obj ← or_conversion_error (codecs.json_loads s)
    unless (not (is_list_of is_dict obj)) (ok obj)
  normalize_to_object_array (Value.list vs) =
      unless (not (is_list_of is_dict (Value.list vs))) (ok (Value.list vs))
  normalize_to_object_array _ = raise server_error

  -- What each branch of `create_command_value_from_device_resource` hands to `create_command_value`.
  unfoldable pub convert : ValueType → Value Float → String → Result (Value Float)
  unfolding json_array parse_bool parse_uint parse_uint_array parse_int parse_int_array
      parse_float32 parse_float64 float32_array normalize_to_object normalize_to_object_array
  convert ValueType.string value v = ok (Value.str v)
  convert ValueType.string_array value v = json_array v
  convert ValueType.bool value v = do b ← parse_bool v; ok (Value.bool b)
  convert ValueType.bool_array value v = json_array v
  convert ValueType.uint8 value v = do n ← parse_uint v 8; ok (Value.int n)
  convert ValueType.uint8_array value v = parse_uint_array v 8
  convert ValueType.uint16 value v = do n ← parse_uint v 16; ok (Value.int n)
  convert ValueType.uint16_array value v = parse_uint_array v 16
  convert ValueType.uint32 value v = do n ← parse_uint v 32; ok (Value.int n)
  convert ValueType.uint32_array value v = parse_uint_array v 32
  convert ValueType.uint64 value v = do n ← parse_uint v 64; ok (Value.int n)
  convert ValueType.uint64_array value v = parse_uint_array v 64
  convert ValueType.int8 value v = do n ← parse_int v 8; ok (Value.int n)
  convert ValueType.int8_array value v = parse_int_array v 8
  convert ValueType.int16 value v = do n ← parse_int v 16; ok (Value.int n)
  convert ValueType.int16_array value v = parse_int_array v 16
  convert ValueType.int32 value v = do n ← parse_int v 32; ok (Value.int n)
  convert ValueType.int32_array value v = parse_int_array v 32
  convert ValueType.int64 value v = do n ← parse_int v 64; ok (Value.int n)
  convert ValueType.int64_array value v = parse_int_array v 64
  convert ValueType.float32 value v = do x ← parse_float32 v; ok (Value.float x)
  convert ValueType.float32_array value v = float32_array v
  convert ValueType.float64 value v = do x ← parse_float64 v; ok (Value.float x)
  convert ValueType.float64_array value v = json_array v
  convert ValueType.object value v = normalize_to_object value
  convert ValueType.object_array value v = normalize_to_object_array value
  convert _ value v = raise server_error

  is_string : ValueType → Bool
  is_string ValueType.string = true
  is_string _ = false

  unfoldable pub create_command_value_from_device_resource :
      DeviceResource Float → Value Float → Result (CommandValue Float)
  unfolding is_string convert create_command_value
  create_command_value_from_device_resource dr value =
      if is_null value
      then ok (record {
        device_resource_name = dr.name;
        value_type = dr.properties.value_type;
        value = Value.null;
        origin = pos 0;
        tags = [];
      })
      else (let v = fl.str value in
          if not (is_string dr.properties.value_type) && codecs.is_blank v
          then raise (edgex_error EdgexErrorKind.contract_invalid)
          else (do
            converted ← convert dr.properties.value_type value v
            create_command_value dr.name dr.properties.value_type converted))
