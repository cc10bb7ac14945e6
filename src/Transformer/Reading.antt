-- ===== src/Transformer/Reading.antt =====
-- Readings: `Reading`, `_format_float32`, `_reading_value_string` and `command_value_to_reading` of
-- internal/transformer/transform.py.
use device_sdk_python.Base.{ℕ, String, Option, none, some, List, [], ◌∷◌, if◌then◌else◌}
use device_sdk_python.Base.Int.{ℤ, pos, eq_ℤ}
use device_sdk_python.Base.Dict.{Dict}
use device_sdk_python.Raise.{Result, ok, ◌>>=◌}
use device_sdk_python.Floats.{Floats}
use device_sdk_python.Model.ValueType.{ValueType}
use device_sdk_python.Model.Value.{Value, is_null}
use device_sdk_python.Model.CommandValue.{CommandValue, binary_value}
use device_sdk_python.Transformer.Numbers.{as_number, float_of}
use device_sdk_python.Transformer.ReadResult.{value_to_string}

pub record Reading (F : Type 0) : Type 0 where
  pub resource_name : String
  pub value_type : ValueType
  pub origin : ℤ
  pub device_name : String
  pub profile_name : String
  pub reading_id : String
  pub value : Option String
  pub units : String
  pub binary_value : Value F
  pub object_value : Value F
  pub tags : Dict (Value F)
  pub media_type : String

module _ (fl : Floats) where
  open fl use {Float, to_float32}

  -- `_format_float32`, the loop over the precisions 1 to 9
  shortest : Float → List ℕ → Result String
  shortest rounded [] = ok (fl.repr rounded)
  shortest rounded (precision ∷ more) = do
    let candidate = fl.format_g precision rounded
    parsed ← fl.parse candidate
    back ← to_float32 parsed
    let rest = shortest rounded more
    if fl.eq back rounded then ok candidate else rest

  unfoldable pub format_float32 : Float → Result String
  unfolding shortest
  format_float32 value = do
    rounded ← to_float32 value
    shortest rounded (1 ∷ 2 ∷ 3 ∷ 4 ∷ 5 ∷ 6 ∷ 7 ∷ 8 ∷ 9 ∷ [])

  unfoldable pub reading_value_string : CommandValue Float → ValueType → Result String
  unfolding format_float32 as_number value_to_string
  reading_value_string cv ValueType.float32 = do
    n ← as_number cv.value
    x ← float_of fl n
    format_float32 x
  reading_value_string cv _ = value_to_string fl cv

  -- The reading's kind goes by the value type; `blank` has what all of them share.
  unfoldable pub reading_of :
      CommandValue Float → ValueType → String → Reading Float → Result (Reading Float)
  unfolding reading_value_string binary_value
  reading_of cv ValueType.binary media_type blank = do
    bytes ← binary_value cv
    ok (record blank { binary_value = bytes; media_type = media_type })
  reading_of cv ValueType.object media_type blank = ok (record blank { object_value = cv.value })
  reading_of cv ValueType.object_array media_type blank =
      ok (record blank { object_value = cv.value })
  reading_of cv vt media_type blank = do
    text ← reading_value_string cv vt
    ok (record blank { value = some text })

  unfoldable pub command_value_to_reading :
      CommandValue Float → String → String → String → ℤ → String → Result (Reading Float)
  unfolding reading_of
  command_value_to_reading cv device_name profile_name media_type event_origin id =
      let blank : Reading Float = record {
        resource_name = cv.device_resource_name;
        value_type = cv.value_type;
        origin = if eq_ℤ cv.origin (pos 0) then event_origin else cv.origin;
        device_name = device_name;
        profile_name = profile_name;
        reading_id = id;
        value = none;
        units = "";
        binary_value = Value.null;
        object_value = Value.null;
        tags = [];
        media_type = "";
      } in
      if is_null cv.value then ok blank else reading_of cv cv.value_type media_type blank
