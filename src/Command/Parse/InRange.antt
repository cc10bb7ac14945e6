-- ===== src/Command/Parse/InRange.antt =====
-- What the coercion of a write value guarantees: the names are the resource's, and an integer is one
-- of the resource's type.
use device_sdk_python.Base.{ℕ, ◌≡◌, refl, ◌-◌, ◌^◌, Bool, true, false, not, ◌&&◌, String, arith}
use device_sdk_python.Base.Int.{ℤ, pos, neg_ℤ, ◌≤ℤ◌}
use device_sdk_python.Raise.{
  Result, ok, Returns, Returns-ok, Returns-raise, Returns-if, Returns-bind,
}
use device_sdk_python.Floats.{Floats}
use device_sdk_python.Model.ValueType.{ValueType, is_integer}
use device_sdk_python.Model.Value.{Value, is_null}
use device_sdk_python.Model.Metadata.{DeviceResource}
use device_sdk_python.Model.CommandValue.{CommandValue, create_command_value, validate}
use device_sdk_python.Transformer.Words.Bounds.{Fits}
use device_sdk_python.Transformer.StepRanges.{HoldsInteger}
use device_sdk_python.Command.Parse
use device_sdk_python.Command.Parse.{
  Codecs, parse_uint, parse_int, convert, create_command_value_from_device_resource,
}

unless-Returns :
    {A : Type 0} {P : A → Type 0} (test : Bool) (next : Result A)
    → (test ≡ false → Returns P next)
    → Returns P (Parse.unless test next)
unfolding Parse.unless
unless-Returns test next h = Returns-if test (λ _. Returns-raise _) h

module _ (fl : Floats) where
  open fl use {Float}

  -- A value that is of an integer type, and not null, is an integer of the type.
  abbrev pub IsSound : CommandValue Float → Type 0
  IsSound cv = is_integer cv.value_type ≡ true → is_null cv.value ≡ false → HoldsInteger fl cv

  -- The `CommandValue` is for the resource, and sound.
  abbrev pub WritesTo : DeviceResource Float → CommandValue Float → Type 0
  WritesTo dr cv =
      (cv.device_resource_name ≡ dr.name) × (cv.value_type ≡ dr.properties.value_type) × IsSound cv

module _ (fl : Floats) (codecs : Codecs fl.Float) where
  open fl use {Float}

  -- `_parse_uint` accepts the numbers of the width, and no other.
  parse_uint-Returns :
      (v : String) (bits : ℕ)
      → Returns (λ n. (pos 0 ≤ℤ n) × (n ≤ℤ pos (2 ^ bits - 1))) (parse_uint fl codecs v bits)
  unfolding parse_uint
  parse_uint-Returns v bits =
      Returns-bind (Parse.or_conversion_error (codecs.int_of v)) _
        (λ n _. unless-Returns _ (ok n) (λ h. Returns-ok (ground arith)))

  -- `_parse_int` accepts the numbers of the width, and no other.
  parse_int-Returns :
      (v : String) (bits : ℕ)
      → Returns
          (λ n. (neg_ℤ (pos (2 ^ (bits - 1))) ≤ℤ n) × (n ≤ℤ pos (2 ^ (bits - 1) - 1)))
          (parse_int fl codecs v bits)
  unfolding parse_int
  parse_int-Returns v bits =
      Returns-bind (Parse.or_conversion_error (codecs.int_of v)) _
        (λ n _. unless-Returns _ (ok n) (λ h. Returns-ok (ground arith)))

  -- The value is an integer of the type.
  abbrev IntegerOf : ValueType → Value Float → Type 0
  IntegerOf vt w = (i : ℤ) × (w ≡ Value.int i) × Fits vt i

  convert-IntegerOf :
      (vt : ValueType) (value : Value Float) (v : String)
      → is_integer vt ≡ true
      → Returns (IntegerOf vt) (convert fl codecs vt value v)
  unfolding convert is_integer neg_ℤ
  convert-IntegerOf ValueType.uint8 value v h =
      Returns-bind (parse_uint fl codecs v 8) _
        (λ n e. Returns-ok (n, refl, (parse_uint-Returns v 8).at n e))
  convert-IntegerOf ValueType.uint16 value v h =
      Returns-bind (parse_uint fl codecs v 16) _
        (λ n e. Returns-ok (n, refl, (parse_uint-Returns v 16).at n e))
  convert-IntegerOf ValueType.uint32 value v h =
      Returns-bind (parse_uint fl codecs v 32) _
        (λ n e. Returns-ok (n, refl, (parse_uint-Returns v 32).at n e))
  convert-IntegerOf ValueType.uint64 value v h =
      Returns-bind (parse_uint fl codecs v 64) _
        (λ n e. Returns-ok (n, refl, (parse_uint-Returns v 64).at n e))
  convert-IntegerOf ValueType.int8 value v h =
      Returns-bind (parse_int fl codecs v 8) _
        (λ n e. Returns-ok (n, refl, (parse_int-Returns v 8).at n e))
  convert-IntegerOf ValueType.int16 value v h =
      Returns-bind (parse_int fl codecs v 16) _
        (λ n e. Returns-ok (n, refl, (parse_int-Returns v 16).at n e))
  convert-IntegerOf ValueType.int32 value v h =
      Returns-bind (parse_int fl codecs v 32) _
        (λ n e. Returns-ok (n, refl, (parse_int-Returns v 32).at n e))
  convert-IntegerOf ValueType.int64 value v h =
      Returns-bind (parse_int fl codecs v 64) _
        (λ n e. Returns-ok (n, refl, (parse_int-Returns v 64).at n e))
  convert-IntegerOf vt value v h = cc

  create-Returns :
      (dr : DeviceResource Float) (w : Value Float)
      → (is_integer dr.properties.value_type ≡ true → IntegerOf dr.properties.value_type w)
      → Returns (WritesTo fl dr) (create_command_value dr.name dr.properties.value_type w)
  unfolding create_command_value
  create-Returns dr w h = Returns-bind (validate dr.properties.value_type w) _ (λ _ _. Returns-ok (
    refl,
    refl,
    λ integer _.
        let (i, is, fits) = h integer in
        record { integer = integer; held = i; value = is; fits = fits },
  ))

  -- Whatever a request asks to write, the `CommandValue` that is made of it for a resource has the
  -- name and the value type of the resource; and if the type is an integer type and the value is not
  -- null, it is an integer in the range of the type.
  pub create-WritesTo :
      (dr : DeviceResource Float) (value : Value Float)
      → Returns (WritesTo fl dr) (create_command_value_from_device_resource fl codecs dr value)
  unfolding create_command_value_from_device_resource
  create-WritesTo dr value =
      Returns-if (is_null value) (λ null. Returns-ok (refl, refl, λ _ there. cc))
        (λ _.
          Returns-if
            (not (Parse.is_string fl codecs dr.properties.value_type)
              && codecs.is_blank (fl.str value))
            (λ _. Returns-raise _)
            (λ _.
              Returns-bind (convert fl codecs dr.properties.value_type value (fl.str value)) _
                (λ w e. create-Returns dr w (λ integer.
                  (convert-IntegerOf dr.properties.value_type value (fl.str value) integer).at w
                    e))))
