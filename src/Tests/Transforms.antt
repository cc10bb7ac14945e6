-- ===== src/Tests/Transforms.antt =====
-- The theorems on integers of a width, the transformations and the events, at the small service.
use device_sdk_python.Base.{suc, ◌^◌, ◌≡◌, refl, true, none, some, [], ◌∷◌, arith}
use device_sdk_python.Base.Int.{ℤ, pos, negsuc, ◌+ℤ◌, ◌-ℤ◌, ◌≤ℤ◌, floor_div}
use device_sdk_python.Base.Dict
use device_sdk_python.Raise.{ok}
use device_sdk_python.Model.ValueType.{ValueType, is_integer}
use device_sdk_python.Model.Value.{Value}
use device_sdk_python.Model.CommandValue.{CommandValue}
use device_sdk_python.Model.Metadata.{Device}
use device_sdk_python.Cache.Devices
use device_sdk_python.Cache.Devices.{DeviceCache}
use device_sdk_python.Cache.Profiles
use device_sdk_python.Cache.Profiles.{DeviceProfileCache}
use device_sdk_python.Transformer.Words.{truncate_int, transform_mask, transform_shift}
use device_sdk_python.Transformer.Words.Bounds.{
  Fits, truncate_int-Fits, transform_mask-Fits, transform_shift-Fits,
}
use device_sdk_python.Transformer.Words.Wrap.{
  wrap, truncate_int-wrap, truncate-sub-add, transform_shift_right,
}
use device_sdk_python.Transformer.StepRanges.{HoldsInteger}
use device_sdk_python.Transformer.ReadResult.{transform_read_result, check_assertion}
use device_sdk_python.Transformer.ReadResult.InRange.{transform_read_result-HoldsInteger}
use device_sdk_python.Transformer.WriteParameter.{transform_write_parameter}
use device_sdk_python.Transformer.WriteParameter.InRange.{transform_write_parameter-HoldsInteger}
use device_sdk_python.Transformer.Origin.{origins, IsIncreasing, origins-IsIncreasing}
use device_sdk_python.Transformer.Event.{Event, command_values_to_event}
use device_sdk_python.Transformer.Reading.{}
use device_sdk_python.Transformer.Event.Readings.{
  present, IsEventFor, command_values_to_event-readings,
}
use device_sdk_python.Tests.{whole, pump, level, pumps, seven}

truncate_int-Fits_example :
    (r : ℤ) × (truncate_int (pos 300) ValueType.int8 ≡ ok r) × Fits ValueType.int8 r
unfolding is_integer
truncate_int-Fits_example = truncate_int-Fits (pos 300) ValueType.int8 refl

transform_mask-Fits_example :
    (r : ℤ) × (transform_mask (pos 300) (negsuc 3) ValueType.int8 ≡ ok r) × Fits ValueType.int8 r
unfolding is_integer
transform_mask-Fits_example = transform_mask-Fits (pos 300) (negsuc 3) ValueType.int8 refl

transform_shift-Fits_example :
    (r : ℤ) × (transform_shift (pos 200) (negsuc 2) ValueType.uint8 ≡ ok r) × Fits ValueType.uint8 r
unfolding is_integer
transform_shift-Fits_example = transform_shift-Fits (pos 200) (negsuc 2) ValueType.uint8 refl

truncate_int-wrap_example :
    truncate_int (pos 300) ValueType.uint8 ≡ ok (wrap ValueType.uint8 (pos 300))
unfolding is_integer
truncate_int-wrap_example = truncate_int-wrap (pos 300) ValueType.uint8 refl

-- 5 - 9 is 252 of a byte, and 252 + 9 is 5 again.
truncate-sub-add_example : pos 5 ≡ pos 5
unfolding is_integer truncate_int ◌+ℤ◌ ◌-ℤ◌
truncate-sub-add_example =
    truncate-sub-add (pos 5) (pos 9) ValueType.uint8 {r = pos 252} {s = pos 5} refl
      (omega arith, omega arith) refl refl

transform_shift_right_example :
    transform_shift (negsuc 4) (pos (suc 1)) ValueType.int8 ≡ ok (floor_div (negsuc 4) (2 ^ suc 1))
unfolding is_integer
transform_shift_right_example =
    transform_shift_right (negsuc 4) 1 ValueType.int8 refl (omega arith, omega arith)

origins-IsIncreasing_example : IsIncreasing (pos 5) (origins (pos 5) (pos 3 ∷ pos 5 ∷ pos 9 ∷ []))
origins-IsIncreasing_example = origins-IsIncreasing (pos 5) (pos 3 ∷ pos 5 ∷ pos 9 ∷ [])

abbrev held : HoldsInteger whole seven
unfolding is_integer
held = record { integer = refl; held = pos 7; value = refl; fits = (omega arith, omega arith) }

-- 7 read with an offset of 2
abbrev nine : CommandValue ℤ
nine = record seven { value = Value.int (pos 9) }

abbrev five : CommandValue ℤ
five = record seven { value = Value.int (pos 5) }

transform_read_result-HoldsInteger_example :
    HoldsInteger whole nine
    × (nine.value_type ≡ ValueType.uint8)
    × (nine.device_resource_name ≡ "level")
unfolding transform_read_result ◌+ℤ◌
transform_read_result-HoldsInteger_example =
    transform_read_result-HoldsInteger whole seven level.properties {cv' = nine} held refl

transform_write_parameter-HoldsInteger_example :
    HoldsInteger whole five
    × (five.value_type ≡ ValueType.uint8)
    × ((m : ℤ) (b : ℤ) → some (pos 100) ≡ some m → whole.to_int m ≡ ok b → pos 7 ≤ℤ b)
    × ((m : ℤ) (b : ℤ) → none ≡ some m → whole.to_int m ≡ ok b → b ≤ℤ pos 7)
unfolding transform_write_parameter ◌-ℤ◌
transform_write_parameter-HoldsInteger_example =
    transform_write_parameter-HoldsInteger whole seven level.properties {cv' = five} held refl

abbrev devices : DeviceCache ℤ
devices = Devices.init (pump ∷ [])

abbrev profiles : DeviceProfileCache ℤ
profiles = Profiles.init (pumps ∷ [])

abbrev event : Event ℤ
event = record {
  event_id = "id";
  device_name = "pump";
  profile_name = "pumps";
  source_name = "level";
  origin = pos 1000;
  readings =
      record {
        resource_name = "level";
        value_type = ValueType.uint8;
        origin = pos 1000;
        device_name = "pump";
        profile_name = "pumps";
        reading_id = "id";
        value = some "7";
        units = "cm";
        binary_value = Value.null;
        object_value = Value.null;
        tags = [];
        media_type = "";
      }
      ∷ [];
  tags = [];
}

command_values_to_event-readings_example :
    (device : Device ℤ) × (Devices.for_name devices "pump" ≡ some device)
    × (devices ≡ devices)
    × IsEventFor whole
        (λ k. "id")
        "level"
        (pos 1000)
        (present (none ∷ some seven ∷ []))
        device
        event
unfolding command_values_to_event Profiles.init Devices.init Devices.for_name Dict.get Dict.put
    Profiles.device_resource Profiles.device_resource_slice_to_map transform_read_result
    check_assertion Profiles.resource_operation Dict.has Dict.values
    Profiles.device_command_slice_to_map
command_values_to_event-readings_example =
    command_values_to_event-readings whole (λ k. "id") profiles devices (none ∷ some seven ∷ [])
      "pump" "level" true true (pos 1000) event devices refl
