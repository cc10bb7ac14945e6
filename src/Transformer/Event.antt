-- ===== src/Transformer/Event.antt =====
-- Events: `Event` and `command_values_to_event` of internal/transformer/transform.py. The k-th
-- `uuid.uuid4()` of a call is `uuid k`, and the clock of `get_unique_origin` is an argument. The device
-- cache is the state: a failed assertion writes to it.
pub mod Rounds
pub mod Readings
use device_sdk_python.Base.{
  ℕ, Bool, true, false, not, ◌&&◌, String, Option, none, some, List, [], ◌∷◌, ◌++◌, ◌==◌,
  if◌then◌else◌, length,
}
use device_sdk_python.Base.Int.{ℤ, pos, eq_ℤ}
use device_sdk_python.Base.Dict
use device_sdk_python.Base.Dict.{Dict}
use device_sdk_python.Raise.{Result, Exn, ok, raise, transformer_error, ◌>>=◌, ◌>>◌}
use device_sdk_python.Floats.{Floats}
use device_sdk_python.Model.ValueType.{ValueType}
use device_sdk_python.Model.Value.{Value, is_null}
use device_sdk_python.Model.Metadata.{Device, DeviceResource, ResourceOperation}
use device_sdk_python.Model.CommandValue.{CommandValue, create_command_value, binary_value}
use device_sdk_python.Cache.Devices
use device_sdk_python.Cache.Devices.{DeviceCache}
use device_sdk_python.Cache.Profiles
use device_sdk_python.Cache.Profiles.{DeviceProfileCache}
use device_sdk_python.Transformer.Reading.{Reading, command_value_to_reading}
use device_sdk_python.Transformer.Numbers.{Number, as_number, float_of}
use device_sdk_python.Transformer.ReadResult.{
  transform_read_result, check_assertion, map_command_value, value_to_string,
}

pub record Event (F : Type 0) : Type 0 where
  pub event_id : String
  pub device_name : String
  pub profile_name : String
  pub source_name : String
  pub origin : ℤ
  pub readings : List (Reading F)
  pub tags : Dict (Value F)

-- What the loop of `command_values_to_event` has gathered.
pub record Gathered (F : Type 0) : Type 0 where
  pub transforms_ok : Bool
  pub tags : Dict (Value F)
  pub readings : List (Reading F)

-- for key, value in more.items(): tags[key] = value
unfoldable pub merge : {V : Type 0} → Dict V → Dict V → Dict V
merge tags [] = tags
merge tags ((key, value) ∷ more) = merge (Dict.put tags key value) more

module _ (fl : Floats) (uuid : ℕ → String) where
  open fl use {Float}

  -- the tags of a `CommandValue` are texts, those of an event any values
  text_values : Dict String → Dict (Value Float)
  text_values [] = []
  text_values ((key, value) ∷ more) = (key, Value.str value) ∷ text_values more

  -- The `except` clauses round `transform_read_result`: the value to go on with, and whether
  -- `transforms_ok` stays.
  transformed :
      CommandValue Float → Result (CommandValue Float) → Result (CommandValue Float × Bool)
  unfolding create_command_value
  transformed cv (ok cv') = ok (cv', true)
  transformed cv (raise Exn.overflow_transformer_error) = do
    text ← create_command_value cv.device_resource_name ValueType.string (Value.str "overflow")
    ok (text, true)
  transformed cv (raise Exn.nan_transformer_error) = do
    text ← create_command_value cv.device_resource_name ValueType.string (Value.str "NaN")
    ok (text, true)
  transformed cv (raise Exn.transformer_error) = ok (cv, false)
  transformed cv (raise Exn.write_parameter_error) = ok (cv, false)
  transformed cv (raise e) = raise e

  -- `if mapped_cv is not None: cv = mapped_cv`
  chosen : CommandValue Float → Option (CommandValue Float) → CommandValue Float
  chosen cv none = cv
  chosen cv (some mapped_cv) = mapped_cv

  -- `if len(ro.mappings) > 0`
  mapped_by : CommandValue Float → Dict String → Result (CommandValue Float)
  unfolding map_command_value chosen
  mapped_by cv [] = ok cv
  mapped_by cv (entry ∷ more) = do
    mapped_cv ← map_command_value fl cv (entry ∷ more)
    ok (chosen cv mapped_cv)

  -- The `except` clause round `resource_operation`, and the mapping of its `else`.
  operation_mapped :
      CommandValue Float → Result (ResourceOperation Float) → Result (CommandValue Float)
  unfolding mapped_by
  operation_mapped cv (ok ro) = mapped_by cv ro.mappings
  operation_mapped cv (raise (Exn.cache_error kind)) = ok cv
  operation_mapped cv (raise e) = raise e

  -- The rest of a round of the loop, after the assertion.
  pub gather :
      DeviceProfileCache Float
      → Device Float
      → Bool
      → ℤ
      → Gathered Float
      → DeviceResource Float
      → CommandValue Float × Bool
      → Result (Gathered Float)
  unfolding text_values merge operation_mapped command_value_to_reading
  gather profiles device reading_units origin g dr (cv, fine) = do
    let tags = merge g.tags (text_values cv.tags)
    cv' ←
        operation_mapped cv
          (Profiles.resource_operation profiles device.profile_name cv.device_resource_name)
    reading ←
        command_value_to_reading fl cv' device.name device.profile_name dr.properties.media_type
          origin (uuid (length g.readings))
    ok (record {
      transforms_ok = g.transforms_ok && fine;
      tags = tags;
      readings =
          g.readings
          ++ record reading { units = if reading_units then dr.properties.units else "" } ∷ [];
    })

  -- `if data_transform and cv.value is not None`
  pub outgoing :
      Bool → DeviceResource Float → CommandValue Float → Result (CommandValue Float × Bool)
  unfolding transformed
  outgoing data_transform dr cv =
      if data_transform && not (is_null cv.value)
      then transformed cv (transform_read_result fl cv dr.properties)
      else ok (cv, true)

  -- A failed assertion marks the device in the cache, and is raised again.
  pub asserted :
      {A : Type 0}
      → DeviceCache Float
      → Device Float
      → Result (Unit {0})
      → Result A
      → Result A × DeviceCache Float
  asserted devices device (ok _) next = (next, devices)
  asserted devices device (raise Exn.transformer_error) next =
      let (r, devices') = Devices.update_operating_state devices device.name "DISABLED" in
      ((do r; raise transformer_error), devices')
  asserted devices device (raise e) next = (raise e, devices)

  pub assert_then :
      DeviceProfileCache Float
      → DeviceCache Float
      → Device Float
      → Bool
      → ℤ
      → Gathered Float
      → DeviceResource Float
      → Result (CommandValue Float × Bool)
      → Result (Gathered Float) × DeviceCache Float
  unfolding asserted gather
  assert_then profiles devices device reading_units origin g dr (raise e) = (raise e, devices)
  assert_then profiles devices device reading_units origin g dr (ok (cv, fine)) =
      asserted devices device (check_assertion fl cv dr.properties.assertion)
        (gather profiles device reading_units origin g dr (cv, fine))

  -- One round of the loop: `found` is the resource that the profile declares for the value.
  pub round :
      DeviceProfileCache Float
      → DeviceCache Float
      → Device Float
      → Bool
      → Bool
      → ℤ
      → Gathered Float
      → CommandValue Float
      → Option (DeviceResource Float)
      → Result (Gathered Float) × DeviceCache Float
  unfolding outgoing assert_then
  round profiles devices device data_transform reading_units origin g cv none =
      (raise transformer_error, devices)
  round profiles devices device data_transform reading_units origin g cv (some dr) =
      assert_then profiles devices device reading_units origin g dr (outgoing data_transform dr cv)

  pub next_round :
      Result (Gathered Float) × DeviceCache Float
      → (Gathered Float → DeviceCache Float → Result (Gathered Float) × DeviceCache Float)
      → Result (Gathered Float) × DeviceCache Float
  next_round (ok g, devices) next = next g devices
  next_round (raise e, devices) next = (raise e, devices)

  -- The loop over the values that the driver returned; a missing one is passed over.
  pub gather_all :
      DeviceProfileCache Float
      → Device Float
      → Bool
      → Bool
      → ℤ
      → List (Option (CommandValue Float))
      → Gathered Float
      → DeviceCache Float
      → Result (Gathered Float) × DeviceCache Float
  unfolding round next_round
  gather_all profiles device data_transform reading_units origin [] g devices = (ok g, devices)
  gather_all profiles device data_transform reading_units origin (none ∷ cvs) g devices =
      gather_all profiles device data_transform reading_units origin cvs g devices
  gather_all profiles device data_transform reading_units origin (some cv ∷ cvs) g devices =
      next_round
        (round profiles devices device data_transform reading_units origin g cv
          (Profiles.device_resource profiles device.profile_name cv.device_resource_name))
        (λ g' devices'.
          gather_all profiles device data_transform reading_units origin cvs g' devices')

  -- The event of the readings of the loop; none of no reading.
  pub event_with :
      Device Float → String → ℤ → Gathered Float → List (Reading Float) → Option (Event Float)
  unfolding merge
  event_with device source_name origin g [] = none
  event_with device source_name origin g (r ∷ rs) = some (record {
    event_id = uuid (length g.readings);
    device_name = device.name;
    profile_name = device.profile_name;
    source_name = source_name;
    origin = origin;
    readings = g.readings;
    tags = merge g.tags device.tags;
  })

  -- What follows the loop.
  pub event_of : Device Float → String → ℤ → Gathered Float → Result (Option (Event Float))
  unfolding event_with
  event_of device source_name origin g =
      if not g.transforms_ok
      then raise transformer_error
      else ok (event_with device source_name origin g g.readings)

  pub finish :
      Device Float
      → String
      → ℤ
      → Result (Gathered Float) × DeviceCache Float
      → Result (Option (Event Float)) × DeviceCache Float
  unfolding event_of
  finish device source_name origin (r, devices) =
      ((do g ← r; event_of device source_name origin g), devices)

  pub for_device :
      DeviceProfileCache Float
      → DeviceCache Float
      → List (Option (CommandValue Float))
      → String
      → Bool
      → Bool
      → ℤ
      → Option (Device Float)
      → Result (Option (Event Float)) × DeviceCache Float
  unfolding gather_all finish
  for_device profiles devices cvs source_name data_transform reading_units origin none =
      (raise transformer_error, devices)
  for_device profiles devices cvs source_name data_transform reading_units origin (some device) =
      finish device source_name origin (
        gather_all profiles device data_transform reading_units origin cvs
          (record { transforms_ok = true; tags = []; readings = [] }) devices)

  -- `origin` is what `get_unique_origin` returns to the call.
  unfoldable pub command_values_to_event :
      DeviceProfileCache Float
      → DeviceCache Float
      → Option (List (Option (CommandValue Float)))
      → String
      → String
      → Bool
      → Bool
      → ℤ
      → Result (Option (Event Float)) × DeviceCache Float
  unfolding for_device
  command_values_to_event profiles devices none device_name source_name data_transform reading_units
        origin =
      (ok none, devices)
  command_values_to_event profiles devices (some cvs) device_name source_name data_transform
        reading_units origin =
      for_device profiles devices cvs source_name data_transform reading_units origin
        (Devices.for_name devices device_name)
