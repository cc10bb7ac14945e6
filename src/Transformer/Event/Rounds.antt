-- ===== src/Transformer/Event/Rounds.antt =====
-- One round of the loop of `command_values_to_event`: it adds one reading, which is of the resource
-- that the driver's value is for, whatever the value is replaced by on the way.
use device_sdk_python.Base.{
  ℕ, ◌≡◌, refl, ◌∙◌, Bool, String, Option, none, some, [], ◌∷◌, ◌++◌, arith, if◌then◌else◌, not,
  length, ◌||◌, ◌&&◌,
}
use device_sdk_python.Base.Int.{ℤ}
use device_sdk_python.Raise.{
  Result, Exn, ok, raise, Returns, Returns-ok, Returns-raise, Returns-if, Returns-bind,
}
use device_sdk_python.Floats.{Floats}
use device_sdk_python.Model.ValueType.{ValueType, is_numeric}
use device_sdk_python.Model.Value.{Value, is_null}
use device_sdk_python.Model.Metadata.{Device, DeviceResource, ResourceOperation}
use device_sdk_python.Model.CommandValue.{
  CommandValue, create_command_value, validate, binary_value,
}
use device_sdk_python.Base.Dict
use device_sdk_python.Base.Dict.{Dict}
use device_sdk_python.Cache.Profiles
use device_sdk_python.Cache.Profiles.{DeviceProfileCache}
use device_sdk_python.Transformer.ReadResult
use device_sdk_python.Transformer.ReadResult.{
  transform_read_result, map_command_value, check_assertion, read_chain, assign, is_nan,
  value_to_string,
}
use device_sdk_python.Transformer.Numbers.{Number, as_number}
use device_sdk_python.Transformer.Event
use device_sdk_python.Transformer.Event.{Gathered, command_values_to_event}
use device_sdk_python.Transformer.Reading.{
  Reading, command_value_to_reading, reading_of, reading_value_string,
}

module _ (fl : Floats) (uuid : ℕ → String) where
  open fl use {Float}

  abbrev pub Named : String → CommandValue Float → Type 0
  Named name cv = cv.device_resource_name ≡ name

  create-Named :
      (name : String) (vt : ValueType) (v : Value Float)
      → Returns (Named name) (create_command_value name vt v)
  unfolding create_command_value
  create-Named name vt v = Returns-bind (validate vt v) _ (λ _ _. Returns-ok refl)

  assign-Named :
      (cv : CommandValue Float) (n m : Number Float)
      → Named cv.device_resource_name (assign fl cv n m)
  unfolding assign
  assign-Named cv n m = ground arith

  read_result-Named :
      (cv : CommandValue Float) (dr : DeviceResource Float)
      → Returns (Named cv.device_resource_name) (transform_read_result fl cv dr.properties)
  unfolding transform_read_result
  read_result-Named cv dr =
      Returns-if (is_null cv.value || not (is_numeric cv.value_type)) (λ _. Returns-ok refl)
        (λ _. Returns-bind (is_nan fl cv.value cv.value_type) _ (λ nan _.
          Returns-if nan (λ _. Returns-raise _)
            (λ _. Returns-bind (as_number cv.value) _ (λ n _.
              Returns-bind (read_chain fl dr.properties cv.value_type n) _
                (λ m _. Returns-ok (assign-Named cv n m))))))

  transformed-Named :
      (cv : CommandValue Float) (r : Result (CommandValue Float))
      → Returns (Named cv.device_resource_name) r
      → Returns (λ p. Named cv.device_resource_name p.0) (Event.transformed fl uuid cv r)
  unfolding Event.transformed
  transformed-Named cv (ok cv') h = Returns-ok (h.at cv' refl)
  transformed-Named cv (raise Exn.overflow_transformer_error) h =
      let name = cv.device_resource_name in
      Returns-bind (create_command_value name ValueType.string (Value.str "overflow")) _
        (λ c e. Returns-ok ((create-Named name ValueType.string (Value.str "overflow")).at c e))
  transformed-Named cv (raise Exn.nan_transformer_error) h =
      let name = cv.device_resource_name in
      Returns-bind (create_command_value name ValueType.string (Value.str "NaN")) _
        (λ c e. Returns-ok ((create-Named name ValueType.string (Value.str "NaN")).at c e))
  transformed-Named cv (raise Exn.transformer_error) h = Returns-ok refl
  transformed-Named cv (raise Exn.write_parameter_error) h = Returns-ok refl
  transformed-Named cv (raise e) h = Returns-raise e

  pub outgoing-Named :
      (data_transform : Bool) (dr : DeviceResource Float) (cv : CommandValue Float)
      → Returns
          (λ p. Named cv.device_resource_name p.0)
          (Event.outgoing fl uuid data_transform dr cv)
  unfolding Event.outgoing
  outgoing-Named data_transform dr cv =
      Returns-if (data_transform && not (is_null cv.value))
        (λ _. transformed-Named cv _ (read_result-Named cv dr)) (λ _. Returns-ok refl)

  mapped-Named :
      (name : String) (o : Option String) (cv : CommandValue Float)
      → Named name cv
      → Returns (λ c. Named name (Event.chosen fl uuid cv c)) (ReadResult.mapped fl name o)
  unfolding Event.chosen ReadResult.mapped
  mapped-Named name none cv h = Returns-ok h
  mapped-Named name (some text) cv h =
      Returns-bind (create_command_value name ValueType.string (Value.str text)) _
        (λ c e. Returns-ok ((create-Named name ValueType.string (Value.str text)).at c e))

  map_command_value-Named :
      (cv : CommandValue Float) (mappings : Dict String)
      → Returns
          (λ c. Named cv.device_resource_name (Event.chosen fl uuid cv c))
          (map_command_value fl cv mappings)
  unfolding map_command_value
  map_command_value-Named cv mappings =
      Returns-bind (value_to_string fl cv) _
        (λ key _. mapped-Named cv.device_resource_name (Dict.get mappings key) cv refl)

  mapped_by-Named :
      (cv : CommandValue Float) (mappings : Dict String)
      → Returns (Named cv.device_resource_name) (Event.mapped_by fl uuid cv mappings)
  unfolding Event.mapped_by
  mapped_by-Named cv [] = Returns-ok refl
  mapped_by-Named cv (entry ∷ more) =
      Returns-bind (map_command_value fl cv (entry ∷ more)) _
        (λ c e. Returns-ok ((map_command_value-Named cv (entry ∷ more)).at c e))

  operation_mapped-Named :
      (cv : CommandValue Float) (r : Result (ResourceOperation Float))
      → Returns (Named cv.device_resource_name) (Event.operation_mapped fl uuid cv r)
  unfolding Event.operation_mapped
  operation_mapped-Named cv (ok ro) = mapped_by-Named cv ro.mappings
  operation_mapped-Named cv (raise (Exn.cache_error kind)) = Returns-ok refl
  operation_mapped-Named cv (raise e) = Returns-raise e

  -- The reading is of the resource, and of the device.
  abbrev pub ReadingOf : Device Float → String → Reading Float → Type 0
  ReadingOf device name r =
      (r.resource_name ≡ name)
      × (r.device_name ≡ device.name)
      × (r.profile_name ≡ device.profile_name)

  reading_of-ReadingOf :
      (device : Device Float) (cv : CommandValue Float) (vt : ValueType) (media_type : String)
      (blank : Reading Float)
      → ReadingOf device cv.device_resource_name blank
      → Returns (ReadingOf device cv.device_resource_name) (reading_of fl cv vt media_type blank)
  unfolding reading_of
  reading_of-ReadingOf device cv ValueType.binary media_type blank h =
      Returns-bind (binary_value cv) _ (λ _ _. Returns-ok h)
  reading_of-ReadingOf device cv ValueType.object media_type blank h = Returns-ok h
  reading_of-ReadingOf device cv ValueType.object_array media_type blank h = Returns-ok h
  reading_of-ReadingOf device cv vt media_type blank h =
      Returns-bind (reading_value_string fl cv vt) _ (λ _ _. Returns-ok h)

  to_reading-ReadingOf :
      (device : Device Float) (cv : CommandValue Float) (media_type : String) (origin : ℤ)
      (id : String)
      → Returns
          (ReadingOf device cv.device_resource_name)
          (command_value_to_reading fl cv device.name device.profile_name media_type origin id)
  unfolding command_value_to_reading
  to_reading-ReadingOf device cv media_type origin id =
      Returns-if (is_null cv.value) (λ _. Returns-ok (refl, refl, refl))
        (λ _. reading_of-ReadingOf device cv cv.value_type media_type _ (refl, refl, refl))

  -- `g'` has one reading more than `g`, of the resource and the device.
  abbrev pub OneMore : Device Float → Gathered Float → String → Gathered Float → Type 0
  OneMore device g name g' =
      (r : Reading Float) × (g'.readings ≡ g.readings ++ r ∷ []) × ReadingOf device name r

  pub gather-OneMore :
      (profiles : DeviceProfileCache Float) (device : Device Float) (reading_units : Bool)
      (origin : ℤ) (g : Gathered Float) (dr : DeviceResource Float) (cv : CommandValue Float)
      (fine : Bool) (name : String)
      → Named name cv
      → Returns
          (OneMore device g name)
          (Event.gather fl uuid profiles device reading_units origin g dr (cv, fine))
  unfolding Event.gather
  gather-OneMore profiles device reading_units origin g dr cv fine name same =
      let operation =
        Profiles.resource_operation profiles device.profile_name cv.device_resource_name in
      let media_type = dr.properties.media_type in
      let id = uuid (length g.readings) in
      Returns-bind (Event.operation_mapped fl uuid cv operation) _ (λ cv' e.
        Returns-bind
          (command_value_to_reading fl cv' device.name device.profile_name media_type origin id) _
          (λ r e'.
            let (of_name, of_device, of_profile) =
              (to_reading-ReadingOf device cv' media_type origin id).at r e' in
            Returns-ok (
              record r { units = if reading_units then dr.properties.units else "" },
              refl,
              (
                of_name ∙ (operation_mapped-Named cv operation).at cv' e ∙ same,
                of_device,
                of_profile,
              ),
            )))
