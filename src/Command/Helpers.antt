-- ===== src/Command/Helpers.antt =====
-- The shared helpers of internal/application/command.py: the request that the driver gets, the calls
-- of the driver, and the wrapping of the transformer's errors.
use device_sdk_python.Base.{
  ℕ, Bool, true, String, Option, none, some, List, [], ◌∷◌, ◌++◌, ◌==◌, if◌then◌else◌,
}
use device_sdk_python.Base.Int.{ℤ}
use device_sdk_python.Base.Dict
use device_sdk_python.Base.Dict.{Dict}
use device_sdk_python.Raise.{Result, Exn, ok, raise, edgex_error, EdgexErrorKind}
use device_sdk_python.Floats.{Floats}
use device_sdk_python.Model.ValueType.{ValueType}
use device_sdk_python.Model.Value.{Value}
use device_sdk_python.Model.Metadata.{Device, DeviceResource, ResourceProperties}
use device_sdk_python.Model.CommandValue.{CommandValue}
use device_sdk_python.Cache.Profiles.{DeviceProfileCache}
use device_sdk_python.Transformer.WriteParameter.{transform_write_parameter}
use device_sdk_python.Transformer.Event.{Event, command_values_to_event}
use device_sdk_python.Command.State.{
  Action, CommandRequest, Outside, DeviceOptions, read, write, device_option,
}

abbrev pub url_raw_query : String
url_raw_query = "urlRawQuery"

abbrev pub read_write_r : String
read_write_r = "R"

abbrev pub read_write_w : String
read_write_w = "W"

-- `except Exception`, raised again as a server error
pub or_server_error : {A : Type 0} → Result A → Result A
or_server_error (ok a) = ok a
or_server_error (raise e) = raise (edgex_error EdgexErrorKind.server_error)

module _ {F : Type 0} where
  -- `_set_attributes_query`
  unfoldable pub set_attributes_query : CommandRequest F → String → CommandRequest F
  set_attributes_query req attributes =
      if attributes == ""
      then req
      else record req { attributes = Dict.put req.attributes url_raw_query (Value.str attributes) }

  -- CommandRequest(...) of a name, the attributes of the resource and a type, with the query
  unfoldable pub request_for : DeviceResource F → String → ValueType → String → CommandRequest F
  unfolding set_attributes_query
  request_for dr name vt attributes =
      set_attributes_query
        (record { resource_name = name; attributes = dr.attributes; value_type = vt; options = [] })
        attributes

  -- the request of a read
  abbrev pub read_request : String → DeviceResource F → CommandRequest F
  read_request attributes dr = request_for dr dr.name dr.properties.value_type attributes

  -- list(results) if results is not None else []
  abbrev results_of : Option (List (Option (CommandValue F))) → List (Option (CommandValue F))
  results_of none = []
  results_of (some results) = results

  unfoldable pub handle_read_commands :
      Outside F → Device F → List (CommandRequest F) → Action F (List (Option (CommandValue F)))
  unfolding or_server_error
  handle_read_commands outside device reqs s =
      let answer =
        or_server_error (outside.handle_read s.calls device.name device.protocols reqs) in
      (
        (elim answer [ ok results ↦ ok (results_of results) | raise e ↦ raise e ]),
        record s { calls = s.calls ++ read device.name device.protocols reqs ∷ [] },
      )

  unfoldable pub handle_write_commands :
      Outside F → Device F → List (CommandRequest F) → List (CommandValue F) → Action F (Unit {0})
  unfolding or_server_error
  handle_write_commands outside device reqs params s = (
    or_server_error (outside.handle_write s.calls device.name device.protocols reqs params),
    record s { calls = s.calls ++ write device.name device.protocols reqs params ∷ [] },
  )

-- `except TransformerError`, which takes its subclasses with it
unfoldable pub transformer_error_as : {A : Type 0} → EdgexErrorKind → Result A → Result A
transformer_error_as kind (ok a) = ok a
transformer_error_as kind (raise Exn.transformer_error) = raise (edgex_error kind)
transformer_error_as kind (raise Exn.overflow_transformer_error) = raise (edgex_error kind)
transformer_error_as kind (raise Exn.nan_transformer_error) = raise (edgex_error kind)
transformer_error_as kind (raise Exn.write_parameter_error) = raise (edgex_error kind)
transformer_error_as kind (raise e) = raise e

abbrev pub data_transform : Option DeviceOptions → Bool
data_transform configuration = device_option configuration (λ o. o.data_transform) true

module _ (fl : Floats) where
  open fl use {Float}

  unfoldable pub transform_parameter :
      CommandValue Float → ResourceProperties Float → Result (CommandValue Float)
  unfolding transformer_error_as transform_write_parameter
  transform_parameter cv properties =
      transformer_error_as EdgexErrorKind.contract_invalid
        (transform_write_parameter fl cv properties)

module _ (fl : Floats) (uuid : ℕ → String) (origin : ℤ) where
  open fl use {Float}

  -- `_command_values_to_event`
  unfoldable pub to_event :
      DeviceProfileCache Float
      → Option DeviceOptions
      → List (Option (CommandValue Float))
      → Device Float
      → String
      → Action Float (Option (Event Float))
  unfolding transformer_error_as command_values_to_event
  to_event profiles configuration results device source_name s =
      let (r, devices) =
        command_values_to_event fl uuid profiles s.devices (some results) device.name source_name
          (data_transform configuration) (device_option configuration (λ o. o.reading_units) true)
          origin in
      (transformer_error_as EdgexErrorKind.server_error r, record s { devices = devices })
