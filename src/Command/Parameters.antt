-- ===== src/Command/Parameters.antt =====
-- What a write sends to the driver: the checks and the loops of `_write_device_resource` and
-- `_write_device_command` of internal/application/command.py, up to the call of the driver.
pub mod Sound
use device_sdk_python.Base.{
  Bool, true, false, not, String, Option, none, some, List, [], ◌∷◌, ◌==◌, if◌then◌else◌,
}
use device_sdk_python.Base.Dict
use device_sdk_python.Base.Dict.{Dict}
use device_sdk_python.Raise.{
  Result, Exn, ok, raise, edgex_error, EdgexErrorKind, refuse, found_or, ◌>>=◌, ◌>>◌,
}
use device_sdk_python.Floats.{Floats}
use device_sdk_python.Model.ValueType.{ValueType}
use device_sdk_python.Model.Value.{Value}
use device_sdk_python.Model.Metadata.{
  Device, DeviceResource, DeviceCommand, ResourceOperation, ResourceProperties,
}
use device_sdk_python.Model.CommandValue.{CommandValue}
use device_sdk_python.Cache.Profiles
use device_sdk_python.Cache.Profiles.{DeviceProfileCache}
use device_sdk_python.Command.State.{CommandRequest, DeviceOptions}
use device_sdk_python.Command.Parse.{Codecs, create_command_value_from_device_resource}
use device_sdk_python.Command.Helpers.{
  read_write_r, request_for, data_transform, transform_parameter,
}
use device_sdk_python.Command.Requests.{exceeds}

module _ {F : Type 0} where
  -- DeviceResource()
  abbrev no_resource : DeviceResource F
  no_resource = record {
    name = "";
    description = "";
    is_hidden = false;
    tag = "";
    properties = record {
      value_type = ValueType.unrecognized "";
      read_write = "";
      units = "";
      minimum = none;
      maximum = none;
      default_value = "";
      mask = none;
      shift = none;
      scale = none;
      offset = none;
      base = none;
      assertion = "";
      media_type = "";
    };
    attributes = [];
  }

  -- the resource of the pair that `device_resource` returns
  pub resource_or_empty : Option (DeviceResource F) → DeviceResource F
  resource_or_empty none = no_resource
  resource_or_empty (some dr) = dr

  -- The first default that is not empty.
  default_of : List String → Result (Value F)
  default_of [] = raise (edgex_error EdgexErrorKind.server_error)
  default_of (default ∷ defaults) =
      let rest = default_of defaults in if default == "" then rest else ok (Value.str default)

  -- `requests.get(name)`; a null is taken for a missing value
  pub value_or : Option (Value F) → List String → Result (Value F)
  unfolding default_of
  value_or none defaults = default_of defaults
  value_or (some Value.null) defaults = default_of defaults
  value_or (some v) defaults = ok v

  -- mapped_value == value
  is_text : String → Value F → Bool
  is_text mapped_value (Value.str s) = mapped_value == s
  is_text mapped_value _ = false

  -- The first key of the mapping whose text is the value.
  pub unmapped : Dict String → Value F → Value F
  unfolding is_text
  unmapped [] value = value
  unmapped ((key, mapped_value) ∷ more) value =
      let rest = unmapped more value in if is_text mapped_value value then Value.str key else rest

-- the requests and the values of a call of the driver
abbrev pub Prepared : Type 0 → Type 0
Prepared F = List (CommandRequest F) × List (CommandValue F)

-- `except EdgexError`, raised again as an invalid contract
pub contract_error : {A : Type 0} → Result A → Result A
contract_error (ok a) = ok a
contract_error (raise (Exn.edgex_error kind)) = raise (edgex_error EdgexErrorKind.contract_invalid)
contract_error (raise e) = raise e

module _ (fl : Floats) (codecs : Codecs fl.Float) (profiles : DeviceProfileCache fl.Float)
    (configuration : Option DeviceOptions) where
  open fl use {Float}

  -- `if data_transform: _transform_write_parameter(cv, properties)`
  pub transformed_for : CommandValue Float → ResourceProperties Float → Result (CommandValue Float)
  unfolding transform_parameter
  transformed_for cv properties =
      if data_transform configuration then transform_parameter fl cv properties else ok cv

  -- `_write_device_resource`, beside the resource
  unfoldable pub resource_parameters :
      Device Float
      → String
      → String
      → Dict (Value Float)
      → Result (DeviceResource Float × Prepared Float)
  unfolding Profiles.device_resource found_or refuse value_or contract_error request_for
      create_command_value_from_device_resource transformed_for
  resource_parameters device resource_name attributes requests = do
    dr ←
        found_or EdgexErrorKind.not_found
          (Profiles.device_resource profiles device.profile_name resource_name)
    refuse (dr.properties.read_write == read_write_r) EdgexErrorKind.not_allowed
    value ← value_or (Dict.get requests dr.name) (dr.properties.default_value ∷ [])
    cv ← contract_error (create_command_value_from_device_resource fl codecs dr value)
    cv' ← transformed_for cv dr.properties
    ok (dr, (request_for dr cv.device_resource_name cv.value_type attributes ∷ [], cv' ∷ []))

  -- one round of the first loop of `_write_device_command`
  pub operation_value :
      Device Float → Dict (Value Float) → ResourceOperation Float → Result (CommandValue Float)
  unfolding Profiles.device_resource found_or value_or unmapped contract_error
      create_command_value_from_device_resource
  operation_value device requests ro = do
    dr ←
        found_or EdgexErrorKind.server_error
          (Profiles.device_resource profiles device.profile_name ro.device_resource)
    value ←
        value_or (Dict.get requests ro.device_resource)
          (ro.default_value ∷ dr.properties.default_value ∷ [])
    contract_error
        (create_command_value_from_device_resource fl codecs dr (unmapped ro.mappings value))

  pub operation_values :
      Device Float
      → Dict (Value Float)
      → List (ResourceOperation Float)
      → Result (List (CommandValue Float))
  unfolding operation_value
  operation_values device requests [] = ok []
  operation_values device requests (ro ∷ ros) = do
    cv ← operation_value device requests ro
    cvs ← operation_values device requests ros
    ok (cv ∷ cvs)

  -- The second loop, which looks the resource up by the name of the value.
  pub prepare : Device Float → String → List (CommandValue Float) → Result (Prepared Float)
  unfolding Profiles.device_resource resource_or_empty request_for transformed_for
  prepare device attributes [] = ok ([], [])
  prepare device attributes (cv ∷ cvs) = do
    let dr =
        resource_or_empty
          (Profiles.device_resource profiles device.profile_name cv.device_resource_name)
    let req = request_for dr cv.device_resource_name cv.value_type attributes
    cv' ← transformed_for cv dr.properties
    (reqs, cvs') ← prepare device attributes cvs
    ok (req ∷ reqs, cv' ∷ cvs')

  -- `_write_device_command`, beside the command
  unfoldable pub command_parameters :
      Device Float
      → String
      → String
      → Dict (Value Float)
      → Result (DeviceCommand Float × Prepared Float)
  unfolding Profiles.device_command found_or refuse operation_values prepare
  command_parameters device command_name attributes requests = do
    dc ←
        found_or EdgexErrorKind.not_found
          (Profiles.device_command profiles device.profile_name command_name)
    refuse (dc.read_write == read_write_r) EdgexErrorKind.not_allowed
    refuse (exceeds configuration dc.resource_operations) EdgexErrorKind.server_error
    cvs ← operation_values device requests dc.resource_operations
    prepared ← prepare device attributes cvs
    ok (dc, prepared)
