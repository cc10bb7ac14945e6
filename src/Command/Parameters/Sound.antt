-- ===== src/Command/Parameters/Sound.antt =====
-- What a write hands to the driver: values that match their requests and fit their types.
use device_sdk_python.Base.{
  ◌≡◌, refl, sym, ◌==◌, ap, ◌∙◌, String, Option, List, [], ◌∷◌, arith, All, Pairwise, Bool-cases,
  inl, inr,
}
use device_sdk_python.Base.Dict
use device_sdk_python.Base.Dict.{Dict}
use device_sdk_python.Raise.{
  Result, Exn, EdgexErrorKind, ok, raise, refuse, found_or, Returns, Returns-ok, Returns-raise,
  Returns-if, Returns-bind,
}
use device_sdk_python.Floats.{Floats}
use device_sdk_python.Model.ValueType.{ValueType, is_integer}
use device_sdk_python.Model.Value.{Value, is_null}
use device_sdk_python.Model.Metadata.{Device, DeviceResource, ResourceOperation, ResourceProperties}
use device_sdk_python.Model.CommandValue.{CommandValue}
use device_sdk_python.Cache.Profiles
use device_sdk_python.Cache.Profiles.{DeviceProfileCache}
use device_sdk_python.Transformer.WriteParameter.{transform_write_parameter}
use device_sdk_python.Transformer.WriteParameter.Alike.{Alike, transform-Alike, transform-null}
use device_sdk_python.Transformer.WriteParameter.InRange.{transform_write_parameter-HoldsInteger}
use device_sdk_python.Command.State.{CommandRequest, DeviceOptions}
use device_sdk_python.Command.Helpers.{
  request_for, set_attributes_query, transform_parameter, transformer_error_as, data_transform,
  read_write_r,
}
use device_sdk_python.Command.Parse.{Codecs, create_command_value_from_device_resource}
use device_sdk_python.Command.Parse.InRange.{IsSound, create-WritesTo}
use device_sdk_python.Command.Requests.{exceeds}
use device_sdk_python.Command.Parameters
use device_sdk_python.Command.Parameters.{Prepared, resource_parameters, command_parameters}

contract_error-Returns :
    {A : Type 0} {P : A → Type 0} (r : Result A)
    → Returns P r
    → Returns P (Parameters.contract_error r)
unfolding Parameters.contract_error
contract_error-Returns (ok a) h = h
contract_error-Returns (raise (Exn.edgex_error kind)) h = Returns-raise _
contract_error-Returns (raise e) h = Returns-raise _

error_as-Returns :
    {A : Type 0} {P : A → Type 0} (kind : EdgexErrorKind) (r : Result A)
    → Returns P r
    → Returns P (transformer_error_as kind r)
unfolding transformer_error_as
error_as-Returns kind (ok a) h = h
error_as-Returns kind (raise Exn.transformer_error) h = Returns-raise _
error_as-Returns kind (raise Exn.overflow_transformer_error) h = Returns-raise _
error_as-Returns kind (raise Exn.nan_transformer_error) h = Returns-raise _
error_as-Returns kind (raise Exn.write_parameter_error) h = Returns-raise _
error_as-Returns kind (raise e) h = Returns-raise _

request_for-names :
    {F : Type 0} (dr : DeviceResource F) (name : String) (vt : ValueType) (attributes : String)
    → ((request_for dr name vt attributes).resource_name ≡ name)
      × ((request_for dr name vt attributes).value_type ≡ vt)
unfolding request_for set_attributes_query
request_for-names dr name vt attributes = ground arith

module _ (fl : Floats) where
  open fl use {Float}

  -- sound, and for the same resource and of the same type
  abbrev Next : CommandValue Float → CommandValue Float → Type 0
  Next cv cv' = Alike fl cv cv' × IsSound fl cv'

  transform-Next :
      (cv : CommandValue Float) (props : ResourceProperties Float)
      → IsSound fl cv
      → Returns (Next cv) (transform_write_parameter fl cv props)
  transform-Next cv props sound = record {
    at = λ cv' e.
        let alike = (transform-Alike fl cv props).at cv' e in
        (
          alike,
          λ integer there. elim (Bool-cases (is_null cv.value)) [
            | inl null ↦
                let is : is_null cv'.value ≡ is_null cv.value =
                  ap (λ c. is_null c.value) (transform-null fl cv props null e) in
                cc
            | inr held ↦
                (transform_write_parameter-HoldsInteger fl cv props
                  (sound (ap is_integer (sym alike.1) ∙ integer) held) e).0
          ],
        );
  }

  -- A request and the value that is sent with it.
  abbrev pub Matches : CommandRequest Float → CommandValue Float → Type 0
  Matches req cv =
      (req.resource_name ≡ cv.device_resource_name)
      × (req.value_type ≡ cv.value_type)
      × IsSound fl cv

  Next-Matches :
      (dr : DeviceResource Float) (attributes : String) (cv : CommandValue Float)
      {cv' : CommandValue Float}
      → Next cv cv'
      → Matches (request_for dr cv.device_resource_name cv.value_type attributes) cv'
  Next-Matches dr attributes cv ((names, types), sound) =
      let (of_name, of_type) =
        request_for-names dr cv.device_resource_name cv.value_type attributes in
      (of_name ∙ sym names, of_type ∙ sym types, sound)

  -- One request for each value, of its name and type; the values are sound.
  abbrev pub AllMatch : Prepared Float → Type 0
  AllMatch (reqs, cvs) = Pairwise Matches reqs cvs

  module _ (codecs : Codecs Float) (profiles : DeviceProfileCache Float)
      (configuration : Option DeviceOptions) where
    transformed_for-Next :
        (cv : CommandValue Float) (props : ResourceProperties Float)
        → IsSound fl cv
        → Returns (Next cv) (Parameters.transformed_for fl codecs profiles configuration cv props)
    unfolding Parameters.transformed_for transform_parameter
    transformed_for-Next cv props sound =
        Returns-if (data_transform configuration)
          (λ _. error_as-Returns EdgexErrorKind.contract_invalid _ (transform-Next cv props sound))
          (λ _. Returns-ok ((refl, refl), sound))

    pub resource_parameters-AllMatch :
        (device : Device Float) (resource_name attributes : String) (requests : Dict (Value Float))
        → Returns
            (λ p. AllMatch p.1)
            (resource_parameters fl codecs profiles configuration device resource_name attributes
              requests)
    unfolding resource_parameters
    resource_parameters-AllMatch device resource_name attributes requests =
        Returns-bind
          (found_or EdgexErrorKind.not_found
            (Profiles.device_resource profiles device.profile_name resource_name))
          _
          (λ dr _.
            Returns-bind
              (refuse (dr.properties.read_write == read_write_r) EdgexErrorKind.not_allowed) _
              (λ _ _.
                Returns-bind
                  (Parameters.value_or (Dict.get requests dr.name)
                    (dr.properties.default_value ∷ []))
                  _
                  (λ value _.
                    Returns-bind
                      (Parameters.contract_error
                        (create_command_value_from_device_resource fl codecs dr value))
                      _
                      (λ cv e.
                        let (_, _, sound) =
                          (contract_error-Returns _ (create-WritesTo fl codecs dr value)).at cv e in
                        Returns-bind
                          (Parameters.transformed_for fl codecs profiles configuration cv
                            dr.properties)
                          _
                          (λ cv' e'. Returns-ok (
                            Next-Matches dr attributes cv
                                ((transformed_for-Next cv dr.properties sound).at cv' e'),
                            tt,
                          ))))))

    operation_value-IsSound :
        (device : Device Float) (requests : Dict (Value Float)) (ro : ResourceOperation Float)
        → Returns
            (IsSound fl)
            (Parameters.operation_value fl codecs profiles configuration device requests ro)
    unfolding Parameters.operation_value
    operation_value-IsSound device requests ro =
        Returns-bind
          (found_or EdgexErrorKind.server_error
            (Profiles.device_resource profiles device.profile_name ro.device_resource))
          _
          (λ dr _.
            Returns-bind
              (Parameters.value_or (Dict.get requests ro.device_resource)
                (ro.default_value ∷ dr.properties.default_value ∷ []))
              _
              (λ value _.
                contract_error-Returns
                  (create_command_value_from_device_resource fl codecs dr
                    (Parameters.unmapped ro.mappings value))
                  (record {
                    at = λ cv e.
                        ((create-WritesTo fl codecs dr (Parameters.unmapped ro.mappings value)).at
                          cv e).2;
                  })))

    operation_values-IsSound :
        (device : Device Float) (requests : Dict (Value Float))
        (ros : List (ResourceOperation Float))
        → Returns
            (All (IsSound fl))
            (Parameters.operation_values fl codecs profiles configuration device requests ros)
    unfolding Parameters.operation_values
    operation_values-IsSound device requests [] = Returns-ok tt
    operation_values-IsSound device requests (ro ∷ ros) =
        Returns-bind
          (Parameters.operation_value fl codecs profiles configuration device requests ro) _
          (λ cv e.
            Returns-bind
              (Parameters.operation_values fl codecs profiles configuration device requests ros) _
              (λ cvs e'. Returns-ok (
                (operation_value-IsSound device requests ro).at cv e,
                (operation_values-IsSound device requests ros).at cvs e',
              )))

    prepare-AllMatch :
        (device : Device Float) (attributes : String) (cvs : List (CommandValue Float))
        → All (IsSound fl) cvs
        → Returns AllMatch
            (Parameters.prepare fl codecs profiles configuration device attributes cvs)
    unfolding Parameters.prepare
    prepare-AllMatch device attributes [] h = Returns-ok tt
    prepare-AllMatch device attributes (cv ∷ cvs) (sound, h) =
        let dr =
          Parameters.resource_or_empty
            (Profiles.device_resource profiles device.profile_name cv.device_resource_name) in
        Returns-bind (Parameters.transformed_for fl codecs profiles configuration cv dr.properties)
          _
          (λ cv' e.
            Returns-bind (Parameters.prepare fl codecs profiles configuration device attributes cvs)
              _
              (λ prepared e'. Returns-ok (
                Next-Matches dr attributes cv
                    ((transformed_for-Next cv dr.properties sound).at cv' e),
                (prepare-AllMatch device attributes cvs h).at prepared e',
              )))

    pub command_parameters-AllMatch :
        (device : Device Float) (command_name attributes : String) (requests : Dict (Value Float))
        → Returns
            (λ p. AllMatch p.1)
            (command_parameters fl codecs profiles configuration device command_name attributes
              requests)
    unfolding command_parameters
    command_parameters-AllMatch device command_name attributes requests =
        Returns-bind
          (found_or EdgexErrorKind.not_found
            (Profiles.device_command profiles device.profile_name command_name))
          _
          (λ dc _.
            Returns-bind (refuse (dc.read_write == read_write_r) EdgexErrorKind.not_allowed) _
              (λ _ _.
                Returns-bind
                  (refuse (exceeds configuration dc.resource_operations)
                    EdgexErrorKind.server_error)
                  _
                  (λ _ _.
                    Returns-bind
                      (Parameters.operation_values fl codecs profiles configuration device requests
                        dc.resource_operations)
                      _
                      (λ cvs e.
                        Returns-bind
                          (Parameters.prepare fl codecs profiles configuration device attributes
                            cvs)
                          _
                          (λ prepared e'. Returns-ok (
                            (prepare-AllMatch device attributes cvs (
                                (operation_values-IsSound device requests dc.resource_operations).at
                                  cvs e)).at
                              prepared e'))))))
