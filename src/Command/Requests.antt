-- ===== src/Command/Requests.antt =====
-- What a read asks the driver for: the checks and the loops of `_read_device_resource`,
-- `_read_device_resources_regex` and `_read_device_command` up to the call of the driver. Each gives
-- the requests, beside the name of the source of the event. `compile` is `re.compile`, with none for
-- `re.error`.
pub mod Readable
use device_sdk_python.Base.{
  Bool, true, false, ◌&&◌, String, Option, none, some, List, [], ◌∷◌, ◌==◌, map, length,
  if◌then◌else◌,
}
use device_sdk_python.Base.Int.{ℤ, pos, ltb_ℤ}
use device_sdk_python.Raise.{
  Result, ok, raise, edgex_error, EdgexErrorKind, refuse, found_or, ◌>>=◌, ◌>>◌,
}
use device_sdk_python.Model.Metadata.{Device, DeviceResource, DeviceCommand, ResourceOperation}
use device_sdk_python.Cache.Profiles
use device_sdk_python.Cache.Profiles.{DeviceProfileCache, Pattern}
use device_sdk_python.Command.State.{CommandRequest, DeviceOptions, device_option}
use device_sdk_python.Command.Helpers.{read_write_w, read_request, request_for}

abbrev pub max_cmd_ops : Option DeviceOptions → ℤ
max_cmd_ops configuration = device_option configuration (λ o. o.max_cmd_ops) (pos 0)

abbrev is_empty : {A : Type 0} → List A → Bool
is_empty [] = true
is_empty (x ∷ xs) = false

module _ {F : Type 0} where
  -- max_cmd_ops > 0 and len(operations) > max_cmd_ops
  abbrev pub exceeds : Option DeviceOptions → List (ResourceOperation F) → Bool
  exceeds configuration operations =
      ltb_ℤ (pos 0) (max_cmd_ops configuration)
      && ltb_ℤ (max_cmd_ops configuration) (pos (length operations))

  abbrev pub is_write_only : DeviceResource F → Bool
  is_write_only dr = dr.properties.read_write == read_write_w

  -- the loop of the regex read, which passes over the write-only resources
  pub readable : List (DeviceResource F) → List (DeviceResource F)
  readable [] = []
  readable (dr ∷ drs) = let rest = readable drs in if is_write_only dr then rest else dr ∷ rest

  -- The loop of the command read: an operation whose resource is not defined ends it.
  pub resources_of :
      DeviceProfileCache F → String → List (ResourceOperation F) → Result (List (DeviceResource F))
  unfolding Profiles.device_resource found_or
  resources_of profiles profile_name [] = ok []
  resources_of profiles profile_name (op ∷ ops) = do
    dr ←
        found_or EdgexErrorKind.server_error
          (Profiles.device_resource profiles profile_name op.device_resource)
    drs ← resources_of profiles profile_name ops
    ok (dr ∷ drs)

  unfoldable pub resource_requests :
      DeviceProfileCache F → Device F → String → String → Result (List (CommandRequest F) × String)
  unfolding Profiles.device_resource found_or refuse request_for
  resource_requests profiles device resource_name attributes = do
    dr ←
        found_or EdgexErrorKind.not_found
          (Profiles.device_resource profiles device.profile_name resource_name)
    refuse (is_write_only dr) EdgexErrorKind.not_allowed
    ok (read_request attributes dr ∷ [], dr.name)

  unfoldable pub regex_requests :
      (String → Option Pattern)
      → DeviceProfileCache F
      → Device F
      → String
      → String
      → Result (List (CommandRequest F) × String)
  unfolding Profiles.device_resources_by_regex found_or refuse readable request_for
  regex_requests compile profiles device regex_resource_name attributes = do
    regex ← found_or EdgexErrorKind.contract_invalid (compile regex_resource_name)
    device_resources ←
        found_or EdgexErrorKind.not_found
          (Profiles.device_resources_by_regex profiles device.profile_name regex)
    refuse (is_empty device_resources) EdgexErrorKind.not_found
    refuse (is_empty (readable device_resources)) EdgexErrorKind.not_allowed
    ok (map (read_request attributes) (readable device_resources), regex_resource_name)

  unfoldable pub command_requests :
      DeviceProfileCache F
      → Option DeviceOptions
      → Device F
      → String
      → String
      → Result (List (CommandRequest F) × String)
  unfolding Profiles.device_command found_or refuse resources_of request_for
  command_requests profiles configuration device command_name attributes = do
    dc ←
        found_or EdgexErrorKind.not_found
          (Profiles.device_command profiles device.profile_name command_name)
    refuse (dc.read_write == read_write_w) EdgexErrorKind.not_allowed
    refuse (exceeds configuration dc.resource_operations) EdgexErrorKind.server_error
    drs ← resources_of profiles device.profile_name dc.resource_operations
    ok (map (read_request attributes) drs, dc.name)
