-- ===== src/Command/Requests/Readable.antt =====
-- What the requests of a read are for.
use device_sdk_python.Base.{
  ◌≡◌, ◌≢◌, refl, ap, not, ◌&&◌, Bool, true, false, String, Option, some, List, [], ◌∷◌, map, ◌==◌,
  length, Pairwise, filter, Bool-cases, inl, inr,
}
use device_sdk_python.Base.Int.{pos, ltb_ℤ, leb_ℤ}
use device_sdk_python.Raise.{
  EdgexErrorKind, Returns, Returns-ok, Returns-bind, Returns-refuse, Returns-found,
}
use device_sdk_python.Model.Metadata.{Device, DeviceResource, DeviceCommand, ResourceOperation}
use device_sdk_python.Cache.Profiles
use device_sdk_python.Cache.Profiles.{DeviceProfileCache, Pattern}
use device_sdk_python.Command.State.{CommandRequest, DeviceOptions}
use device_sdk_python.Command.Helpers.{read_write_w, read_request}
use device_sdk_python.Command.Requests
use device_sdk_python.Command.Requests.{
  exceeds, max_cmd_ops, is_write_only, resource_requests, regex_requests, command_requests,
}

second_fails : (a b : Bool) → (a && b) ≡ false → a ≡ true → not b ≡ true
second_fails true false h e = refl
second_fails true true h e = cc
second_fails false b h e = cc

module _ {F : Type 0} where
  -- the resources that are not write-only
  abbrev pub allowed : List (DeviceResource F) → List (DeviceResource F)
  allowed drs = filter (λ dr. not (dr.properties.read_write == "W")) drs

  -- One request, of the resource that the profile has under the name, which is not write-only.
  pub record IsResourceRead (profiles : DeviceProfileCache F) (device : Device F)
      (name attributes : String) (reqs : List (CommandRequest F)) : Type 0 where
    pub resource : DeviceResource F
    pub found : Profiles.device_resource profiles device.profile_name name ≡ some resource
    pub readable : (resource.properties.read_write == "W") ≡ false
    pub requests : reqs ≡ read_request attributes resource ∷ []

  -- The requests of the resources of the profile that match the pattern and are not write-only, in order
  -- and all of them; there is one at least.
  pub record IsRegexRead (compile : String → Option Pattern) (profiles : DeviceProfileCache F)
      (device : Device F) (name attributes : String) (reqs : List (CommandRequest F)) : Type 0 where
    pub regex : Pattern
    pub compiled : compile name ≡ some regex
    pub resources : List (DeviceResource F)
    pub found :
        Profiles.device_resources_by_regex profiles device.profile_name regex ≡ some resources
    pub requests : reqs ≡ map (read_request attributes) (allowed resources)
    pub some_of : reqs ≢ []

  -- The request of the resource of an operation.
  abbrev pub IsOfOperation :
      DeviceProfileCache F → Device F → String → ResourceOperation F → CommandRequest F → Type 0
  IsOfOperation profiles device attributes op req =
      (dr : DeviceResource F) × (Profiles.device_resource profiles device.profile_name
          op.device_resource
        ≡ some dr)
      × (req ≡ read_request attributes dr)

  -- The requests of the operations of the command of the name, in order; the command is not write-only,
  -- and its operations are no more than `max_cmd_ops`, if that is set.
  pub record IsCommandRead (profiles : DeviceProfileCache F) (configuration : Option DeviceOptions)
      (device : Device F) (name attributes : String) (reqs : List (CommandRequest F)) : Type 0 where
    pub command : DeviceCommand F
    pub found : Profiles.device_command profiles device.profile_name name ≡ some command
    pub readable : (command.read_write == "W") ≡ false
    pub within :
        ltb_ℤ (pos 0) (max_cmd_ops configuration) ≡ true
        → leb_ℤ (pos (length command.resource_operations)) (max_cmd_ops configuration) ≡ true
    pub requests :
        Pairwise (IsOfOperation profiles device attributes) command.resource_operations reqs

  readable-allowed : (drs : List (DeviceResource F)) → Requests.readable drs ≡ allowed drs
  unfolding Requests.readable
  readable-allowed [] = refl
  readable-allowed (dr ∷ drs) = elim (Bool-cases (dr.properties.read_write == "W")) [
    | inl out ↦ rw out (readable-allowed drs)
    | inr stays ↦ rw stays (ap (λ rest. dr ∷ rest) (readable-allowed drs))
  ]

  nonempty :
      (attributes : String) (drs : List (DeviceResource F))
      → Requests.is_empty drs ≡ false
      → map (read_request attributes) drs ≢ []
  nonempty attributes [] h = cc
  nonempty attributes (dr ∷ drs) h = λ e. cc

  pub resource_requests-IsResourceRead :
      (profiles : DeviceProfileCache F) (device : Device F) (name attributes : String)
      → Returns
          (λ p. IsResourceRead profiles device name attributes p.0)
          (resource_requests profiles device name attributes)
  unfolding resource_requests
  resource_requests-IsResourceRead profiles device name attributes =
      Returns-found EdgexErrorKind.not_found
        (Profiles.device_resource profiles device.profile_name name) _
        (λ dr found. Returns-refuse (is_write_only dr) EdgexErrorKind.not_allowed _ (λ e.
          Returns-ok (record { resource = dr; found = found; readable = e; requests = refl })))

  pub regex_requests-IsRegexRead :
      (compile : String → Option Pattern) (profiles : DeviceProfileCache F) (device : Device F)
      (name attributes : String)
      → Returns
          (λ p. IsRegexRead compile profiles device name attributes p.0)
          (regex_requests compile profiles device name attributes)
  unfolding regex_requests
  regex_requests-IsRegexRead compile profiles device name attributes =
      Returns-found EdgexErrorKind.contract_invalid (compile name) _ (λ regex compiled.
        Returns-found EdgexErrorKind.not_found
          (Profiles.device_resources_by_regex profiles device.profile_name regex) _
          (λ drs found. Returns-refuse (Requests.is_empty drs) EdgexErrorKind.not_found _ (λ _.
            Returns-refuse (Requests.is_empty (Requests.readable drs)) EdgexErrorKind.not_allowed _
              (λ some_of. Returns-ok (record {
                regex = regex;
                compiled = compiled;
                resources = drs;
                found = found;
                requests = ap (map (read_request attributes)) (readable-allowed drs);
                some_of = nonempty attributes (Requests.readable drs) some_of;
              })))))

  resources_of-Pairwise :
      (profiles : DeviceProfileCache F) (device : Device F) (attributes : String)
      (ops : List (ResourceOperation F))
      → Returns
          (λ drs.
            Pairwise
              (IsOfOperation profiles device attributes)
              ops
              (map (read_request attributes) drs))
          (Requests.resources_of profiles device.profile_name ops)
  unfolding Requests.resources_of
  resources_of-Pairwise profiles device attributes [] = Returns-ok tt
  resources_of-Pairwise profiles device attributes (op ∷ ops) =
      Returns-found EdgexErrorKind.server_error
        (Profiles.device_resource profiles device.profile_name op.device_resource) _
        (λ dr found.
          Returns-bind (Requests.resources_of profiles device.profile_name ops) _ (λ drs e.
            Returns-ok
              ((dr, found, refl), (resources_of-Pairwise profiles device attributes ops).at drs e)))

  pub command_requests-IsCommandRead :
      (profiles : DeviceProfileCache F) (configuration : Option DeviceOptions) (device : Device F)
      (name attributes : String)
      → Returns
          (λ p. IsCommandRead profiles configuration device name attributes p.0)
          (command_requests profiles configuration device name attributes)
  unfolding command_requests
  command_requests-IsCommandRead profiles configuration device name attributes =
      Returns-found EdgexErrorKind.not_found
        (Profiles.device_command profiles device.profile_name name) _
        (λ dc found.
          Returns-refuse (dc.read_write == read_write_w) EdgexErrorKind.not_allowed _ (λ allowed.
            Returns-refuse (exceeds configuration dc.resource_operations)
              EdgexErrorKind.server_error _
              (λ within.
                Returns-bind
                  (Requests.resources_of profiles device.profile_name dc.resource_operations) _
                  (λ drs is. Returns-ok (record {
                    command = dc;
                    found = found;
                    readable = allowed;
                    within =
                        second_fails (ltb_ℤ (pos 0) (max_cmd_ops configuration))
                          (ltb_ℤ (max_cmd_ops configuration) (pos (length dc.resource_operations)))
                          within;
                    requests =
                        (resources_of-Pairwise profiles device attributes dc.resource_operations).at
                          drs is;
                  })))))
