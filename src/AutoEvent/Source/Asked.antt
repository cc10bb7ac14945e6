-- ===== src/AutoEvent/Source/Asked.antt =====
-- What a read for an auto event asks of the driver.
use device_sdk_python.Base.{
  ◌≡◌, refl, ◌≢◌, String, Option, none, some, List, [], ◌∷◌, ◌++◌, All, Option-cases, inl, inr,
}
use mathlib.Core.Path.{subst}
use device_sdk_python.Raise.{Result, ok, raise}
use device_sdk_python.Model.Metadata.{Device, DeviceResource, DeviceCommand, ResourceOperation}
use device_sdk_python.Model.CommandValue.{CommandValue}
use device_sdk_python.Cache.Devices
use device_sdk_python.Cache.Profiles
use device_sdk_python.Cache.Profiles.{DeviceProfileCache}
use device_sdk_python.Command.State.{State, Call, CommandRequest, Outside}
use device_sdk_python.Command.Helpers.{handle_read_commands}
use device_sdk_python.AutoEvent.Source
use device_sdk_python.AutoEvent.Source.{build_requests, request_of, read}

module _ {F : Type 0} where
  -- The request of a resource that the profile of the device has.
  abbrev pub IsOfProfile : DeviceProfileCache F → Device F → CommandRequest F → Type 0
  IsOfProfile profiles device request =
      (name : String) × (resource : DeviceResource F) × (Profiles.device_resource profiles
          device.profile_name name
        ≡ some resource)
      × (request ≡ request_of resource)

  -- What a read of a source of a device came to: nothing, or one call of the driver.
  pub data Asked (profiles : DeviceProfileCache F) (device_name : String) (s : State F)
      (r : Result (Option (List (Option (CommandValue F)))) × State F) : Type 0 where
    nothing : r ≡ (ok none, s) → Asked profiles device_name s r
    driver :
        (device : Device F) (requests : List (CommandRequest F))
        (answer : Option (List (Option (CommandValue F))))
        → Devices.for_name s.devices device_name ≡ some device
        → requests ≢ []
        → All (IsOfProfile profiles device) requests
        → r ≡ (
          ok answer,
          record s { calls = s.calls ++ Call.read device.name device.protocols requests ∷ [] },
        )
        → Asked profiles device_name s r

  operation_requests-IsOfProfile :
      (profiles : DeviceProfileCache F) (device : Device F)
      (operations : List (ResourceOperation F))
      → All
          (IsOfProfile profiles device)
          (Source.operation_requests profiles device.profile_name operations)
  unfolding Source.operation_requests Source.with_resource
  operation_requests-IsOfProfile profiles device [] = tt
  operation_requests-IsOfProfile profiles device (o ∷ os) =
      let rest = operation_requests-IsOfProfile profiles device os in
      elim (Option-cases
        (Profiles.device_resource profiles device.profile_name o.device_resource)) [
          | inl e ↦ rw e rest
          | inr (resource, e) ↦ rw e ((o.device_resource, resource, e, refl), rest)
        ]

  or_none-some :
      (requests : List (CommandRequest F)) {requests' : List (CommandRequest F)}
      → Source.or_none requests ≡ some requests'
      → (requests' ≢ []) × (requests ≡ requests')
  unfolding Source.or_none
  or_none-some [] h = cc
  or_none-some (request ∷ requests) h = (λ e. cc, cc)

  requests_of-IsOfProfile :
      (profiles : DeviceProfileCache F) (device : Device F) (source_name : String)
      (command : Option (DeviceCommand F)) (requests : List (CommandRequest F))
      → Source.requests_of profiles device.profile_name source_name command ≡ some requests
      → (requests ≢ []) × All (IsOfProfile profiles device) requests
  unfolding Source.requests_of Source.resource_request
  requests_of-IsOfProfile profiles device source_name (some command) requests h =
      let (some_of, e) =
        or_none-some
          (Source.operation_requests profiles device.profile_name command.resource_operations) h in
      (
        some_of,
        subst (All (IsOfProfile profiles device)) e
            (operation_requests-IsOfProfile profiles device command.resource_operations),
      )
  requests_of-IsOfProfile profiles device source_name none requests h =
      elim (Option-cases (Profiles.device_resource profiles device.profile_name source_name)) [
        | inl e ↦ cc (rw e at h)
        | inr (resource, e) ↦
            let same : (request_of resource ∷ []) ≡ requests = cc (rw e at h) in
            (
              λ nil. cc,
              subst (All (IsOfProfile profiles device)) same ((source_name, resource, e, refl), tt),
            )
      ]

  -- The answer of the driver, with an exception taken for None.
  or_nothing_lem :
      {A : Type 0} (m : Result A) (s : State F)
      → (answer : Option A) × (Source.or_nothing (m, s) ≡ (ok answer, s))
  unfolding Source.or_nothing
  or_nothing_lem (ok a) s = (some a, refl)
  or_nothing_lem (raise x) s = (none, refl)

  read_requests-Asked :
      (outside : Outside F) (profiles : DeviceProfileCache F) (device_name : String)
      (device : Device F) (s : State F) (found : Option (List (CommandRequest F)))
      → Devices.for_name s.devices device_name ≡ some device
      → ((requests : List (CommandRequest F))
          → found ≡ some requests
          → (requests ≢ []) × All (IsOfProfile profiles device) requests)
      → Asked profiles device_name s (Source.read_requests outside device found s)
  unfolding Source.read_requests handle_read_commands
  read_requests-Asked outside profiles device_name device s none known h = Asked.nothing refl
  read_requests-Asked outside profiles device_name device s (some requests) known h =
      let (some_of, of_profile) = h requests refl in
      let (r, s') = handle_read_commands outside device requests s in
      let (answer, e) = or_nothing_lem r s' in
      Asked.driver device requests answer known some_of of_profile e

  read_found-Asked :
      (outside : Outside F) (profiles : DeviceProfileCache F) (device_name source_name : String)
      (s : State F) (found : Option (Device F))
      → Devices.for_name s.devices device_name ≡ found
      → Asked profiles device_name s (Source.read_found outside profiles source_name found s)
  unfolding Source.read_found build_requests
  read_found-Asked outside profiles device_name source_name s none known = Asked.nothing refl
  read_found-Asked outside profiles device_name source_name s (some device) known =
      read_requests-Asked outside profiles device_name device s
        (build_requests profiles device source_name) known
        (λ requests e.
          requests_of-IsOfProfile profiles device source_name
            (Profiles.device_command profiles device.profile_name source_name) requests e)

  -- Whatever the caches and the answer of the driver, a read for an auto event never raises. Either
  -- it returns None and calls nobody, or it makes one call of the driver and changes nothing else:
  -- for the device that the cache holds under the name, with its protocols, and with one or more
  -- requests, each of a resource of the device's profile.
  pub read-Asked :
      (outside : Option (Outside F)) (profiles : DeviceProfileCache F)
      (device_name source_name : String) (s : State F)
      → Asked profiles device_name s (read outside profiles device_name source_name s)
  unfolding read
  read-Asked none profiles device_name source_name s = Asked.nothing refl
  read-Asked (some outside) profiles device_name source_name s =
      read_found-Asked outside profiles device_name source_name s
        (Devices.for_name s.devices device_name) refl
