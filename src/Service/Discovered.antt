-- ===== src/Service/Discovered.antt =====
-- `_match_provision_watcher` and `_process_discovered_devices` of the service. `re.match` is a
-- parameter, for patterns that compile.
pub mod Matching
use device_sdk_python.Base.{
  ℕ, suc, Bool, true, false, not, ◌&&◌, String, Option, none, some, List, [], ◌∷◌, ◌==◌, nat_eq,
  any, length, if◌then◌else◌,
}
use device_sdk_python.Base.Int.{ℤ, pos}
use device_sdk_python.Base.Dict
use device_sdk_python.Base.Dict.{Dict}
use device_sdk_python.Raise.{Result, ok, raise}
use device_sdk_python.Model.Value.{Value}
use device_sdk_python.Model.Metadata.{
  Device, ProvisionWatcher, ProtocolProperties, admin_state_locked,
}
use device_sdk_python.Cache.Devices
use device_sdk_python.Cache.ProvisionWatchers
use device_sdk_python.Service.State.{State, Outside}
use device_sdk_python.Service.Entities.{add_device}

-- models/discovered_device.py
pub record DiscoveredDevice : Type 0 where
  pub name : String
  pub protocols : Dict ProtocolProperties
  pub description : String
  pub labels : List String

module _ (re_match : String → String → Bool) where
  -- the value of one identifier is there, is not empty, and matches
  abbrev pub satisfied : String → Option String → Bool
  satisfied regex none = false
  satisfied regex (some value) = not (value == "") && re_match regex value

  -- the loop over the identifiers
  count_matched : ProtocolProperties → Dict String → ℕ → ℕ
  count_matched protocol_props [] matched = matched
  count_matched protocol_props ((name, regex) ∷ identifiers) matched =
      count_matched protocol_props identifiers
        (if satisfied regex (Dict.get protocol_props name) then suc matched else matched)

  -- `value_str in block_list`
  abbrev pub is_blocked : List String → Option String → Bool
  is_blocked block_list none = false
  is_blocked block_list (some value) = any (λ s. s == value) block_list

  -- the loop over the block lists
  blocked_by : ProtocolProperties → Dict (List String) → Bool
  blocked_by protocol_props [] = false
  blocked_by protocol_props ((name, block_list) ∷ blocking) =
      let rest = blocked_by protocol_props blocking in
      if is_blocked block_list (Dict.get protocol_props name) then true else rest

  -- the loop over the protocols
  match_protocols : Dict String → Dict (List String) → List ProtocolProperties → Bool
  unfolding count_matched blocked_by
  match_protocols identifiers blocking [] = false
  match_protocols identifiers blocking (protocol_props ∷ protocols) =
      let rest = match_protocols identifiers blocking protocols in
      if nat_eq (count_matched protocol_props identifiers 0) (length identifiers)
      then (if blocked_by protocol_props blocking then rest else true)
      else rest

  match_identifiers : Dict String → Dict (List String) → List ProtocolProperties → Bool
  unfolding match_protocols
  match_identifiers [] blocking protocols = false
  match_identifiers (identifier ∷ identifiers) blocking protocols =
      match_protocols (identifier ∷ identifiers) blocking protocols

  unfoldable pub match_provision_watcher :
      {F : Type 0} → DiscoveredDevice → ProvisionWatcher F → Bool
  unfolding match_identifiers
  match_provision_watcher device pw =
      match_identifiers pw.identifiers pw.blocking_identifiers (Dict.values device.protocols)

  module _ {F : Type 0} (outside : Outside F) (service_key : String) where
    -- Device(...) of a discovered device and the watcher that it matches
    candidate : DiscoveredDevice → ProvisionWatcher F → Device F
    candidate d pw = record {
      id = "";
      name = d.name;
      description = d.description;
      admin_state = pw.discovered_device.admin_state;
      operating_state = "UP";
      service_name = service_key;
      profile_name = pw.discovered_device.profile_name;
      labels = d.labels;
      location = Value.null;
      auto_events = pw.discovered_device.auto_events;
      protocols = d.protocols;
      last_connected = pos 0;
      last_reported = pos 0;
      tags = [];
      properties = pw.discovered_device.properties;
      created = pos 0;
      modified = pos 0;
    }

    -- A device that is there already is left alone; an error of the addition is only logged.
    add_candidate : Device F → Option (Device F) → State F → State F
    add_candidate device (some _) s = s
    add_candidate device none s = (add_device outside service_key device true s).1

    -- the loop over the watchers, which ends at the first unlocked one that matches
    try_watchers : DiscoveredDevice → List (ProvisionWatcher F) → State F → State F
    unfolding candidate add_candidate
    try_watchers d [] s = s
    try_watchers d (pw ∷ watchers) s =
        let rest = try_watchers d watchers s in
        if pw.admin_state == admin_state_locked
        then rest
        else if match_provision_watcher d pw
        then add_candidate (candidate d pw) (Devices.for_name s.devices d.name) s
        else rest

    process_each : List DiscoveredDevice → List (ProvisionWatcher F) → State F → State F
    unfolding try_watchers
    process_each [] watchers s = s
    process_each (d ∷ devices) watchers s =
        process_each devices watchers (try_watchers d watchers s)

    unfoldable pub process_discovered_devices : List DiscoveredDevice → State F → State F
    unfolding process_each
    process_discovered_devices devices s =
        process_each devices (ProvisionWatchers.watchers s.watchers) s
