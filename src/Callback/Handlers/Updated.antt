-- ===== src/Callback/Handlers/Updated.antt =====
-- The callbacks on a device, when they succeed.
use device_sdk_python.Base.{
  ◌≡◌, refl, Bool, true, false, String, Option, none, some, [], ◌==◌, if◌then◌else◌, eq_refl, ◌∙◌,
}
use device_sdk_python.Raise.{Result, ok, EdgexErrorKind}
use device_sdk_python.Model.Metadata.{Device}
use device_sdk_python.Cache.Devices
use device_sdk_python.Cache.Devices.{DeviceCache}
use device_sdk_python.Cache.Devices.Keys
use device_sdk_python.Cache.Devices.After.{for_name-add, for_name-update}
use device_sdk_python.Command.State.{DeviceOptions}
use device_sdk_python.Command.Failures.{allowed_fails}
use device_sdk_python.AutoEvent.Manager
use device_sdk_python.AutoEvent.Manager.{Manager}
use device_sdk_python.AutoEvent.Manager.Restarted.{due}
use device_sdk_python.Callback.State.{
  State, Outside, Container, Handler, Call, ServiceModel, try_devices, on_manager, when, note,
  call_driver, ◌>>◌,
}
use device_sdk_python.Callback.Keeps.{IsConsistent}
use device_sdk_python.Callback.Ensures.{
  Ensures, Ensures->>, Ensures-refused, Ensures-done, Ensures-Keeps, Ensures-when, Ensures-note,
  Ensures-call_driver, Ensures-found, Ensures-here, Ensures-if, Ensures-weaken,
}
use device_sdk_python.Callback.Handlers
use device_sdk_python.Callback.Handlers.Settled.{
  IsSettled, Holds, Holds-Frames, Ensures-try_devices, IsSettled-Frames, Ensures-restart,
  Ensures-stop, Ensures-stop-remove,
}
use device_sdk_python.Callback.Handlers.Consistent

module _ {F : Type 0} (outside : Outside F) (dic : Container)
    (duration : String → Option (Result F)) (changed_only : Bool) where
  abbrev Settles : String → Option (Device F) → Handler F → Type 0
  Settles name o h = Ensures IsConsistent (IsSettled duration changed_only name o) h

  Ensures-start_tracking :
      (name k : String) (o : Option (Device F)) (configuration : Option (Option DeviceOptions))
      → Ensures
          (Holds k o)
          (Holds k o)
          (Handlers.start_tracking outside dic duration changed_only name configuration)
  unfolding Handlers.start_tracking
  Ensures-start_tracking name k o none = Ensures-done
  Ensures-start_tracking name k o (some options) =
      Ensures-when dic.has_tracker
        (Ensures-note (Call.set_failures name (allowed_fails options)) (Holds-Frames k o))

  -- When it succeeds, the cache holds the device, and its auto events are scheduled.
  pub add_device-Settles :
      (device : Device F)
      → Settles device.name
          (some device)
          (Handlers.add_device outside dic duration changed_only device)
  unfolding Handlers.add_device
  add_device-Settles device =
      let held = Holds-Frames device.name (some device) in
      Ensures->>
        (Ensures->>
          (Ensures->>
            (Ensures->>
              (Ensures-Keeps (
                Consistent.sync_profile-Keeps outside dic duration changed_only
                  device.profile_name))
              (Ensures-try_devices EdgexErrorKind.server_error (λ c. Devices.add c device)
                device.name (some device) (λ c v. Keys.add-IsValid c device v)
                (λ c e. for_name-add c device device.name e ∙ rw eq_refl refl)))
            (Ensures-call_driver outside
              (Call.add_device device.name device.protocols device.admin_state) held))
          (Ensures-start_tracking device.name device.name (some device) dic.configuration))
        (Ensures-restart duration changed_only outside dic device.name (some device))

  delete_found-Settles :
      (name : String) (device : Device F)
      → Settles name none (
          on_manager (Manager.stop_for_device name)
          >> try_devices EdgexErrorKind.server_error (λ c. Devices.remove_by_name c name)
          >> call_driver outside (Call.remove_device name device.protocols)
          >> when dic.has_tracker (note (Call.remove_failures name)))
  delete_found-Settles name device =
      let gone = IsSettled-Frames duration changed_only name none in
      Ensures->>
        (Ensures->> (Ensures-stop-remove duration changed_only EdgexErrorKind.server_error name)
          (Ensures-call_driver outside (Call.remove_device name device.protocols) gone))
        (Ensures-when dic.has_tracker (Ensures-note (Call.remove_failures name) gone))

  -- When it succeeds, the cache holds no device of the name, and no auto event is scheduled.
  pub delete_device-Settles :
      (name : String)
      → Settles name none (Handlers.delete_device outside dic duration changed_only name)
  unfolding Handlers.delete_device
  delete_device-Settles name = Ensures-here _ (λ s v.
      Ensures-found (Devices.for_name s.devices name)
        (Ensures-refused EdgexErrorKind.contract_invalid)
        (λ device. delete_found-Settles name device))

  locked-due :
      (device : Device F)
      → device.admin_state == "LOCKED" ≡ true
      → due duration changed_only (some device) ≡ []
  unfolding due
  locked-due device e = rw e refl

  refresh_device-Settles :
      (device : Device F)
      → Settles device.name
          (some device)
          (Handlers.refresh_device outside dic duration changed_only device)
  unfolding Handlers.refresh_device
  refresh_device-Settles device =
      Ensures->>
        (Ensures->>
          (Ensures->>
            (Ensures-Keeps
              (Consistent.sync_profile-Keeps outside dic duration changed_only device.profile_name))
            (Ensures-try_devices EdgexErrorKind.server_error (λ c. Devices.update c device)
              device.name (some device) (λ c v. Keys.update-IsValid c device v)
              (λ c e. for_name-update c device device.name e ∙ rw eq_refl refl)))
          (Ensures-call_driver outside
            (Call.update_device device.name device.protocols device.admin_state)
            (Holds-Frames device.name (some device))))
        (Ensures-if (device.admin_state == "LOCKED")
          (λ e. Ensures-stop duration changed_only device.name (some device) (locked-due device e))
          (λ _. Ensures-restart duration changed_only outside dic device.name (some device)))

  -- What the cache is to hold of a device after an update.
  abbrev pub kept : Option ServiceModel → Device F → Option (Device F)
  kept service device = if Handlers.is_named service device.service_name then some device else none

  -- The state is consistent, and the service is this one.
  abbrev At : Option ServiceModel → State F → Type 0
  At service s = IsConsistent s × (s.service ≡ service)

  kept-some :
      (s : State F) (service : Option ServiceModel) (device : Device F)
      → s.service ≡ service
      → Handlers.is_named s.service device.service_name ≡ true
      → kept service device ≡ some device
  kept-some s service device same e = rw (← same) (rw e refl)

  kept-none :
      (s : State F) (service : Option ServiceModel) (device : Device F)
      → s.service ≡ service
      → Handlers.is_named s.service device.service_name ≡ false
      → kept service device ≡ none
  kept-none s service device same e = rw (← same) (rw e refl)

  kept-Settles :
      (service : Option ServiceModel) (device : Device F) (o : Option (Device F)) (h : Handler F)
      → kept service device ≡ o
      → Settles device.name o h
      → Ensures (At service) (IsSettled duration changed_only device.name (kept service device)) h
  kept-Settles service device o h e settles = rw e (Ensures-weaken (λ s p. p.0) settles)

  update_device-Ensures :
      (service : Option ServiceModel) (device : Device F)
      → Ensures
          (At service)
          (IsSettled duration changed_only device.name (kept service device))
          (Handlers.update_device outside dic duration changed_only device)
  unfolding Handlers.update_device
  update_device-Ensures service device =
      Ensures-if (device.name == "") (λ _. Ensures-refused EdgexErrorKind.contract_invalid)
        (λ _. Ensures-here _ (λ s p.
          Ensures-found (Devices.for_name s.devices device.name)
            (Ensures-if (Handlers.is_named s.service device.service_name)
              (λ e.
                kept-Settles service device (some device)
                  (Handlers.add_device outside dic duration changed_only device)
                  (kept-some s service device p.1 e) (add_device-Settles device))
              (λ _. Ensures-refused EdgexErrorKind.not_found))
            (λ _.
              Ensures-if (Handlers.is_named s.service device.service_name)
                (λ e.
                  kept-Settles service device (some device)
                    (Handlers.refresh_device outside dic duration changed_only device)
                    (kept-some s service device p.1 e) (refresh_device-Settles device))
                (λ e.
                  kept-Settles service device none
                    (Handlers.delete_device outside dic duration changed_only device.name)
                    (kept-none s service device p.1 e) (delete_device-Settles device.name)))))

  -- An update_device that succeeds leaves the three caches and the manager consistent; the device
  -- cache holds exactly the new device under the name if the device belongs to this service, and no
  -- device of the name if it belongs to another one; and the auto events that the manager, if there
  -- is one, has scheduled for the name are exactly those due for what the cache then holds: none for
  -- a device that is gone, LOCKED or DOWN, else one for each auto event that names a source and has an
  -- interval that can be parsed.
  pub update_device-IsSettled :
      (device : Device F) (s : State F)
      → IsConsistent s
      → (Handlers.update_device outside dic duration changed_only device s).0 ≡ ok tt
      → IsSettled duration changed_only device.name
          (kept s.service device)
          (Handlers.update_device outside dic duration changed_only device s).1
  update_device-IsSettled device s v e = (update_device-Ensures s.service device).at s (v, refl) e
