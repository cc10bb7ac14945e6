-- ===== src/AutoEvent/Manager/Restarted.antt =====
-- What `restart_for_device` schedules: one executor for each auto event that names a source and whose
-- interval can be parsed.
use device_sdk_python.Base.{
  ◌≡◌, refl, Bool, true, false, ◌||◌, String, Option, none, some, List, [], ◌∷◌, ◌++◌, ◌==◌, map,
  if◌then◌else◌, arith, Bool-cases, inl, inr, eq_refl, ◌∙◌, ap, sym, eq_iff,
}
use mathlib.Core.Path.{subst}
use mathlib.Core.List.{append_assoc, append-nil}
use device_sdk_python.Base.Dict
use device_sdk_python.Base.Dict.{Dict, get-put, get-delete, has-get}
use device_sdk_python.Raise.{Result, ok, raise}
use device_sdk_python.Model.Metadata.{Device, AutoEvent}
use device_sdk_python.Cache.Devices
use device_sdk_python.Cache.Devices.{DeviceCache}
use device_sdk_python.Cache.Devices.Keys
use device_sdk_python.AutoEvent.Executor.{Executor, create_executor}
use device_sdk_python.AutoEvent.Manager
use device_sdk_python.AutoEvent.Manager.{Manager, Scheduled, or_empty}
use device_sdk_python.AutoEvent.Manager.Tracked.{listing}

module _ {F : Type 0} (duration : String → Option (Result F)) (changed_only : Bool) where
  abbrev with_created : Result (Executor F) → List (Executor F) → List (Executor F)
  with_created (ok executor) rest = executor ∷ rest
  with_created (raise x) rest = rest

  -- The executors of a device's auto events, in order.
  unfoldable pub executors_of : String → List (AutoEvent F) → List (Executor F)
  executors_of n [] = []
  executors_of n (event ∷ events) =
      let rest = executors_of n events in
      if event.source_name == ""
      then rest
      else with_created (create_executor n event changed_only (duration event.interval)) rest

  -- A locked device and a device that is down get none.
  unfoldable pub due : Option (Device F) → List (Executor F)
  unfolding executors_of
  due none = []
  due (some device) =
      if device.admin_state == "LOCKED" || device.operating_state == "DOWN"
      then []
      else executors_of device.name device.auto_events

  abbrev pub executors_at : Dict (List (Scheduled F)) → String → List (Executor F)
  executors_at d n = map (λ (e : Scheduled F). e.executor) (listing d n)

  map-append-one :
      (es : List (Scheduled F)) (e : Scheduled F)
      → map (λ (x : Scheduled F). x.executor) (es ++ e ∷ [])
        ≡ map (λ (x : Scheduled F). x.executor) es ++ e.executor ∷ []
  map-append-one [] e = refl
  map-append-one (x ∷ es) e = ap (◌∷◌ x.executor) (map-append-one es e)

  start-executors_at :
      (m : Manager F) (n : String) (executor : Executor F)
      → executors_at (Manager.start n executor m).executors n
        ≡ executors_at m.executors n ++ executor ∷ []
  unfolding Manager.start
  start-executors_at m n executor =
      let e : Scheduled F = record { id = m.created; executor = executor } in
      rw (get-put m.executors n n (listing m.executors n ++ e ∷ []), eq_refl)
        (map-append-one (listing m.executors n) e)

  start_created-executors_at :
      (m : Manager F) (n : String) (r : Result (Executor F)) (rest : List (Executor F))
      → executors_at (Manager.start_created n r m).executors n ++ rest
        ≡ executors_at m.executors n ++ with_created r rest
  unfolding Manager.start_created
  start_created-executors_at m n (raise x) rest = refl
  start_created-executors_at m n (ok executor) rest =
      ap (λ es. es ++ rest) (start-executors_at m n executor)
      ∙ append_assoc (executors_at m.executors n) (executor ∷ []) rest

  event-executors_at :
      (blank : Bool) (m : Manager F) (n : String) (r : Result (Executor F))
      (rest : List (Executor F))
      → executors_at (if blank then m else Manager.start_created n r m).executors n ++ rest
        ≡ executors_at m.executors n ++ (if blank then rest else with_created r rest)
  event-executors_at true m n r rest = refl
  event-executors_at false m n r rest = start_created-executors_at m n r rest

  start_events-executors_at :
      (n : String) (events : List (AutoEvent F)) (m : Manager F)
      → executors_at (Manager.start_events duration changed_only n events m).executors n
        ≡ executors_at m.executors n ++ executors_of n events
  unfolding Manager.start_events executors_of
  start_events-executors_at n [] m = sym (append-nil (executors_at m.executors n))
  start_events-executors_at n (event ∷ events) m =
      let created = create_executor n event changed_only (duration event.interval) in
      start_events-executors_at n events
        (if event.source_name == "" then m else Manager.start_created n created m)
      ∙ event-executors_at (event.source_name == "") m n created (executors_of n events)

  entered-executors_at :
      (m : Manager F) (n : String)
      → executors_at (Manager.entered duration changed_only n m).executors n
        ≡ executors_at m.executors n
  unfolding Manager.entered
  entered-executors_at m n =
      ground (arith, get-put m.executors n n [], has-get m.executors n, eq_iff n n)

  start_listed-executors_at :
      (device : Device F) (events : List (AutoEvent F)) (m : Manager F)
      → executors_at m.executors device.name ≡ []
      → executors_at
          (Manager.start_listed duration changed_only device events m).executors
          device.name
        ≡ (if device.admin_state == "LOCKED" || device.operating_state == "DOWN"
            then []
            else executors_of device.name events)
  unfolding Manager.start_listed
  start_listed-executors_at device [] m none_yet =
      elim (Bool-cases (device.admin_state == "LOCKED" || device.operating_state == "DOWN")) [
        | inl out ↦ rw out none_yet
        | inr served ↦ rw served (none_yet ∙ unfold executors_of in refl)
      ]
  start_listed-executors_at device (event ∷ events) m none_yet =
      elim (Bool-cases (device.admin_state == "LOCKED" || device.operating_state == "DOWN")) [
        | inl out ↦ rw out none_yet
        | inr served ↦ rw served (
            start_events-executors_at device.name (event ∷ events)
              (Manager.entered duration changed_only device.name m)
            ∙ ap (λ es. es ++ executors_of device.name (event ∷ events))
                (entered-executors_at m device.name ∙ none_yet))
      ]

  found-executors_at :
      (found : Option (Device F)) (m : Manager F) (n : String)
      → ((device : Device F) → found ≡ some device → device.name ≡ n)
      → executors_at m.executors n ≡ []
      → executors_at (Manager.start_found duration changed_only found m).executors n ≡ due found
  unfolding Manager.start_found Manager.start_for_device due
  found-executors_at none m n named none_yet = none_yet
  found-executors_at (some device) m n named none_yet =
      let e = named device refl in
      subst
        (λ k.
          executors_at
            (Manager.start_listed duration changed_only device device.auto_events m).executors k
          ≡ (if device.admin_state == "LOCKED" || device.operating_state == "DOWN"
              then []
              else executors_of device.name device.auto_events))
        e
        (start_listed-executors_at device device.auto_events m
          (subst (λ k. executors_at m.executors k ≡ []) (sym e) none_yet))

  pub stop-executors_at :
      (m : Manager F) (n : String) → executors_at (Manager.stop_for_device n m).executors n ≡ []
  unfolding Manager.stop_for_device
  stop-executors_at m n = rw (get-delete m.executors n n, eq_refl) refl

  -- Whatever was scheduled before, on a valid device cache restart_for_device leaves the manager with
  -- these executors for the device, in order: none if the cache does not hold the device, or the
  -- device is LOCKED or DOWN; else one for each auto event that names a source and has an interval
  -- that can be parsed.
  pub restart_for_device-due :
      (devices : DeviceCache F) (device_name : String) (m : Manager F)
      → Keys.IsValid devices
      → executors_at
          (Manager.restart_for_device duration changed_only devices device_name m).executors
          device_name
        ≡ due (Devices.for_name devices device_name)
  unfolding Manager.restart_for_device Devices.for_name
  restart_for_device-due devices n m v =
      found-executors_at (Dict.get devices.device_map n) (Manager.stop_for_device n m) n
        (λ device e. v.named n device e) (stop-executors_at m n)
