-- ===== src/Transformer/Event/Readings.antt =====
-- What an event holds: one reading for each value that the driver returned, in the driver's order.
use mathlib.Core.Path.{subst}
use mathlib.Core.List.{map-append, append_assoc, append-nil}
use device_sdk_python.Base.{
  ℕ, ◌≡◌, refl, sym, ap, ◌∙◌, Bool, String, Option, none, some, List, [], ◌∷◌, ◌++◌, map, arith,
  All, All-append, Bool-cases, inl, inr,
}
use device_sdk_python.Base.Int.{ℤ}
use device_sdk_python.Raise.{Result, Exn, ok, raise, transformer_error, ◌>>◌, ok-injective, Returns}
use device_sdk_python.Floats.{Floats}
use device_sdk_python.Model.Metadata.{Device, DeviceResource}
use device_sdk_python.Model.CommandValue.{CommandValue}
use device_sdk_python.Cache.Devices
use device_sdk_python.Cache.Devices.{DeviceCache}
use device_sdk_python.Cache.Profiles.{DeviceProfileCache}
use device_sdk_python.Transformer.ReadResult.{check_assertion}
use device_sdk_python.Transformer.Event
use device_sdk_python.Transformer.Event.{Gathered, Event, command_values_to_event}
use device_sdk_python.Transformer.Reading.{Reading}
use device_sdk_python.Transformer.Event.Rounds.{Named, OneMore, outgoing-Named, gather-OneMore}

-- The values of a list that are there.
pub present {ℓ} : {A : Type ℓ} → List (Option A) → List A
present [] = []
present (none ∷ xs) = present xs
present (some x ∷ xs) = x ∷ present xs

module _ {F : Type 0} where
  -- The resources that readings are of, and the values of a driver are for.
  abbrev pub resources_of : List (Reading F) → List String
  resources_of = map (λ r. r.resource_name)

  abbrev pub resources_for : List (CommandValue F) → List String
  resources_for = map (λ cv. cv.device_resource_name)

  -- The reading is of the device.
  abbrev pub FromDevice : Device F → Reading F → Type 0
  FromDevice device r = (r.device_name ≡ device.name) × (r.profile_name ≡ device.profile_name)

module _ (fl : Floats) (uuid : ℕ → String) where
  open fl use {Float}

  module _ (profiles : DeviceProfileCache Float) (device : Device Float) (reading_units : Bool)
      (origin : ℤ) where
    raised : {A : Type 0} (r : Result (Unit {0})) (x : Exn) {a : A} → (r >> raise x) ≡ ok a → ⊥
    raised (ok u) x e = cc
    raised (raise y) x e = cc

    asserted-ok :
        {A : Type 0} (devices : DeviceCache Float) (r : Result (Unit {0})) (next : Result A) {a : A}
        {devices' : DeviceCache Float}
        → Event.asserted fl uuid devices device r next ≡ (ok a, devices')
        → (next ≡ ok a) × (devices' ≡ devices)
    unfolding Event.asserted
    asserted-ok devices (ok u) next e = (ap (λ p. p.0) e, sym (ap (λ p. p.1) e))
    asserted-ok devices (raise Exn.transformer_error) next e = absurd (
        raised (Devices.update_operating_state devices device.name "DISABLED").0 transformer_error
          (ap (λ p. p.0) e))
    asserted-ok devices (raise x) next e = cc

    assert_then-OneMore :
        (devices : DeviceCache Float) (g : Gathered Float) (dr : DeviceResource Float)
        (name : String) (o : Result (CommandValue Float × Bool)) {g' : Gathered Float}
        {devices' : DeviceCache Float}
        → Returns (λ p. Named fl uuid name p.0) o
        → Event.assert_then fl uuid profiles devices device reading_units origin g dr o
          ≡ (ok g', devices')
        → OneMore fl uuid device g name g' × (devices' ≡ devices)
    unfolding Event.assert_then
    assert_then-OneMore devices g dr name (ok (cv, fine)) {g'} h e =
        let (got, same) = asserted-ok devices (check_assertion fl cv dr.properties.assertion) _ e in
        (
          (gather-OneMore fl uuid profiles device reading_units origin g dr cv fine name
                (h.at (cv, fine) refl)).at
              g' got,
          same,
        )
    assert_then-OneMore devices g dr name (raise x) h e = cc

    round-OneMore :
        (devices : DeviceCache Float) (data_transform : Bool) (g : Gathered Float)
        (cv : CommandValue Float) (found : Option (DeviceResource Float)) {g' : Gathered Float}
        {devices' : DeviceCache Float}
        → Event.round fl uuid profiles devices device data_transform reading_units origin g cv found
          ≡ (ok g', devices')
        → OneMore fl uuid device g cv.device_resource_name g' × (devices' ≡ devices)
    unfolding Event.round
    round-OneMore devices dt g cv none e = cc
    round-OneMore devices dt g cv (some dr) e =
        assert_then-OneMore devices g dr cv.device_resource_name _ (outgoing-Named fl uuid dt dr cv)
          e

    next_round-ok :
        (x : Result (Gathered Float) × DeviceCache Float)
        (next : Gathered Float → DeviceCache Float → Result (Gathered Float) × DeviceCache Float)
        {g' : Gathered Float} {devices' : DeviceCache Float}
        → Event.next_round fl uuid x next ≡ (ok g', devices')
        → (g : Gathered Float) × (devices : DeviceCache Float) × (x ≡ (ok g, devices))
          × (next g devices ≡ (ok g', devices'))
    unfolding Event.next_round
    next_round-ok (ok g, devices) next e = (g, devices, refl, e)
    next_round-ok (raise x, devices) next e = cc

    gather_all-readings :
        (data_transform : Bool) (cvs : List (Option (CommandValue Float))) (g : Gathered Float)
        (devices : DeviceCache Float) {g' : Gathered Float} {devices' : DeviceCache Float}
        → Event.gather_all fl uuid profiles device data_transform reading_units origin cvs g devices
          ≡ (ok g', devices')
        → All (FromDevice device) g.readings
        → (resources_of g'.readings ≡ resources_of g.readings ++ resources_for (present cvs))
          × All (FromDevice device) g'.readings
          × (devices' ≡ devices)
    unfolding Event.gather_all present
    gather_all-readings dt [] g devices {g'} {devices'} e h =
        let same : g ≡ g' = ok-injective (ap (λ p. p.0) e) in
        (
          ap (λ x. resources_of x.readings) (sym same) ∙ sym (append-nil (resources_of g.readings)),
          subst (λ x. All (FromDevice device) x.readings) same h,
          sym (ap (λ p. p.1) e),
        )
    gather_all-readings dt (none ∷ cvs) g devices e h = gather_all-readings dt cvs g devices e h
    gather_all-readings dt (some cv ∷ cvs) g devices {g'} {devices'} e h =
        let (g₁, devices₁, first, rest) = next_round-ok _ _ e in
        let ((r, added, (of_name, of_device, of_profile)), same) =
          round-OneMore devices dt g cv _ first in
        let held : All (FromDevice device) g₁.readings =
          subst (All (FromDevice device)) (sym added)
            (All-append (FromDevice device) g.readings (r ∷ []) h ((of_device, of_profile), tt)) in
        let (names, all, same') = gather_all-readings dt cvs g₁ devices₁ rest held in
        (
          names
              ∙ ap (λ l. l ++ resources_for (present cvs))
                  (ap resources_of added ∙ map-append (λ x. x.resource_name) g.readings (r ∷ []))
              ∙ append_assoc (resources_of g.readings) (r.resource_name ∷ [])
                  (resources_for (present cvs))
              ∙ ap (λ n. resources_of g.readings ++ n ∷ resources_for (present cvs)) of_name,
          all,
          same' ∙ same,
        )

    some-injective : {A : Type 0} {a b : A} → some a ≡ some b → a ≡ b
    some-injective e = cc

    -- The event has the readings that were gathered, and the names of its device.
    abbrev IsEventOf : String → Gathered Float → Event Float → Type 0
    IsEventOf source_name g ev =
        (ev.readings ≡ g.readings)
        × (ev.device_name ≡ device.name)
        × (ev.profile_name ≡ device.profile_name)
        × (ev.source_name ≡ source_name)
        × (ev.origin ≡ origin)

    event_with-IsEventOf :
        (source_name : String) (g : Gathered Float) (rs : List (Reading Float)) {ev : Event Float}
        → Event.event_with fl uuid device source_name origin g rs ≡ some ev
        → IsEventOf source_name g ev
    unfolding Event.event_with
    event_with-IsEventOf source_name g [] e = cc
    event_with-IsEventOf source_name g (r ∷ rs) {ev} e =
        subst (IsEventOf source_name g) (some-injective e) (refl, refl, refl, refl, refl)

    event_of-IsEventOf :
        (source_name : String) (g : Gathered Float) {ev : Event Float}
        → Event.event_of fl uuid device source_name origin g ≡ ok (some ev)
        → IsEventOf source_name g ev
    unfolding Event.event_of
    event_of-IsEventOf source_name g {ev} e =
        event_with-IsEventOf source_name g g.readings {ev = ev}
          (elim (Bool-cases g.transforms_ok) [ inl h ↦ ground arith | inr h ↦ ground arith ])

    finish-IsEventOf :
        (source_name : String) (x : Result (Gathered Float) × DeviceCache Float) {ev : Event Float}
        {devices' : DeviceCache Float}
        → Event.finish fl uuid device source_name origin x ≡ (ok (some ev), devices')
        → (g : Gathered Float) × (x ≡ (ok g, devices')) × IsEventOf source_name g ev
    unfolding Event.finish
    finish-IsEventOf source_name (ok g, devices) e = (
      g,
      ap (λ d. (ok g, d)) (ap (λ p. p.1) e),
      event_of-IsEventOf source_name g (ap (λ p. p.0) e),
    )
    finish-IsEventOf source_name (raise x, devices) e = cc

  -- The event is of the device, and its readings are those of the values.
  abbrev pub IsEventFor :
      String → ℤ → List (CommandValue Float) → Device Float → Event Float → Type 0
  IsEventFor source_name origin cvs device ev =
      (resources_of ev.readings ≡ resources_for cvs)
      × All (FromDevice device) ev.readings
      × (ev.device_name ≡ device.name)
      × (ev.profile_name ≡ device.profile_name)
      × (ev.source_name ≡ source_name)
      × (ev.origin ≡ origin)

  for_device-readings :
      (profiles : DeviceProfileCache Float) (devices : DeviceCache Float)
      (cvs : List (Option (CommandValue Float))) (source_name : String)
      (data_transform reading_units : Bool) (origin : ℤ) (found : Option (Device Float))
      {ev : Event Float} {devices' : DeviceCache Float}
      → Event.for_device fl uuid profiles devices cvs source_name data_transform reading_units
          origin found
        ≡ (ok (some ev), devices')
      → (device : Device Float) × (found ≡ some device)
        × (devices' ≡ devices)
        × IsEventFor source_name origin (present cvs) device ev
  unfolding Event.for_device
  for_device-readings profiles devices cvs source_name dt ru origin none e = cc
  for_device-readings profiles devices cvs source_name dt ru origin (some device) e =
      let (g, gathered, (of_readings, of_device, of_profile, of_source, of_origin)) =
        finish-IsEventOf profiles device ru origin source_name _ e in
      let (resources, from, same) =
        gather_all-readings profiles device ru origin dt cvs _ devices gathered tt in
      (
        device,
        refl,
        same,
        (
          ap resources_of of_readings ∙ resources,
          subst (All (FromDevice device)) (sym of_readings) from,
          of_device,
          of_profile,
          of_source,
          of_origin,
        ),
      )

  -- When `command_values_to_event` returns an event for values of a device, the cache holds the
  -- device and is left as it was, and the event has one reading for each value that is not `None`,
  -- in the order of the values and of the resource the value is for (whether it was transformed,
  -- replaced by "overflow" or "NaN", or mapped). The readings and the event name the device and its
  -- profile, and the event the source and the origin of the call.
  pub command_values_to_event-readings :
      (profiles : DeviceProfileCache Float) (devices : DeviceCache Float)
      (cvs : List (Option (CommandValue Float))) (device_name source_name : String)
      (data_transform reading_units : Bool) (origin : ℤ) (ev : Event Float)
      (devices' : DeviceCache Float)
      → command_values_to_event fl uuid profiles devices
          (some cvs)
          device_name
          source_name
          data_transform
          reading_units
          origin
        ≡ (ok (some ev), devices')
      → (device : Device Float) × (Devices.for_name devices device_name ≡ some device)
        × (devices' ≡ devices)
        × IsEventFor source_name origin (present cvs) device ev
  unfolding command_values_to_event
  command_values_to_event-readings profiles devices cvs device_name source_name dt ru origin ev
        devices' e =
      for_device-readings profiles devices cvs source_name dt ru origin _ e
