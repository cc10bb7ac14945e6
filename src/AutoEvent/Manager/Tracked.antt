-- ===== src/AutoEvent/Manager/Tracked.antt =====
-- The invariant of the manager: every thread whose stop event is not set belongs to an executor that the
-- map lists for its device, so that it can be stopped.
use device_sdk_python.Base.{
  ℕ, ◌≡◌, ◌≢◌, refl, Bool, true, false, ◌||◌, String, Option, none, some, List, [], ◌∷◌, ◌++◌, ◌==◌,
  nat_eq, any, All, All-imp, arith, Bool-cases, inl, inr, sym, ap, eq_iff,
}
use mathlib.Core.Path.{subst}
use device_sdk_python.Base.Dict
use device_sdk_python.Base.Dict.{Dict, get-put, get-delete, has-get}
use device_sdk_python.Raise.{Result, ok, raise, ok-injective}
use device_sdk_python.Model.Metadata.{Device, AutoEvent}
use device_sdk_python.Cache.Devices
use device_sdk_python.Cache.Devices.{DeviceCache}
use device_sdk_python.AutoEvent.Executor.{Executor, create_executor}
use device_sdk_python.AutoEvent.Manager
use device_sdk_python.AutoEvent.Manager.{Manager, Scheduled, Thread, or_empty}

module _ {F : Type 0} where
  abbrev pub listed : ℕ → List (Scheduled F) → Bool
  listed id es = any (λ (e : Scheduled F). nat_eq id e.id) es

  -- what the map lists for a device
  abbrev pub listing : Dict (List (Scheduled F)) → String → List (Scheduled F)
  listing executors device_name = or_empty (Dict.get executors device_name)

  abbrev pub ListedIn : Dict (List (Scheduled F)) → Scheduled F → Type 0
  ListedIn executors t = listed t.id (listing executors t.executor.device_name) ≡ true

  -- what holds of the executors of all threads whose stop event is not set
  abbrev pub Live : (Scheduled F → Type 0) → List (Thread F) → Type 0
  Live R ts = All (λ t. t.stop_event ≡ false → R t.scheduled) ts

  pub Live-imp :
      {R Q : Scheduled F → Type 0} (ts : List (Thread F))
      → ((e : Scheduled F) → R e → Q e)
      → Live R ts
      → Live Q ts
  Live-imp ts f h = All-imp ts (λ t p unset. f t.scheduled (p unset)) h

  pub record IsTracked (m : Manager F) : Type 0 where
    pub tracked : Live (ListedIn m.executors) m.threads

  listed-append :
      (id : ℕ) (es more : List (Scheduled F)) → listed id es ≡ true → listed id (es ++ more) ≡ true
  listed-append id [] more h = cc
  listed-append id (e ∷ es) more h = ground (arith, listed-append id es more)

  listed-last :
      (id : ℕ) (es : List (Scheduled F)) (e : Scheduled F)
      → e.id ≡ id
      → listed id (es ++ e ∷ []) ≡ true
  listed-last id [] e h = ground arith
  listed-last id (x ∷ es) e h = ground (arith, listed-last id es e)

  ListedIn-delete :
      (d : Dict (List (Scheduled F))) (n : String) (t : Scheduled F)
      → ListedIn d t
      → t.executor.device_name ≢ n
      → ListedIn (Dict.delete d n) t
  ListedIn-delete d n t h other = elim (Bool-cases (n == t.executor.device_name)) [
    | inl same ↦ absurd (other (sym ((eq_iff n t.executor.device_name).0 same)))
    | inr e ↦ rw (get-delete d n t.executor.device_name, e) h
  ]

  -- A longer list in the place of a device's list keeps what it lists.
  ListedIn-put :
      (d : Dict (List (Scheduled F))) (n : String) (more : List (Scheduled F)) (t : Scheduled F)
      → ListedIn d t
      → ListedIn (Dict.put d n (listing d n ++ more)) t
  ListedIn-put d n more t h = elim (Bool-cases (n == t.executor.device_name)) [
    | inl same ↦
        rw (get-put d n t.executor.device_name (listing d n ++ more), same)
          (listed-append t.id (listing d n) more (
            subst (λ k. listed t.id (listing d k) ≡ true)
              (sym ((eq_iff n t.executor.device_name).0 same)) h))
    | inr e ↦ rw (get-put d n t.executor.device_name (listing d n ++ more), e) h
  ]

  stop-Live :
      (R : Scheduled F → Type 0) (e : Scheduled F) (ts : List (Thread F))
      → Live R ts
      → Live (λ x. R x × (nat_eq x.id e.id ≡ false)) (Manager.stop e ts)
  unfolding Manager.stop
  stop-Live R e [] h = tt
  stop-Live R e (t ∷ ts) (p, h) = elim (Bool-cases (nat_eq t.scheduled.id e.id)) [
    | inl same ↦ rw same (λ unset. cc, stop-Live R e ts h)
    | inr other ↦ rw other (λ unset. (p unset, other), stop-Live R e ts h)
  ]

  pub stop_each-Live :
      (R : Scheduled F → Type 0) (es : List (Scheduled F)) (ts : List (Thread F))
      → Live R ts
      → Live (λ x. R x × (listed x.id es ≡ false)) (Manager.stop_each es ts)
  unfolding Manager.stop_each
  stop_each-Live R [] ts h = Live-imp ts (λ x p. (p, refl)) h
  stop_each-Live R (e ∷ es) ts h =
      Live-imp (Manager.stop_each es (Manager.stop e ts)) (λ x q. (q.0.0, rw (q.0.1, q.1) refl))
        (stop_each-Live (λ x. R x × (nat_eq x.id e.id ≡ false)) es (Manager.stop e ts)
          (stop-Live R e ts h))

  -- After `stop_for_device` the stop event of every thread of the device is set, and the other threads
  -- are listed still.
  pub stop_for_device-IsTracked :
      (m : Manager F) (device_name : String)
      → IsTracked m
      → IsTracked (Manager.stop_for_device device_name m)
        × Live
            (λ x. x.executor.device_name ≢ device_name)
            (Manager.stop_for_device device_name m).threads
  unfolding Manager.stop_for_device
  stop_for_device-IsTracked m n v =
      let es = listing m.executors n in
      let left = stop_each-Live (ListedIn m.executors) es m.threads v.tracked in
      let gone =
        Live-imp {Q = λ x. ListedIn m.executors x × (x.executor.device_name ≢ n)}
          (Manager.stop_each es m.threads)
          (λ x q.
            (q.0, λ same. cc (q.0, q.1, ap (λ name. listed x.id (listing m.executors name)) same)))
          left in
      (
        record {
          tracked =
              Live-imp (Manager.stop_each es m.threads)
                (λ x q. ListedIn-delete m.executors n x q.0 q.1) gone;
        },
        Live-imp (Manager.stop_each es m.threads) (λ x q. q.1) gone,
      )

  start-IsTracked :
      (m : Manager F) (n : String) (executor : Executor F)
      → executor.device_name ≡ n
      → IsTracked m
      → IsTracked (Manager.start n executor m)
  unfolding Manager.start
  start-IsTracked m n executor named v =
      let e : Scheduled F = record { id = m.created; executor = executor } in
      record {
        tracked = (
          λ unset.
              rw
                (
                  get-put m.executors n executor.device_name (listing m.executors n ++ e ∷ []),
                  (eq_iff n executor.device_name).1 (sym named),
                )
                (listed-last m.created (listing m.executors n) e refl),
          Live-imp m.threads (λ x h. ListedIn-put m.executors n (e ∷ []) x h) v.tracked,
        );
      }

  -- An empty list that is new takes nothing away.
  ListedIn-enter :
      (d : Dict (List (Scheduled F))) (n : String) (t : Scheduled F)
      → Dict.has d n ≡ false
      → ListedIn d t
      → ListedIn (Dict.put d n []) t
  ListedIn-enter d n t new h =
      ground
        (arith, get-put d n t.executor.device_name [], has-get d n, eq_iff n t.executor.device_name)

  entered-IsTracked :
      (duration : String → Option (Result F)) (changed_only : Bool) (m : Manager F) (n : String)
      → IsTracked m
      → IsTracked (Manager.entered duration changed_only n m)
  unfolding Manager.entered
  entered-IsTracked duration changed_only m n v = elim (Bool-cases (Dict.has m.executors n)) [
    | inl old ↦ rw old v
    | inr new ↦ rw new (record {
      tracked = Live-imp m.threads (λ x h. ListedIn-enter m.executors n x new h) v.tracked;
    })
  ]

  create_executor-named :
      (n : String) (event : AutoEvent F) (changed_only : Bool) (interval : Option (Result F))
      {executor : Executor F}
      → create_executor n event changed_only interval ≡ ok executor
      → executor.device_name ≡ n
  unfolding create_executor
  create_executor-named n event changed_only none h = cc
  create_executor-named n event changed_only (some (raise x)) h = cc
  create_executor-named n event changed_only (some (ok seconds)) h =
      sym (ap (λ (e : Executor F). e.device_name) (ok-injective h))

  start_created-IsTracked :
      (m : Manager F) (n : String) (r : Result (Executor F))
      → ((executor : Executor F) → r ≡ ok executor → executor.device_name ≡ n)
      → IsTracked m
      → IsTracked (Manager.start_created n r m)
  unfolding Manager.start_created
  start_created-IsTracked m n (raise x) h v = v
  start_created-IsTracked m n (ok executor) h v = start-IsTracked m n executor (h executor refl) v

  module _ (duration : String → Option (Result F)) (changed_only : Bool) where
    start_events-IsTracked :
        (n : String) (events : List (AutoEvent F)) (m : Manager F)
        → IsTracked m
        → IsTracked (Manager.start_events duration changed_only n events m)
    unfolding Manager.start_events
    start_events-IsTracked n [] m v = v
    start_events-IsTracked n (event ∷ events) m v = elim (Bool-cases (event.source_name == "")) [
      | inl blank ↦ rw blank (start_events-IsTracked n events m v)
      | inr named ↦
          let created = create_executor n event changed_only (duration event.interval) in
          rw named (
            start_events-IsTracked n events (Manager.start_created n created m) (
              start_created-IsTracked m n created
                (λ executor e.
                  create_executor-named n event changed_only (duration event.interval) e)
                v))
    ]

    start_listed-IsTracked :
        (device : Device F) (events : List (AutoEvent F)) (m : Manager F)
        → IsTracked m
        → IsTracked (Manager.start_listed duration changed_only device events m)
    unfolding Manager.start_listed
    start_listed-IsTracked device [] m v = v
    start_listed-IsTracked device (event ∷ events) m v =
        elim (Bool-cases (device.admin_state == "LOCKED" || device.operating_state == "DOWN")) [
          | inl out ↦ rw out v
          | inr served ↦ rw served (
              start_events-IsTracked device.name (event ∷ events)
                (Manager.entered duration changed_only device.name m)
                (entered-IsTracked duration changed_only m device.name v))
        ]

    start_found-IsTracked :
        (device : Option (Device F)) (m : Manager F)
        → IsTracked m
        → IsTracked (Manager.start_found duration changed_only device m)
    unfolding Manager.start_found Manager.start_for_device
    start_found-IsTracked none m v = v
    start_found-IsTracked (some device) m v = start_listed-IsTracked device device.auto_events m v

    pub restart_for_device-IsTracked :
        (devices : DeviceCache F) (device_name : String) (m : Manager F)
        → IsTracked m
        → IsTracked (Manager.restart_for_device duration changed_only devices device_name m)
    unfolding Manager.restart_for_device
    restart_for_device-IsTracked devices n m v =
        start_found-IsTracked (Devices.for_name devices n) (Manager.stop_for_device n m)
          (stop_for_device-IsTracked m n v).0

    start_all-IsTracked :
        (devices : List (Device F)) (m : Manager F)
        → IsTracked m
        → IsTracked (Manager.start_all duration changed_only devices m)
    unfolding Manager.start_all Manager.start_for_device
    start_all-IsTracked [] m v = v
    start_all-IsTracked (device ∷ devices) m v =
        start_all-IsTracked devices (Manager.start_for_device duration changed_only device m)
          (start_listed-IsTracked device device.auto_events m v)

    -- When no thread has been started, as before the first start.
    pub start_auto_events-IsTracked :
        (devices : DeviceCache F) (m : Manager F)
        → m.threads ≡ []
        → IsTracked (Manager.start_auto_events duration changed_only devices m)
    unfolding Manager.start_auto_events
    start_auto_events-IsTracked devices m idle =
        start_all-IsTracked (Devices.devices devices) (record m { executors = [] })
          (record { tracked = rw idle tt })
