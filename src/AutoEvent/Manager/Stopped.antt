-- ===== src/AutoEvent/Manager/Stopped.antt =====
-- Whatever the manager has been asked to do, `stop_all` reaches all threads that have been started.
use device_sdk_python.Base.{
  ℕ, ◌≡◌, refl, Bool, true, String, Option, List, [], ◌∷◌, any, All, All-imp, Bool-cases, inl, inr,
  arith,
}
use device_sdk_python.Base.Dict
use device_sdk_python.Base.Dict.{Dict}
use device_sdk_python.Raise.{Result}
use device_sdk_python.Cache.Devices.{DeviceCache}
use device_sdk_python.AutoEvent.Manager
use device_sdk_python.AutoEvent.Manager.{Manager, Scheduled, Thread, or_empty}
use device_sdk_python.AutoEvent.Manager.Tracked.{
  IsTracked, Live, Live-imp, ListedIn, listed, stop_each-Live, stop_for_device-IsTracked,
  restart_for_device-IsTracked, start_auto_events-IsTracked,
}

-- A call of one of the methods, with the device cache that it finds.
pub data Call (F : Type 0) : Type 0 where
  restart_for_device : DeviceCache F → String → Call F
  stop_for_device : String → Call F
  stop_all : Call F

-- What can be stopped.
pub record Stops {F : Type 0} (device_name : String) (m : Manager F) : Type 0 where
  pub tracked : IsTracked m
  pub device :
      All
        (λ t. t.scheduled.executor.device_name ≡ device_name → t.stop_event ≡ true)
        (Manager.stop_for_device device_name m).threads
  pub everything : All (λ t. t.stop_event ≡ true) (Manager.stop_all m).threads

module _ {F : Type 0} where
  abbrev covered : ℕ → List (List (Scheduled F)) → Bool
  covered id entries = any (λ (es : List (Scheduled F)). listed id es) entries

  stop_entries-set :
      (entries : List (List (Scheduled F))) (ts : List (Thread F))
      → Live (λ x. covered x.id entries ≡ true) ts
      → All (λ t. t.stop_event ≡ true) (Manager.stop_entries entries ts)
  unfolding Manager.stop_entries
  stop_entries-set [] ts h = All-imp ts (λ t p. ground (arith, p)) h
  stop_entries-set (es ∷ entries) ts h = stop_entries-set entries (Manager.stop_each es ts) (
      Live-imp (Manager.stop_each es ts) (λ x q. ground (arith, q.0, q.1))
        (stop_each-Live (λ x. covered x.id (es ∷ entries) ≡ true) es ts h))

  covered-get :
      (d : Dict (List (Scheduled F))) (id : ℕ) (name : String)
      → listed id (or_empty (Dict.get d name)) ≡ true
      → covered id (Dict.values d) ≡ true
  unfolding Dict.get Dict.values
  covered-get [] id name h = cc
  covered-get ((k, es) ∷ d) id name h = ground (arith, covered-get d id name)

  stop_all-set :
      (m : Manager F) → IsTracked m → All (λ t. t.stop_event ≡ true) (Manager.stop_all m).threads
  unfolding Manager.stop_all
  stop_all-set m v =
      stop_entries-set (Dict.values m.executors) m.threads (
        Live-imp m.threads (λ x h. covered-get m.executors x.id x.executor.device_name h) v.tracked)

  -- A thread whose stop event is set has nothing to be tracked.
  set-Live :
      (R : Scheduled F → Type 0) (ts : List (Thread F))
      → All (λ t. t.stop_event ≡ true) ts
      → Live R ts
  set-Live R ts h = All-imp ts (λ t p unset. cc) h

  module _ (duration : String → Option (Result F)) (changed_only : Bool) where
    unfoldable pub step : Manager F → Call F → Manager F
    step m (Call.restart_for_device devices device_name) =
        Manager.restart_for_device duration changed_only devices device_name m
    step m (Call.stop_for_device device_name) = Manager.stop_for_device device_name m
    step m Call.stop_all = Manager.stop_all m

    unfoldable pub run : Manager F → List (Call F) → Manager F
    unfolding step
    run m [] = m
    run m (call ∷ calls) = run (step m call) calls

    step-IsTracked : (m : Manager F) (call : Call F) → IsTracked m → IsTracked (step m call)
    unfolding step
    step-IsTracked m (Call.restart_for_device devices n) v =
        restart_for_device-IsTracked duration changed_only devices n m v
    step-IsTracked m (Call.stop_for_device n) v = (stop_for_device-IsTracked m n v).0
    step-IsTracked m Call.stop_all v = record {
      tracked =
          set-Live (ListedIn (Manager.stop_all m).executors) (Manager.stop_all m).threads
            (stop_all-set m v);
    }

    pub run-IsTracked :
        (calls : List (Call F)) (m : Manager F) → IsTracked m → IsTracked (run m calls)
    unfolding run
    run-IsTracked [] m v = v
    run-IsTracked (call ∷ calls) m v = run-IsTracked calls (step m call) (step-IsTracked m call v)

    -- After the start of the auto events and any calls of restart_for_device, stop_for_device and
    -- stop_all, each with any device cache, every thread that has been started and whose stop event is
    -- not set is listed in the map for its device; stop_for_device sets the stop events of all threads
    -- of its device, and stop_all those of all threads.
    pub run-Stops :
        (devices : DeviceCache F) (calls : List (Call F)) (device_name : String)
        → Stops device_name
            (run (Manager.start_auto_events duration changed_only devices Manager.empty) calls)
    run-Stops devices calls n =
        let m = run (Manager.start_auto_events duration changed_only devices Manager.empty) calls in
        let v =
          run-IsTracked calls
            (Manager.start_auto_events duration changed_only devices Manager.empty)
            (start_auto_events-IsTracked duration changed_only devices Manager.empty refl) in
        record {
          tracked = v;
          device =
              All-imp (Manager.stop_for_device n m).threads
                (λ t other same. elim (Bool-cases t.stop_event) [
                  | inl set ↦ set
                  | inr unset ↦ absurd (other unset same)
                ])
                (stop_for_device-IsTracked m n v).1;
          everything = stop_all-set m v;
        }
