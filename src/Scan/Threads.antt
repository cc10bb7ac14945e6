-- ===== src/Scan/Threads.antt =====
-- Threads that run `profile_scan_wrapper` at the same time, in any order of their steps.
use device_sdk_python.Base.{
  ℕ, zero, suc, ◌+◌, ◌≡◌, refl, ◌≤◌, Bool, true, false, ◌&&◌, String, Option, none, some, List, [],
  ◌∷◌, ◌==◌, map, arith, Bool-cases, inl, inr, eq_iff,
}
use device_sdk_python.Base.Dict
use device_sdk_python.Base.Dict.{Dict, get-put}
use device_sdk_python.Scan.Locker.{is_busy, acquire, release}
use device_sdk_python.Scan.Wrapper
use device_sdk_python.Scan.Wrapper.{
  State, Outside, ProfileScanRequest, scan, acquire_for, release_for, scan-busy_map,
}

-- Where a thread is: before `acquire`, before the scan, before `release`, or at the end.
pub data Phase : Type 0 where
  called acquired scanned ended : Phase

pub record Thread (F : Type 0) : Type 0 where
  pub request : ProfileScanRequest F
  pub phase : Phase

pub record System (F : Type 0) : Type 0 where
  pub state : State F
  pub threads : List (Thread F)

-- A thread has the lock.
abbrev pub holds : Phase → Bool
holds Phase.called = false
holds Phase.acquired = true
holds Phase.scanned = true
holds Phase.ended = false

abbrev pub one_if : Bool → ℕ
one_if true = 1
one_if false = 0

module _ {F : Type 0} where
  -- the thread counts for a device if it has the lock of that device
  abbrev pub counts : String → Thread F → ℕ
  counts name t = one_if (holds t.phase && t.request.device_name == name)

  unfoldable pub holders : String → List (Thread F) → ℕ
  holders name [] = 0
  holders name (t ∷ ts) = counts name t + holders name ts

  nth : ℕ → List (Thread F) → Option (Thread F)
  nth n [] = none
  nth zero (t ∷ ts) = some t
  nth (suc n) (t ∷ ts) = nth n ts

  put_at : ℕ → Thread F → List (Thread F) → List (Thread F)
  put_at n t [] = []
  put_at zero t (u ∷ ts) = t ∷ ts
  put_at (suc n) t (u ∷ ts) = u ∷ put_at n t ts

  entered : Thread F → Bool × State F → State F × Thread F
  entered t (false, s) = (s, record t { phase = Phase.ended })
  entered t (true, s) = (s, record t { phase = Phase.acquired })

  -- one step of a thread
  advance : Outside F → State F → Thread F → Phase → State F × Thread F
  unfolding entered acquire_for
  advance outside s t Phase.called = entered t (acquire_for t.request s)
  advance outside s t Phase.acquired =
      (scan outside t.request s, record t { phase = Phase.scanned })
  advance outside s t Phase.scanned = (release_for t.request s, record t { phase = Phase.ended })
  advance outside s t Phase.ended = (s, t)

  step_thread : Outside F → ℕ → System F → Option (Thread F) → System F
  unfolding advance put_at
  step_thread outside n system none = system
  step_thread outside n system (some t) =
      let (s, t') = advance outside system.state t t.phase in
      record { state = s; threads = put_at n t' system.threads }

  unfoldable pub step : Outside F → System F → ℕ → System F
  unfolding step_thread nth
  step outside system n = step_thread outside n system (nth n system.threads)

  -- a schedule names the thread that takes the next step
  unfoldable pub run : Outside F → System F → List ℕ → System F
  unfolding step
  run outside system [] = system
  run outside system (n ∷ ns) = run outside (step outside system n) ns

  -- A device is busy exactly while one thread has its lock, and no device is locked twice.
  pub record IsExclusive (system : System F) : Type 0 where
    pub exclusive :
        (name : String) → holders name system.threads ≡ one_if (is_busy system.state.busy_map name)

  holders-put_at :
      (name : String) (n : ℕ) (t u : Thread F) (ts : List (Thread F))
      → nth n ts ≡ some t
      → holders name (put_at n u ts) + counts name t ≡ holders name ts + counts name u
  unfolding holders nth put_at
  holders-put_at name n t u [] e = cc
  holders-put_at name zero t u (x ∷ ts) e = let same : x ≡ t = cc in rw same (omega arith)
  holders-put_at name (suc n) t u (x ∷ ts) e =
      let rest = holders-put_at name n t u ts e in omega arith

  holders-nth :
      (name : String) (n : ℕ) (t : Thread F) (ts : List (Thread F))
      → nth n ts ≡ some t
      → counts name t ≤ holders name ts
  unfolding holders nth
  holders-nth name n t [] e = cc
  holders-nth name zero t (x ∷ ts) e = let same : x ≡ t = cc in rw same (omega arith)
  holders-nth name (suc n) t (x ∷ ts) e = let rest = holders-nth name n t ts e in omega arith

  abbrev busy : State F → String → ℕ
  busy s name = one_if (is_busy s.busy_map name)

  -- What a step adds to the locks that its thread has, it adds to those of the locker.
  advance-balance :
      (outside : Outside F) (name : String) (s : State F) (req : ProfileScanRequest F)
      (phase : Phase)
      → counts name (record { request = req; phase = phase }) ≤ busy s name
      → counts name (advance outside s (record { request = req; phase = phase }) phase).1
          + busy s name
        ≡ counts name (record { request = req; phase = phase })
          + busy (advance outside s (record { request = req; phase = phase }) phase).0 name
  unfolding advance entered acquire_for release_for acquire release is_busy
  advance-balance outside name s req Phase.called h =
      elim (Bool-cases (is_busy s.busy_map req.device_name)) [
        | inl taken ↦ rw taken refl
        | inr free ↦ rw free (
            ground (
              arith,
              get-put s.busy_map req.device_name name true,
              eq_iff req.device_name name,
              free,
            ))
      ]
  advance-balance outside name s req Phase.acquired h = rw (scan-busy_map outside req s) refl
  advance-balance outside name s req Phase.scanned h =
      ground (arith, get-put s.busy_map req.device_name name false)
  advance-balance outside name s req Phase.ended h = refl

  step_thread-IsExclusive :
      (outside : Outside F) (n : ℕ) (system : System F) (found : Option (Thread F))
      → nth n system.threads ≡ found
      → IsExclusive system
      → IsExclusive (step_thread outside n system found)
  unfolding step_thread
  step_thread-IsExclusive outside n system none e v = v
  step_thread-IsExclusive outside n system (some t) e v = record {
    exclusive = λ name.
        let t' = (advance outside system.state t t.phase).1 in
        let has_lock = holders-nth name n t system.threads e in
        let one = v.exclusive name in
        let balance = advance-balance outside name system.state t.request t.phase (omega arith) in
        let placed = holders-put_at name n t t' system.threads e in omega arith;
  }

  schedule-IsExclusive :
      (outside : Outside F) (ns : List ℕ) (system : System F)
      → IsExclusive system
      → IsExclusive (run outside system ns)
  unfolding run step
  schedule-IsExclusive outside [] system v = v
  schedule-IsExclusive outside (n ∷ ns) system v =
      schedule-IsExclusive outside ns (step outside system n)
        (step_thread-IsExclusive outside n system (nth n system.threads) refl v)

  holders-called :
      (name : String) (requests : List (ProfileScanRequest F))
      → holders name (map (λ req. record { request = req; phase = Phase.called }) requests) ≡ 0
  unfolding holders
  holders-called name [] = refl
  holders-called name (req ∷ requests) = rw (holders-called name requests) refl

  -- the threads of the requests, none of which has begun
  abbrev pub start : List (ProfileScanRequest F) → State F → System F
  start requests s = record {
    state = s;
    threads = map (λ req. record { request = req; phase = Phase.called }) requests;
  }

  -- Whatever the driver and the clients do, when no device is busy at first, then in every order of
  -- the steps of any threads that scan any devices, at every time the number of threads that have the
  -- lock of a device is 1 if the device is busy and 0 if it is not: no device is scanned twice at
  -- once, and a device is free again when its scan has ended, also in an error.
  pub run-IsExclusive :
      (outside : Outside F) (requests : List (ProfileScanRequest F)) (s : State F)
      (schedule : List ℕ)
      → s.busy_map ≡ []
      → IsExclusive (run outside (start requests s) schedule)
  unfolding is_busy Dict.get
  run-IsExclusive outside requests s schedule free =
      schedule-IsExclusive outside schedule (start requests s)
        (record { exclusive = λ name. rw (holders-called name requests, free) refl })

  -- The three steps of one thread alone leave what the wrapper leaves.
  run-wrapper :
      (outside : Outside F) (req : ProfileScanRequest F) (s : State F)
      → (run outside (start (req ∷ []) s) (0 ∷ 0 ∷ 0 ∷ [])).state
        ≡ (Wrapper.profile_scan_wrapper outside req s).1
  unfolding run step step_thread advance entered acquire_for acquire nth put_at
      Wrapper.profile_scan_wrapper Wrapper.guarded
  run-wrapper outside req s = elim (Bool-cases (is_busy s.busy_map req.device_name)) [
    | inl taken ↦ rw taken refl
    | inr free ↦ rw free refl
  ]
