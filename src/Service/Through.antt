-- ===== src/Service/Through.antt =====
-- What a call that the service writes through to Core Metadata comes to.
use device_sdk_python.Base.{◌≡◌, refl, String, Option, none, some, List, [], ◌∷◌, ◌++◌}
use device_sdk_python.Raise.{Result, Exn, ok, raise, edgex_error, EdgexErrorKind}
use device_sdk_python.Service.State.{
  State, Action, Call, Answer, Outside, return, error, found, note, continue, metadata_error,
  answered, ◌>>◌,
}
use device_sdk_python.Service.Metadata
use device_sdk_python.Service.Metadata.{write_through}

-- What a call that is written through comes to: it passes, or the cache gets back what it had.
pub data Through {F : Type 0} (restore : Action F (Unit {0})) (s : State F)
    (r : Result String × State F) : Type 0 where
  passed :
      (id : String) (calls : List (Call F))
      → r ≡ (ok id, record s { calls = calls })
      → Through restore s r
  failed :
      (x : Exn) (calls : List (Call F))
      → r ≡ (raise x, (restore (record s { calls = calls })).1)
      → Through restore s r

module _ {F : Type 0} (outside : Outside F) (service_key : String) where
  failed-Through :
      (restore : Action F (Unit {0})) (s : State F) (calls : List (Call F))
      (o : Result (Unit {0}) × State F)
      → restore (record s { calls = calls }) ≡ o
      → Through restore s (continue o (λ _. error EdgexErrorKind.server_error))
  failed-Through restore s calls (ok u, t) e =
      Through.failed (edgex_error EdgexErrorKind.server_error) calls (rw e refl)
  failed-Through restore s calls (raise x, t) e = Through.failed x calls (rw e refl)

  on_answer-Through :
      (restore : Action F (Unit {0})) (s : State F) (calls : List (Call F)) (answer : Answer)
      → Through restore s
          (Metadata.on_answer outside service_key restore answer (record s { calls = calls }))
  unfolding Metadata.on_answer
  on_answer-Through restore s calls metadata_error =
      failed-Through restore s calls (restore (record s { calls = calls })) refl
  on_answer-Through restore s calls (answered id) = Through.passed id calls refl

  client-Through :
      (call : Call F) (restore : Action F (Unit {0})) (s : State F)
      (client : Option (List (Call F) → Call F → Answer))
      → Through restore s (
          found client
            (return "")
            (λ c. note call >> Metadata.on_answer outside service_key restore (c s.calls call))
            s)
  unfolding note
  client-Through call restore s none = Through.passed "" s.calls refl
  client-Through call restore s (some client) =
      on_answer-Through restore s (s.calls ++ call ∷ []) (client s.calls call)

  pub write_through-Through :
      (call : Call F) (restore : Action F (Unit {0})) (s : State F)
      → Through restore s (write_through outside service_key call restore s)
  unfolding write_through
  write_through-Through call restore s = client-Through call restore s outside.client
