-- ===== src/Callback/Ensures.antt =====
-- What a callback that succeeds leaves: a triple of a condition before, a handler, and a condition
-- after, with one rule for each way to build a handler.
use device_sdk_python.Base.{
  ◌≡◌, refl, Bool, true, false, Option, none, some, List, [], ◌∷◌, ◌++◌, if◌then◌else◌,
}
use device_sdk_python.Raise.{Outcome, ok, raise, after, EdgexErrorKind}
use device_sdk_python.Callback.State.{
  State, Outside, Handler, Call, done, refused, when, found, here, note, call_driver, answered,
  ◌>>◌,
}
use device_sdk_python.Callback.Keeps.{Keeps, IsConsistent}

pub record Ensures {F : Type 0} (P Q : State F → Type 0) (h : Handler F) : Type 0 where
  pub at : (s : State F) → P s → (h s).0 ≡ ok tt → Q (h s).1

-- A condition that the list of the calls that went out has no part in.
pub record Frames {F : Type 0} (P : State F → Type 0) : Type 0 where
  pub frame : (s : State F) (calls : List Call) → P s → P (record s { calls = calls })

module _ {F : Type 0} where
  after-Ensures :
      {Q R : State F → Type 0} (o : Outcome (State F)) (k : Handler F)
      → Ensures Q R k
      → (o.0 ≡ ok tt → Q o.1)
      → (after o k).0 ≡ ok tt
      → R (after o k).1
  after-Ensures (ok tt, s) k h q e = h.at s (q refl) e
  after-Ensures (raise x, s) k h q e = cc

  pub Ensures->> :
      {P Q R : State F → Type 0} {m k : Handler F}
      → Ensures P Q m
      → Ensures Q R k
      → Ensures P R (m >> k)
  Ensures->> {m = m} {k = k} h h' = record {
    at = λ s p e. after-Ensures (m s) k h' (λ q. h.at s p q) e;
  }

  pub Ensures-refused :
      {P Q : State F → Type 0} (kind : EdgexErrorKind) → Ensures P Q (refused kind)
  Ensures-refused kind = record { at = λ s p e. cc }

  pub Ensures-done : {P : State F → Type 0} → Ensures P P done
  Ensures-done = record { at = λ s p e. p }

  pub Ensures-Keeps : {h : Handler F} → Keeps h → Ensures IsConsistent IsConsistent h
  Ensures-Keeps k = record { at = λ s v e. k.keeps s v }

  pub Ensures-when :
      {P : State F → Type 0} (test : Bool) {m : Handler F}
      → Ensures P P m
      → Ensures P P (when test m)
  Ensures-when true h = h
  Ensures-when false h = Ensures-done

  pub Ensures-note : {P : State F → Type 0} (call : Call) → Frames P → Ensures P P (note call)
  unfolding note
  Ensures-note call f = record { at = λ s p e. f.frame s (s.calls ++ call ∷ []) p }

  answered-Ensures :
      (P : State F → Type 0) (answer : Bool) (s : State F)
      → P s
      → (answered answer s).0 ≡ ok tt
      → P (answered answer s).1
  answered-Ensures P true s p e = p
  answered-Ensures P false s p e = cc

  pub Ensures-call_driver :
      {P : State F → Type 0} (outside : Outside F) (call : Call)
      → Frames P
      → Ensures P P (call_driver outside call)
  unfolding call_driver
  Ensures-call_driver {P = P} outside call f = record {
    at = λ s p e.
        answered-Ensures P (outside.driver s.calls call) (record s { calls = s.calls ++ call ∷ [] })
          (f.frame s (s.calls ++ call ∷ []) p) e;
  }

  pub Ensures-found :
      {A : Type 0} {P Q : State F → Type 0} (o : Option A) {m : Handler F} {k : A → Handler F}
      → Ensures P Q m
      → ((a : A) → Ensures P Q (k a))
      → Ensures P Q (found o m k)
  Ensures-found none h h' = h
  Ensures-found (some a) h h' = h' a

  pub Ensures-here :
      {P Q : State F → Type 0} (h : State F → Handler F)
      → ((s : State F) → P s → Ensures P Q (h s))
      → Ensures P Q (here h)
  Ensures-here h k = record { at = λ s p e. (k s p).at s p e }

  pub Ensures-weaken :
      {P P' Q : State F → Type 0} {h : Handler F}
      → ((s : State F) → P' s → P s)
      → Ensures P Q h
      → Ensures P' Q h
  Ensures-weaken f h = record { at = λ s p e. h.at s (f s p) e }

  pub Ensures-if :
      {P Q : State F → Type 0} (test : Bool) {m k : Handler F}
      → (test ≡ true → Ensures P Q m)
      → (test ≡ false → Ensures P Q k)
      → Ensures P Q (if test then m else k)
  Ensures-if true h h' = h refl
  Ensures-if false h h' = h' refl
