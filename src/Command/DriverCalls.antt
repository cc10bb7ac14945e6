-- ===== src/Command/DriverCalls.antt =====
-- Which calls of the driver an action makes, among all that go out.
use device_sdk_python.Base.{◌≡◌, refl, ap, ◌∙◌, Bool, true, false, List, [], ◌∷◌, ◌++◌}
use device_sdk_python.Raise.{Result, ok, raise}
use device_sdk_python.Command.State.{State, Action, Call, read, write, patch, continue, when}

module _ {F : Type 0} where
  -- The calls of the driver, in order, without those of Core Metadata.
  abbrev pub driver_calls : List (Call F) → List (Call F)
  driver_calls [] = []
  driver_calls (read name protocols reqs ∷ calls) = read name protocols reqs ∷ driver_calls calls
  driver_calls (write name protocols reqs params ∷ calls) =
      write name protocols reqs params ∷ driver_calls calls
  driver_calls (patch name state ∷ calls) = driver_calls calls

  pub driver_calls-append :
      (xs ys : List (Call F)) → driver_calls (xs ++ ys) ≡ driver_calls xs ++ driver_calls ys
  driver_calls-append [] ys = refl
  driver_calls-append (read name protocols reqs ∷ xs) ys =
      ap (λ l. read name protocols reqs ∷ l) (driver_calls-append xs ys)
  driver_calls-append (write name protocols reqs params ∷ xs) ys =
      ap (λ l. write name protocols reqs params ∷ l) (driver_calls-append xs ys)
  driver_calls-append (patch name state ∷ xs) ys = driver_calls-append xs ys

-- The driver was not called.
pub record Quiet {F : Type 0} (s s' : State F) : Type 0 where
  pub same : driver_calls s'.calls ≡ driver_calls s.calls

-- The driver was not called, or once, by a call of which P holds.
pub data AtMostOnce {F : Type 0} (P : Call F → Type 0) (s s' : State F) : Type 0 where
  never : Quiet s s' → AtMostOnce P s s'
  once :
      (call : Call F)
      → P call
      → driver_calls s'.calls ≡ driver_calls s.calls ++ call ∷ []
      → AtMostOnce P s s'

module _ {F : Type 0} where
  pub Quiet-refl : {s : State F} → Quiet s s
  Quiet-refl = record { same = refl }

  pub Quiet-trans : {s s₁ s₂ : State F} → Quiet s s₁ → Quiet s₁ s₂ → Quiet s s₂
  Quiet-trans p q = record { same = q.same ∙ p.same }

  pub AtMostOnce-map :
      {P Q : Call F → Type 0} {s s' : State F}
      → ((call : Call F) → P call → Q call)
      → AtMostOnce P s s'
      → AtMostOnce Q s s'
  AtMostOnce-map f (never q) = never q
  AtMostOnce-map f (once call p e) = once call (f call p) e

  pub Quiet-then :
      {P : Call F → Type 0} {s s₁ s₂ : State F}
      → Quiet s s₁
      → AtMostOnce P s₁ s₂
      → AtMostOnce P s s₂
  Quiet-then q (never q') = never (Quiet-trans q q')
  Quiet-then q (once call p e) = once call p (e ∙ ap (λ l. l ++ call ∷ []) q.same)

  pub then-Quiet :
      {P : Call F → Type 0} {s s₁ s₂ : State F}
      → AtMostOnce P s s₁
      → Quiet s₁ s₂
      → AtMostOnce P s s₂
  then-Quiet (never q') q = never (Quiet-trans q' q)
  then-Quiet (once call p e) q = once call p (q.same ∙ e)

  -- An action, and one after it that never calls the driver.
  pub continue-Quiet :
      {A B : Type 0} {s : State F} (p : Result A × State F) (k : A → Action F B)
      → Quiet s p.1
      → ((a : A) (s₁ : State F) → Quiet s₁ (k a s₁).1)
      → Quiet s (continue p k).1
  continue-Quiet (ok a, s₁) k q h = Quiet-trans q (h a s₁)
  continue-Quiet (raise e, s₁) k q h = q

  pub continue-AtMostOnce :
      {P : Call F → Type 0} {A B : Type 0} {s : State F} (p : Result A × State F)
      (k : A → Action F B)
      → AtMostOnce P s p.1
      → ((a : A) (s₁ : State F) → Quiet s₁ (k a s₁).1)
      → AtMostOnce P s (continue p k).1
  continue-AtMostOnce (ok a, s₁) k q h = then-Quiet q (h a s₁)
  continue-AtMostOnce (raise e, s₁) k q h = q

  pub when-Quiet :
      (test : Bool) (action : Action F (Unit {0})) (s : State F)
      → Quiet s (action s).1
      → Quiet s (when test action s).1
  when-Quiet true action s q = q
  when-Quiet false action s q = Quiet-refl

-- The driver was called once, by the call.
pub record Called {F : Type 0} (call : Call F) (s s' : State F) : Type 0 where
  pub made : driver_calls s'.calls ≡ driver_calls s.calls ++ call ∷ []

module _ {F : Type 0} where
  pub Called-then :
      {call : Call F} {s s₁ s₂ : State F} → Called call s s₁ → Quiet s₁ s₂ → Called call s s₂
  Called-then c q = record { made = q.same ∙ c.made }

  pub continue-Called :
      {call : Call F} {A B : Type 0} {s : State F} (p : Result A × State F) (k : A → Action F B)
      → Called call s p.1
      → ((a : A) (s₁ : State F) → Quiet s₁ (k a s₁).1)
      → Called call s (continue p k).1
  continue-Called (ok a, s₁) k c h = Called-then c (h a s₁)
  continue-Called (raise e, s₁) k c h = c
