-- ===== src/Service/Slot.antt =====
-- What a cache is to the service: a slot of the state with a registry of named objects behind laws, and
-- what a change of it, written through to Core Metadata, comes to when it raises.
use device_sdk_python.Base.{
  ◌≡◌, refl, sym, ap, ◌∙◌, ◌≢◌, String, Option, none, some, List, ◌==◌, if◌then◌else◌, Bool-cases,
  inl, inr, eq_iff, eq_refl,
}
use device_sdk_python.Raise.{Result, Exn, Outcome, ok, raise}
use device_sdk_python.Service.State.{State, Action, Call, Outside, found, continue, ◌>>=◌, ◌>>◌}
use device_sdk_python.Service.Through.{Through, write_through-Through}
use device_sdk_python.Service.Metadata.{write_through}

pub record Slot (F C V : Type 0) : Type 1 where
  -- the place in the state
  pub get : State F → C
  pub put : State F → C → List (Call F) → State F
  pub on : (C → Outcome C) → Action F (Unit {0})
  pub on_lem :
      (method : C → Outcome C) (s : State F)
      → on method s ≡ ((method (get s)).0, put s (method (get s)).1 s.calls)
  pub get-put : (s : State F) (c : C) (calls : List (Call F)) → get (put s c calls) ≡ c
  pub put-put :
      (s : State F) (c c' : C) (calls calls' : List (Call F))
      → put (put s c calls) c' calls' ≡ put s c' calls'
  pub calls-put :
      (s : State F) (c : C) (calls calls' : List (Call F))
      → record (put s c calls) { calls = calls' } ≡ put s c calls'
  pub put-get : (s : State F) → put s (get s) s.calls ≡ s
  -- the registry
  pub name : V → String
  pub for_name : C → String → Option V
  pub add : C → V → Outcome C
  pub update : C → V → Outcome C
  pub remove_by_name : C → String → Outcome C
  pub IsValid : C → Type 0
  pub named : (c : C) (k : String) (v : V) → IsValid c → for_name c k ≡ some v → name v ≡ k
  pub for_name-add :
      (c : C) (v : V)
      → IsValid c
      → for_name c (name v) ≡ none
      → ((add c v).0 ≡ ok tt)
        × IsValid (add c v).1
        × ((k : String) → for_name (add c v).1 k ≡ (if name v == k then some v else for_name c k))
  pub for_name-update :
      (c : C) (v w : V)
      → IsValid c
      → for_name c (name v) ≡ some w
      → ((update c v).0 ≡ ok tt)
        × IsValid (update c v).1
        × ((k : String)
            → for_name (update c v).1 k ≡ (if name v == k then some v else for_name c k))
  pub for_name-remove :
      (c : C) (n : String) (w : V)
      → IsValid c
      → for_name c n ≡ some w
      → ((remove_by_name c n).0 ≡ ok tt)
        × IsValid (remove_by_name c n).1
        × ((k : String)
            → for_name (remove_by_name c n).1 k ≡ (if n == k then none else for_name c k))

-- What was found under a name is found again when it is put back.
put_back {ℓ} :
    {V : Type ℓ} (n k : String) (lookup : String → Option V) (o o' x y : Option V)
    → x ≡ (if n == k then o else y)
    → y ≡ (if n == k then o' else lookup k)
    → lookup n ≡ o
    → x ≡ lookup k
put_back n k lookup o o' x y e e' h = elim (Bool-cases (n == k)) [
  | inl same ↦ e ∙ rw same (sym h ∙ ap lookup ((eq_iff n k).0 same))
  | inr other ↦ e ∙ rw other (e' ∙ rw other refl)
]

module _ {F C V : Type 0} (slot : Slot F C V) where
  -- The state is as before but for the slot, where every name finds what it found before, and for the
  -- calls that went out.
  pub record IsRestored (s s' : State F) : Type 0 where
    pub cache : C
    pub calls : List (Call F)
    pub same : s' ≡ slot.put s cache calls
    pub lookups : (k : String) → slot.for_name cache k ≡ slot.for_name (slot.get s) k

  -- If it raises, the state is restored.
  abbrev pub Restores : {A : Type 0} → State F → Result A × State F → Type 0
  Restores s r = (x : Exn) → r.0 ≡ raise x → IsRestored s r.1

  on-put :
      (back : C → Outcome C) (s : State F) (c : C) (before calls : List (Call F))
      → (slot.on back (record (slot.put s c before) { calls = calls })).1
        ≡ slot.put s (back c).1 (slot.put s c calls).calls
  on-put back s c before calls =
      let t = slot.put s c calls in
      ap (λ u. (slot.on back u).1) (slot.calls-put s c before calls)
      ∙ ap (λ (r : Outcome (State F)). r.1) (slot.on_lem back t)
      ∙ ap (λ a. slot.put t (back a).1 t.calls) (slot.get-put s c calls)
      ∙ slot.put-put s c (back c).1 calls t.calls

  -- What the client's call came to, after the change; `f` follows, and never raises.
  Through-Restores :
      {A : Type 0} (change back : C → Outcome C) (s : State F) (f : String → Action F A)
      (r : Result String × State F)
      → ((id : String) (t : State F) (x : Exn) → (f id t).0 ≢ raise x)
      → ((k : String)
          → slot.for_name (back (change (slot.get s)).1).1 k ≡ slot.for_name (slot.get s) k)
      → Through (slot.on back) (slot.put s (change (slot.get s)).1 s.calls) r
      → Restores s (continue r f)
  Through-Restores change back s f r never undone (Through.passed id calls e) x h = absurd (
      never id (record (slot.put s (change (slot.get s)).1 s.calls) { calls = calls }) x
        (rw e at h))
  Through-Restores change back s f r never undone (Through.failed y calls e) x h =
      let c = (change (slot.get s)).1 in
      rw e (record {
        cache = (back c).1;
        calls = (slot.put s c calls).calls;
        same = on-put back s c s.calls calls;
        lookups = undone;
      })

  module _ (outside : Outside F) (service_key : String) where
    -- A change that succeeds and can be undone, written through.
    change-Restores :
        {A : Type 0} (change back : C → Outcome C) (call : Call F) (f : String → Action F A)
        (s : State F)
        → ((id : String) (t : State F) (x : Exn) → (f id t).0 ≢ raise x)
        → (change (slot.get s)).0 ≡ ok tt
        → ((k : String)
            → slot.for_name (back (change (slot.get s)).1).1 k ≡ slot.for_name (slot.get s) k)
        → Restores s
            ((slot.on change >> write_through outside service_key call (slot.on back) >>= f) s)
    change-Restores change back call f s never succeeds undone =
        let t = slot.put s (change (slot.get s)).1 s.calls in
        let e : slot.on change s ≡ (ok tt, t) = slot.on_lem change s ∙ ap (λ r. (r, t)) succeeds in
        rw e (
          Through-Restores change back s f (write_through outside service_key call (slot.on back) t)
            never undone (write_through-Through outside service_key call (slot.on back) t))

    -- An object that is new, one that is replaced, and one that is removed.
    pub add-Restores :
        {A : Type 0} (v : V) (call : Call F) (f : String → Action F A) (s : State F)
        → ((id : String) (t : State F) (x : Exn) → (f id t).0 ≢ raise x)
        → slot.IsValid (slot.get s)
        → slot.for_name (slot.get s) (slot.name v) ≡ none
        → Restores s (
            (slot.on (λ c. slot.add c v)
                >> write_through outside service_key call
                    (slot.on (λ c. slot.remove_by_name c (slot.name v)))
                >>= f)
              s)
    add-Restores v call f s never valid new =
        let (done, valid', found) = slot.for_name-add (slot.get s) v valid new in
        let (_, _, found') =
          slot.for_name-remove (slot.add (slot.get s) v).1 (slot.name v) v valid'
            (found (slot.name v) ∙ rw eq_refl refl) in
        change-Restores (λ c. slot.add c v) (λ c. slot.remove_by_name c (slot.name v)) call f s
          never done
          (λ k.
            put_back (slot.name v) k (slot.for_name (slot.get s)) none (some v) _ _ (found' k)
              (found k) new)

    pub update-Restores :
        {A : Type 0} (v w : V) (call : Call F) (f : String → Action F A) (s : State F)
        → ((id : String) (t : State F) (x : Exn) → (f id t).0 ≢ raise x)
        → slot.IsValid (slot.get s)
        → slot.for_name (slot.get s) (slot.name v) ≡ some w
        → Restores s (
            (slot.on (λ c. slot.update c v)
                >> write_through outside service_key call (slot.on (λ c. slot.update c w))
                >>= f)
              s)
    update-Restores v w call f s never valid old =
        let (done, valid', found) = slot.for_name-update (slot.get s) v w valid old in
        let same = slot.named (slot.get s) (slot.name v) w valid old in
        let (_, _, found') = slot.for_name-update (slot.update (slot.get s) v).1 w v valid' (
          ap (slot.for_name (slot.update (slot.get s) v).1) same
          ∙ found (slot.name v)
          ∙ rw eq_refl refl) in
        change-Restores (λ c. slot.update c v) (λ c. slot.update c w) call f s never done
          (λ k.
            put_back (slot.name v) k (slot.for_name (slot.get s)) (some w) (some v) _ _
              (found' k
                ∙ ap
                    (λ m. if m == k then some w else slot.for_name (slot.update (slot.get s) v).1 k)
                    same)
              (found k) old)

    pub remove-Restores :
        {A : Type 0} (n : String) (w : V) (call : Call F) (f : String → Action F A) (s : State F)
        → ((id : String) (t : State F) (x : Exn) → (f id t).0 ≢ raise x)
        → slot.IsValid (slot.get s)
        → slot.for_name (slot.get s) n ≡ some w
        → Restores s (
            (slot.on (λ c. slot.remove_by_name c n)
                >> write_through outside service_key call (slot.on (λ c. slot.add c w))
                >>= f)
              s)
    remove-Restores n w call f s never valid old =
        let (done, valid', found) = slot.for_name-remove (slot.get s) n w valid old in
        let same = slot.named (slot.get s) n w valid old in
        let (_, _, found') = slot.for_name-add (slot.remove_by_name (slot.get s) n).1 w valid' (
          ap (slot.for_name (slot.remove_by_name (slot.get s) n).1) same
          ∙ found n
          ∙ rw eq_refl refl) in
        change-Restores (λ c. slot.remove_by_name c n) (λ c. slot.add c w) call f s never done
          (λ k.
            put_back n k (slot.for_name (slot.get s)) (some w) none _ _
              (found' k
                ∙ ap
                    (λ m.
                      if m == k
                      then some w
                      else slot.for_name (slot.remove_by_name (slot.get s) n).1 k)
                    same)
              (found k) old)
