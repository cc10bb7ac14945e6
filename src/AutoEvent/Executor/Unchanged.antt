-- ===== src/AutoEvent/Executor/Unchanged.antt =====
-- When an execution of an executor with `on_change` sends nothing.
use device_sdk_python.Base.{
  ℕ, ◌≡◌, ◌≢◌, ◌↔◌, refl, Bool, true, false, Option, none, some, List, [], ◌∷◌, map, nat_eq, length,
  if◌then◌else◌, All, Bool-cases, Option-cases, inl, inr, nat_eq_iff, ap, ◌∙◌,
}
use device_sdk_python.Base.Int.{ℤ}
use device_sdk_python.Base.Dict.{Dict}
use device_sdk_python.Raise.{Result, Exn, ok, raise}
use device_sdk_python.Floats.{Floats}
use device_sdk_python.Model.Value.{Value}
use device_sdk_python.Model.CommandValue.{CommandValue}
use device_sdk_python.AutoEvent.Executor
use device_sdk_python.AutoEvent.Executor.{
  Executor, Values, AsyncValues, last_of, differs, execute_once,
}

if-true {ℓ} : {A : Type ℓ} {b : Bool} (x y : A) → b ≡ true → (if b then x else y) ≡ x
if-true x y e = rw e refl

module _ (floats : Floats) (values : Values floats.Float) where
  open floats use {Float}

  -- A last value is there, and the reading does not differ from it.
  abbrev pub IsUnchanged : Executor Float → CommandValue Float → Type 0
  IsUnchanged e cv =
      (last : Value Float) × (last_of floats values e cv.device_resource_name ≡ some last)
      × (differs floats values e.on_change_threshold last cv ≡ ok none)

  -- What a round does by what it finds.
  data Round (e : Executor Float) (cv : CommandValue Float) : Type 0 where
    missing : last_of floats values e cv.device_resource_name ≡ none → Round e cv
    failed :
        (last : Value Float) (x : Exn)
        → last_of floats values e cv.device_resource_name ≡ some last
        → differs floats values e.on_change_threshold last cv ≡ raise x
        → Round e cv
    unchanged : IsUnchanged e cv → Round e cv
    changed :
        (last value : Value Float)
        → last_of floats values e cv.device_resource_name ≡ some last
        → differs floats values e.on_change_threshold last cv ≡ ok (some value)
        → Round e cv

  found-Round :
      (e : Executor Float) (cv : CommandValue Float) (last : Value Float)
      → last_of floats values e cv.device_resource_name ≡ some last
      → (r : Result (Option (Value Float)))
      → differs floats values e.on_change_threshold last cv ≡ r
      → Round e cv
  found-Round e cv last p (raise x) q = Round.failed last x p q
  found-Round e cv last p (ok none) q = Round.unchanged (last, p, q)
  found-Round e cv last p (ok (some value)) q = Round.changed last value p q

  round : (e : Executor Float) (cv : CommandValue Float) → Round e cv
  round e cv = elim (Option-cases (last_of floats values e cv.device_resource_name)) [
    | inl p ↦ Round.missing p
    | inr (last, p) ↦
        found-Round e cv last p (differs floats values e.on_change_threshold last cv) refl
  ]

  renewed-ne-true :
      (cvs : List (CommandValue Float)) (e : Executor Float)
      (r : Result (Unit {0}) × Dict (Value Float)) {e' : Executor Float}
      → Executor.renewed floats values cvs e r ≢ (ok true, e')
  unfolding Executor.renewed
  renewed-ne-true cvs e (raise x, last) h = cc
  renewed-ne-true cvs e (ok _, last) h = cc

  renew-ne-true :
      (cvs : List (CommandValue Float)) (e : Executor Float) {e' : Executor Float}
      → Executor.renew floats values cvs e ≢ (ok true, e')
  unfolding Executor.renew
  renew-ne-true cvs e h = renewed-ne-true cvs e (Executor.renew_onto floats values [] cvs) h

  each-ne-true :
      (cvs left : List (CommandValue Float)) (e : Executor Float) {e' : Executor Float}
      → Executor.compare_each floats values cvs left false e ≢ (ok true, e')
  unfolding Executor.compare_each Executor.compare_last Executor.compare_found
  each-ne-true cvs [] e h = cc
  each-ne-true cvs (cv ∷ left) e h = elim (round e cv) [
    | missing p ↦ renew-ne-true cvs e (rw p at h)
    | failed last x p q ↦ cc (rw (p, q) at h)
    | unchanged (last, p, q) ↦ each-ne-true cvs left e (rw (p, q) at h)
    | changed last value p q ↦
        each-ne-true cvs left (Executor.changed floats values e cv value) (rw (p, q) at h)
  ]

  each-IsUnchanged :
      (cvs left : List (CommandValue Float)) (e : Executor Float) {e' : Executor Float}
      → Executor.compare_each floats values cvs left true e ≡ (ok true, e')
      → All (IsUnchanged e) left × (e' ≡ e)
  unfolding Executor.compare_each Executor.compare_last Executor.compare_found
  each-IsUnchanged cvs [] e h = (tt, cc)
  each-IsUnchanged cvs (cv ∷ left) e h = elim (round e cv) [
    | missing p ↦ absurd (renew-ne-true cvs e (rw p at h))
    | failed last x p q ↦ cc (rw (p, q) at h)
    | unchanged (last, p, q) ↦
        let (rest, same) = each-IsUnchanged cvs left e (rw (p, q) at h) in
        (((last, p, q), rest), same)
    | changed last value p q ↦
        absurd (each-ne-true cvs left (Executor.changed floats values e cv value) (rw (p, q) at h))
  ]

  each-unchanged :
      (cvs left : List (CommandValue Float)) (e : Executor Float)
      → All (IsUnchanged e) left
      → Executor.compare_each floats values cvs left true e ≡ (ok true, e)
  unfolding Executor.compare_each Executor.compare_last Executor.compare_found
  each-unchanged cvs [] e h = refl
  each-unchanged cvs (cv ∷ left) e ((last, p, q), h) = rw (p, q) (each-unchanged cvs left e h)

  present-some :
      (cvs : List (CommandValue Float)) → Executor.present (map (λ cv. some cv) cvs) ≡ ok cvs
  unfolding Executor.present
  present-some [] = refl
  present-some (cv ∷ cvs) = rw (present-some cvs) refl

  -- the number of names among the readings
  unfoldable pub names : List (CommandValue Float) → ℕ
  unfolding Executor.current_onto
  names cvs = length (Executor.current_onto floats values [] cvs)

  compare_present-true :
      (cvs : List (CommandValue Float)) (e : Executor Float) {e' : Executor Float}
      → Executor.compare_present floats values cvs e ≡ (ok true, e')
      → (length e.last_readings ≡ names cvs)
        × All (IsUnchanged e) cvs
        × (e' ≡ record e { changed_readings = [] })
  unfolding Executor.compare_present names last_of
  compare_present-true cvs e h = elim (Bool-cases (nat_eq (length e.last_readings) (names cvs))) [
    | inl same ↦
        let (kept, p) =
          each-IsUnchanged cvs cvs (record e { changed_readings = [] }) (rw same at h) in
        ((nat_eq_iff (length e.last_readings) (names cvs)).0 same, kept, p)
    | inr other ↦ absurd (renew-ne-true cvs e (rw other at h))
  ]

  compare_present-unchanged :
      (cvs : List (CommandValue Float)) (e : Executor Float)
      → length e.last_readings ≡ names cvs
      → All (IsUnchanged e) cvs
      → Executor.compare_present floats values cvs e ≡ (ok true, record e { changed_readings = [] })
  unfolding Executor.compare_present names last_of
  compare_present-unchanged cvs e same h =
      rw ((nat_eq_iff (length e.last_readings) (names cvs)).1 same)
        (each-unchanged cvs cvs (record e { changed_readings = [] }) h)

  after_comparison-none :
      (now : ℤ) (cvs : List (Option (CommandValue Float))) (r : Result Bool × Executor Float)
      → (Executor.after_comparison floats values now cvs r).0 ≡ ok none
      → (r ≡ (ok true, r.1)) × ((Executor.after_comparison floats values now cvs r).1 ≡ r.1)
  unfolding Executor.after_comparison
  after_comparison-none now cvs (raise x, e) h = cc
  after_comparison-none now cvs (ok true, e) h = (refl, refl)
  after_comparison-none now cvs (ok false, e) h = cc

  -- a read that returns these values
  abbrev pub reads :
      List (CommandValue Float) → Result (Option (List (Option (CommandValue Float))))
  reads cvs = ok (some (map (λ cv. some cv) cvs))

  compare_readings-some :
      (cvs : List (CommandValue Float)) (e : Executor Float)
      → Executor.compare_readings floats values (map (λ cv. some cv) cvs) e
        ≡ Executor.compare_present floats values cvs e
  unfolding Executor.compare_readings
  compare_readings-some cvs e =
      ap
        (λ (r : Result (List (CommandValue Float))). elim r as (λ _. Result Bool × Executor Float) [
          | ok all_of ↦ Executor.compare_present floats values all_of e
          | raise x ↦ (raise x, e)
        ])
        (present-some cvs)

  execute_once-compare :
      (now : ℤ) (cv : CommandValue Float) (cvs : List (CommandValue Float)) (e : Executor Float)
      → e.on_change ≡ true
      → execute_once floats values now (reads (cv ∷ cvs)) e
        ≡ Executor.after_comparison floats values now
            (map (λ v. some v) (cv ∷ cvs))
            (Executor.compare_present floats values (cv ∷ cvs) e)
  unfolding execute_once
  execute_once-compare now cv cvs e on =
      if-true _ _ on
      ∙ ap (λ r. Executor.after_comparison floats values now (map (λ v. some v) (cv ∷ cvs)) r)
          (compare_readings-some (cv ∷ cvs) e)

  -- An executor with on_change that reads one or more values, none of them None, sends nothing and
  -- raises nothing exactly when as many names are stored as the values have, each value has a stored
  -- value that is not None, and none differs from it; then the stored values stay, and no value
  -- counts as changed.
  pub execute_once_iff :
      (now : ℤ) (cv : CommandValue Float) (cvs : List (CommandValue Float)) (e : Executor Float)
      → e.on_change ≡ true
      → ((execute_once floats values now (reads (cv ∷ cvs)) e).0 ≡ ok none
          ↔ ((length e.last_readings ≡ names (cv ∷ cvs)) × All (IsUnchanged e) (cv ∷ cvs)))
        × ((execute_once floats values now (reads (cv ∷ cvs)) e).0 ≡ ok none
            → (execute_once floats values now (reads (cv ∷ cvs)) e).1
              ≡ record e { changed_readings = [] })
  unfolding Executor.after_comparison
  execute_once_iff now cv cvs e on =
      let sent = Executor.after_comparison floats values now (map (λ v. some v) (cv ∷ cvs)) in
      let compared = Executor.compare_present floats values (cv ∷ cvs) e in
      rw (execute_once-compare now cv cvs e on) (
        (
          λ h.
              let (r, _) = after_comparison-none now (map (λ v. some v) (cv ∷ cvs)) compared h in
              let (same, kept, _) = compare_present-true (cv ∷ cvs) e r in (same, kept),
          λ h. ap (λ r. (sent r).0) (compare_present-unchanged (cv ∷ cvs) e h.0 h.1),
        ),
        λ h.
            let (r, left) = after_comparison-none now (map (λ v. some v) (cv ∷ cvs)) compared h in
            let (_, _, p) = compare_present-true (cv ∷ cvs) e r in left ∙ p,
      )
