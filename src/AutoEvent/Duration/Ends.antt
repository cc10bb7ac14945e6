-- ===== src/AutoEvent/Duration/Ends.antt =====
-- The loop of `parse_duration` ends: each round takes at least one character from the text.
use Prim.Native.Char.{Char, code}
use device_sdk_python.Base.{
  ℕ, zero, suc, ◌≡◌, refl, ◌<◌, ◌≤◌, Bool, true, false, String, Option, some, ◌==◌, arith, ap,
  nat_eq, if◌then◌else◌, Bool-cases, inl, inr,
}
use device_sdk_python.Raise.{Result, ok, raise, auto_event_error}
use device_sdk_python.Floats.{Floats}
use device_sdk_python.AutoEvent.Duration
use device_sdk_python.AutoEvent.Duration.{size, span, in_number, and_then, parse_duration}

size-span : (test : Char → Bool) (s : String) → size (span test s).1 ≤ size s
unfolding size span
size-span test String.[] = omega arith
size-span test (String.◌∷◌ c s) = ground (arith, size-span test s)

span-none :
    (test : Char → Bool) (c : Char) (s : String)
    → test c ≡ false
    → span test (String.◌∷◌ c s) ≡ (String.[], String.◌∷◌ c s)
unfolding span
span-none test c s e = rw e refl

-- What is passed over is empty only if nothing was passed over.
span-size :
    (test : Char → Bool) (s : String)
    → ((span test s).0 == "") ≡ false
    → size (span test s).1 < size s
unfolding size span
span-size test String.[] h = cc
span-size test (String.◌∷◌ c s) h = elim (Bool-cases (test c)) [
  | inl e ↦ rw e (omega (arith, size-span test s))
  | inr e ↦ cc (h, ap (λ (pair : String × String). pair.0 == "") (span-none test c s e))
]

module _ (floats : Floats) (is_digit is_alpha : Char → Bool) where
  open floats use {Float}

  and_then-some :
      (m : Result Float) (next : Float → Option (Result Float))
      → ((a : Float) → (r : Result Float) × (next a ≡ some r))
      → (r : Result Float) × (and_then m next ≡ some r)
  and_then-some (ok a) next h = h a
  and_then-some (raise e) next h = (raise e, refl)

  abbrev Scans : ℕ → String → Float → Type 0
  Scans fuel interval total =
      (r : Result Float) × (Duration.scan floats is_digit is_alpha fuel interval total ≡ some r)

  -- A round leaves less of the text than it found.
  round-Scans :
      (fuel : ℕ) (c : Char) (s : String) (total : Float)
      → size (String.◌∷◌ c s) < suc fuel
      → ((rest : String) (t : Float) → size rest < fuel → Scans fuel rest t)
      → Scans (suc fuel) (String.◌∷◌ c s) total
  unfolding Duration.scan
  round-Scans fuel c s total h ih =
      let interval = String.◌∷◌ c s in
      let number = span (in_number is_digit) interval in
      let unit = span is_alpha number.1 in
      elim (Bool-cases (number.0 == "")) [
        | inl e ↦ (raise auto_event_error, rw e refl)
        | inr e ↦
            let shorter : size unit.1 < fuel =
              omega (
                arith,
                span-size (in_number is_digit) interval e,
                size-span is_alpha number.1,
                h,
              ) in
            let (r, p) =
              and_then-some (Duration.amount floats is_digit is_alpha number.0 unit.0)
                (λ seconds.
                  Duration.scan floats is_digit is_alpha fuel unit.1 (floats.add total seconds))
                (λ seconds. ih unit.1 (floats.add total seconds) shorter) in
            (r, rw e p)
      ]

  -- The rounds left are more than the characters left, so the loop ends.
  scan-Scans :
      (fuel : ℕ) (interval : String) (total : Float)
      → size interval < fuel
      → Scans fuel interval total
  unfolding Duration.scan
  scan-Scans zero interval total h = elim h [ ]
  scan-Scans (suc fuel) String.[] total h = (ok total, refl)
  scan-Scans (suc fuel) (String.◌∷◌ c s) total h =
      round-Scans fuel c s total h (λ rest t lt. scan-Scans fuel rest t lt)

  abbrev Ends : Option (Result Float) → Type 0
  Ends outcome = (r : Result Float) × (outcome ≡ some r)

  if-Ends :
      (test : Bool) {x y : Option (Result Float)} → Ends x → Ends y → Ends (if test then x else y)
  if-Ends true h k = h
  if-Ends false h k = k

  signed-Ends :
      (negative : Bool) (total : Result Float)
      → Ends (Duration.signed floats is_digit is_alpha negative (some total))
  unfolding Duration.signed
  signed-Ends true (ok total) = (ok (floats.neg total), refl)
  signed-Ends true (raise e) = (raise e, refl)
  signed-Ends false total = (total, refl)

  parse_unsigned-Ends :
      (negative : Bool) (interval : String)
      → Ends (Duration.parse_unsigned floats is_digit is_alpha negative interval)
  unfolding Duration.parse_unsigned
  parse_unsigned-Ends negative interval =
      let (total, e) = scan-Scans (suc (size interval)) interval floats.zero (omega arith) in
      if-Ends (interval == "") (raise auto_event_error, refl) (rw e (signed-Ends negative total))

  after_sign-Ends :
      (interval : String) → Ends (Duration.after_sign floats is_digit is_alpha interval)
  unfolding Duration.after_sign
  after_sign-Ends String.[] = parse_unsigned-Ends false String.[]
  after_sign-Ends (String.◌∷◌ c s) = if-Ends (nat_eq (code c) b'+') (parse_unsigned-Ends false s) (
      if-Ends (nat_eq (code c) b'-')
        (if-Ends (s == "0") (ok floats.zero, refl) (parse_unsigned-Ends true s))
        (parse_unsigned-Ends false (String.◌∷◌ c s)))

  -- parse_duration returns or raises for every text: its loop ends, whatever characters count as
  -- digits and as letters and whatever the floats do.
  pub parse_duration-some :
      (interval : String)
      → (r : Result Float) × (parse_duration floats is_digit is_alpha interval ≡ some r)
  unfolding parse_duration
  parse_duration-some interval =
      if-Ends (interval == "0") (ok floats.zero, refl) (after_sign-Ends interval)
