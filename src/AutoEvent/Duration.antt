-- ===== src/AutoEvent/Duration.antt =====
-- `parse_duration` of internal/autoevent/executor.py. A text is walked by its characters; Python's
-- `str.isdigit` and `str.isalpha` are parameters. The outer loop is on fuel, and `none` would mean
-- that the fuel ran out.
pub mod Ends
use Prim.Native.Char.{Char, code}
use mathlib.Core.Path.{ap}
use device_sdk_python.Base.{
  ℕ, zero, suc, ◌+◌, ◌≡◌, refl, ◌<◌, ◌≤◌, Bool, true, false, ◌||◌, String, Option, none, some, ◌==◌,
  nat_eq, arith, if◌then◌else◌, Bool-cases, inl, inr,
}
use device_sdk_python.Raise.{Result, ok, raise, Exn, auto_event_error}
use device_sdk_python.Floats.{Floats}

unfoldable pub size : String → ℕ
size String.[] = 0
size (String.◌∷◌ c s) = suc (size s)

-- `while index < length and test(interval[index])`: what is passed over, and what is left
unfoldable pub span : (Char → Bool) → String → String × String
span test String.[] = (String.[], String.[])
span test (String.◌∷◌ c s) =
    let (passed, left) = span test s in
    if test c then (String.◌∷◌ c passed, left) else (String.[], String.◌∷◌ c s)

-- the literals of `_DURATION_UNIT_FACTORS`
unfoldable pub unit_factor : String → Option String
unit_factor unit =
    if unit == "ns"
    then some "1e-9"
    else if unit == "us" || unit == "µs" || unit == "μs"
    then some "1e-6"
    else if unit == "ms"
    then some "1e-3"
    else if unit == "s"
    then some "1.0"
    else if unit == "m"
    then some "60.0"
    else if unit == "h"
    then some "3600.0"
    else none

-- `interval[index].isdigit() or interval[index] == "."`
abbrev pub in_number : (Char → Bool) → Char → Bool
in_number is_digit c = is_digit c || nat_eq (code c) b'.'

-- the rest of a round, if the amount could be read
abbrev pub and_then : {A : Type 0} → Result A → (A → Option (Result A)) → Option (Result A)
and_then (ok a) next = next a
and_then (raise e) next = some (raise e)

module _ (floats : Floats) (is_digit is_alpha : Char → Bool) where
  open floats use {Float, parse, add, mul, neg}

  -- the factor of a unit that is in the table
  times_unit : Float → Option String → Result Float
  times_unit number none = raise auto_event_error
  times_unit number (some literal) = elim (parse literal) [
    | ok factor ↦ ok (mul number factor)
    | raise e ↦ raise e
  ]

  -- `float(interval[start:index])`, where a `ValueError` becomes an `AutoEventError`
  number_of : String → Result Float
  number_of digits = elim (parse digits) [
    | raise Exn.value_error ↦ raise auto_event_error
    | other ↦ other
  ]

  -- one number with its unit
  amount : String → String → Result Float
  unfolding times_unit number_of unit_factor
  amount digits unit = elim (number_of digits) [
    | ok number ↦ times_unit number (unit_factor unit)
    | raise e ↦ raise e
  ]

  -- the outer loop
  scan : ℕ → String → Float → Option (Result Float)
  unfolding span
  scan zero interval total = none
  scan (suc fuel) String.[] total = some (ok total)
  scan (suc fuel) (String.◌∷◌ c s) total =
      let interval = String.◌∷◌ c s in
      let (digits, after) = span (in_number is_digit) interval in
      let (unit, rest) = span is_alpha after in
      if digits == ""
      then some (raise auto_event_error)
      else and_then (amount digits unit) (λ seconds. scan fuel rest (add total seconds))

  -- `total = -total`, after the loop
  signed : Bool → Option (Result Float) → Option (Result Float)
  signed true (some (ok total)) = some (ok (neg total))
  signed _ outcome = outcome

  -- from `if not interval` on
  parse_unsigned : Bool → String → Option (Result Float)
  unfolding amount scan signed size
  parse_unsigned negative interval =
      if interval == ""
      then some (raise auto_event_error)
      else signed negative (scan (suc (size interval)) interval floats.zero)

  -- the text without its sign, if there is one
  after_sign : String → Option (Result Float)
  unfolding parse_unsigned
  after_sign String.[] = parse_unsigned false String.[]
  after_sign (String.◌∷◌ c s) =
      if nat_eq (code c) b'+'
      then parse_unsigned false s
      else if nat_eq (code c) b'-'
      then (if s == "0" then some (ok floats.zero) else parse_unsigned true s)
      else parse_unsigned false (String.◌∷◌ c s)

  unfoldable pub parse_duration : String → Option (Result Float)
  unfolding after_sign
  parse_duration interval = if interval == "0" then some (ok floats.zero) else after_sign interval
