-- ===== src/Base/Bits.antt =====
-- `bit_and` at variables: the law of its lowest digit, its bound, and the mask of k ones.
use Prim.Native.Nat.{
  ℕ, zero, suc, ◌+◌, ◌-◌, ◌*◌, ◌/◌, ◌%◌, ◌^◌, ◌≤◌, ◌<◌, min, bit_and, digits, bit_and-bitwise,
}
use mathlib.Core.Path.{◌≡◌, refl, sym, ap, ◌∙◌}
use native.Mathlib.Omega.{arith}
use native.Mathlib.Nat.{
  add-zero, add-suc, pow-suc, mod-eq_of_lt, mul-add-mod_self_left, mod-lt, div-add-mod,
}
use device_sdk_python.Base.Int.{ℤ, pos, negsuc, and_mask, mod_ℤ}

-- The recursion on digits that `bit_and` stands for, with the number of digits that it looks at.
abbrev common : ℕ → ℕ → ℕ → ℕ
common = digits (λ none. zero) min

-- One digit more than `x` has changes nothing, so any number of them does not.
common_extend : (k x y : ℕ) → x ≤ k → common (suc k) x y ≡ common k x y
common_extend zero zero y fits = refl
common_extend (suc k) zero y fits = refl
common_extend zero (suc x) y fits = absurd (omega arith)
common_extend (suc k) (suc x) y fits =
    omega (arith, common_extend k (suc x / 2) (y / 2) (omega arith))

common_stable : (extra k x y : ℕ) → x ≤ k → common (k + extra) x y ≡ common k x y
common_stable zero k x y fits = rw add-zero
common_stable (suc extra) k x y fits =
    rw add-suc (common_extend (k + extra) x y (omega arith) ∙ common_stable extra k x y fits)

common-bit_and : (k x y : ℕ) → x ≤ k → common k x y ≡ bit_and x y
common-bit_and k x y fits =
    let total : x + (k - x) ≡ k = omega arith in
    ap (λ (t : ℕ). common t x y) (sym total)
    ∙ common_stable (k - x) x x y (omega arith)
    ∙ sym (bit_and-bitwise x y)

-- The lowest digit, and the digits above it.
pub bit_and_step : (a b : ℕ) → bit_and a b ≡ bit_and (a / 2) (b / 2) * 2 + min (a % 2) (b % 2)
bit_and_step zero b =
    omega (arith, common-bit_and 0 0 b (omega arith), common-bit_and 0 0 (b / 2) (omega arith))
bit_and_step (suc a) b = omega (
  arith,
  common-bit_and (suc a) (suc a) b (omega arith),
  common-bit_and a (suc a / 2) (b / 2) (omega arith),
)

bit_and_bounds_fuel : (n a b : ℕ) → a ≤ n → (bit_and a b ≤ a) × (bit_and a b ≤ b)
bit_and_bounds_fuel n zero b h = omega (arith, common-bit_and 0 0 b (omega arith))
bit_and_bounds_fuel zero (suc a) b h = absurd (omega arith)
bit_and_bounds_fuel (suc n) (suc a) b h =
    omega (arith, bit_and_step (suc a) b, bit_and_bounds_fuel n (suc a / 2) (b / 2) (omega arith))

-- The result has no bit that one of the arguments lacks.
pub bit_and_bounds : (a b : ℕ) → (bit_and a b ≤ a) × (bit_and a b ≤ b)
bit_and_bounds a b = bit_and_bounds_fuel a a b (omega arith)

pow-pos : (k : ℕ) → 1 ≤ 2 ^ k
pow-pos zero = omega arith
pow-pos (suc k) = omega (arith, pow-pos k, pow-suc 2 k)

-- The lowest digit of a remainder by an even number.
mod_double : (a p : ℕ) → 1 ≤ p → a % (2 * p) ≡ (a / 2) % p * 2 + a % 2
mod_double a p h =
    let r = (a / 2) % p * 2 + a % 2 in
    let e : a ≡ 2 * p * (a / 2 / p) + r = omega (arith, div-add-mod (a / 2) p) in
    let small : r < 2 * p = omega (arith, mod-lt (a / 2) h) in
    ap (λ x. x % (2 * p)) e ∙ mul-add-mod_self_left (2 * p) (a / 2 / p) r ∙ mod-eq_of_lt small

half : (k : ℕ) → (2 * 2 ^ k - 1) / 2 ≡ 2 ^ k - 1
half k = omega (arith, pow-pos k)

pub bit_and-ones : (k a : ℕ) → bit_and a (2 ^ k - 1) ≡ a % 2 ^ k
bit_and-ones zero a = omega (arith, bit_and_bounds a 0)
bit_and-ones (suc k) a =
    let p = 2 ^ k in
    let m : 2 ^ suc k ≡ 2 * p = omega (arith, pow-suc 2 k) in
    rw m (
      omega (
        arith,
        pow-pos k,
        bit_and_step a (2 * p - 1),
        ap (bit_and (a / 2)) (half k),
        bit_and-ones k (a / 2),
        mod_double a p (pow-pos k),
      ))

-- `v & ((1 << k) - 1)` is `v mod 2 ** k`, for a negative `v` too.
pub and_mask-ones : (k : ℕ) (v : ℤ) → and_mask v (2 ^ k - 1) ≡ mod_ℤ v (2 ^ k)
unfolding and_mask mod_ℤ
and_mask-ones k (pos n) = bit_and-ones k n
and_mask-ones k (negsuc n) = omega (arith, bit_and-ones k n)

pub and_mask-le : (v : ℤ) (m : ℕ) → and_mask v m ≤ m
unfolding and_mask
and_mask-le (pos n) m = (bit_and_bounds n m).1
and_mask-le (negsuc n) m = omega arith
