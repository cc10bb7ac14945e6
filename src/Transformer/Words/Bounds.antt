-- ===== src/Transformer/Words/Bounds.antt =====
-- The range of each integer type, and that the steps on integers stay in it.
use device_sdk_python.Base.{ℕ, ◌-◌, ◌^◌, ◌≤◌, ◌≡◌, refl, true, arith, Bool-cases, inl, inr}
use device_sdk_python.Base.Int.{ℤ, pos, negsuc, ◌≤ℤ◌, ltb_ℤ, and_mask}
use device_sdk_python.Base.Bits.{and_mask-le}
use device_sdk_python.Raise.{ok}
use device_sdk_python.Model.ValueType.{ValueType, is_integer}
use device_sdk_python.Transformer.Words.{to_signed, truncate_int, transform_mask, transform_shift}

-- i is a value of the integer type.
abbrev pub Fits : ValueType → ℤ → Type 0
Fits ValueType.uint8 i = (pos 0 ≤ℤ i) × (i ≤ℤ pos (2 ^ 8 - 1))
Fits ValueType.uint16 i = (pos 0 ≤ℤ i) × (i ≤ℤ pos (2 ^ 16 - 1))
Fits ValueType.uint32 i = (pos 0 ≤ℤ i) × (i ≤ℤ pos (2 ^ 32 - 1))
Fits ValueType.uint64 i = (pos 0 ≤ℤ i) × (i ≤ℤ pos (2 ^ 64 - 1))
Fits ValueType.int8 i = (negsuc (2 ^ 7 - 1) ≤ℤ i) × (i ≤ℤ pos (2 ^ 7 - 1))
Fits ValueType.int16 i = (negsuc (2 ^ 15 - 1) ≤ℤ i) × (i ≤ℤ pos (2 ^ 15 - 1))
Fits ValueType.int32 i = (negsuc (2 ^ 31 - 1) ≤ℤ i) × (i ≤ℤ pos (2 ^ 31 - 1))
Fits ValueType.int64 i = (negsuc (2 ^ 63 - 1) ≤ℤ i) × (i ≤ℤ pos (2 ^ 63 - 1))
Fits _ i = ⊥

to_signed-Fits_8 : (m : ℕ) → m ≤ 2 ^ 8 - 1 → Fits ValueType.int8 (to_signed m 8)
unfolding to_signed
to_signed-Fits_8 m h = ground arith

to_signed-Fits_16 : (m : ℕ) → m ≤ 2 ^ 16 - 1 → Fits ValueType.int16 (to_signed m 16)
unfolding to_signed
to_signed-Fits_16 m h = ground arith

to_signed-Fits_32 : (m : ℕ) → m ≤ 2 ^ 32 - 1 → Fits ValueType.int32 (to_signed m 32)
unfolding to_signed
to_signed-Fits_32 m h = ground arith

to_signed-Fits_64 : (m : ℕ) → m ≤ 2 ^ 64 - 1 → Fits ValueType.int64 (to_signed m 64)
unfolding to_signed
to_signed-Fits_64 m h = ground arith

masked_le : (value mask : ℤ) (ones : ℕ) → and_mask value (and_mask mask ones) ≤ ones
masked_le value mask ones =
    omega (arith, and_mask-le value (and_mask mask ones), and_mask-le mask ones)

-- Truncation of any integer to a width gives a value of the type, and never fails.
pub truncate_int-Fits :
    (value : ℤ) (vt : ValueType)
    → is_integer vt ≡ true
    → (r : ℤ) × (truncate_int value vt ≡ ok r) × Fits vt r
unfolding truncate_int is_integer
truncate_int-Fits value ValueType.uint8 h = (_, refl, omega (arith, and_mask-le value (2 ^ 8 - 1)))
truncate_int-Fits value ValueType.uint16 h =
    (_, refl, omega (arith, and_mask-le value (2 ^ 16 - 1)))
truncate_int-Fits value ValueType.uint32 h =
    (_, refl, omega (arith, and_mask-le value (2 ^ 32 - 1)))
truncate_int-Fits value ValueType.uint64 h =
    (_, refl, omega (arith, and_mask-le value (2 ^ 64 - 1)))
truncate_int-Fits value ValueType.int8 h =
    (_, refl, to_signed-Fits_8 _ (and_mask-le value (2 ^ 8 - 1)))
truncate_int-Fits value ValueType.int16 h =
    (_, refl, to_signed-Fits_16 _ (and_mask-le value (2 ^ 16 - 1)))
truncate_int-Fits value ValueType.int32 h =
    (_, refl, to_signed-Fits_32 _ (and_mask-le value (2 ^ 32 - 1)))
truncate_int-Fits value ValueType.int64 h =
    (_, refl, to_signed-Fits_64 _ (and_mask-le value (2 ^ 64 - 1)))
truncate_int-Fits value _ h = cc

-- Masking any integer by any mask gives a value of the type, and never fails.
pub transform_mask-Fits :
    (value mask : ℤ) (vt : ValueType)
    → is_integer vt ≡ true
    → (r : ℤ) × (transform_mask value mask vt ≡ ok r) × Fits vt r
unfolding transform_mask is_integer
transform_mask-Fits value mask ValueType.uint8 h =
    (_, refl, omega (arith, masked_le value mask (2 ^ 8 - 1)))
transform_mask-Fits value mask ValueType.uint16 h =
    (_, refl, omega (arith, masked_le value mask (2 ^ 16 - 1)))
transform_mask-Fits value mask ValueType.uint32 h =
    (_, refl, omega (arith, masked_le value mask (2 ^ 32 - 1)))
transform_mask-Fits value mask ValueType.uint64 h =
    (_, refl, omega (arith, masked_le value mask (2 ^ 64 - 1)))
transform_mask-Fits value mask ValueType.int8 h =
    (_, refl, to_signed-Fits_8 _ (masked_le value mask (2 ^ 8 - 1)))
transform_mask-Fits value mask ValueType.int16 h =
    (_, refl, to_signed-Fits_16 _ (masked_le value mask (2 ^ 16 - 1)))
transform_mask-Fits value mask ValueType.int32 h =
    (_, refl, to_signed-Fits_32 _ (masked_le value mask (2 ^ 32 - 1)))
transform_mask-Fits value mask ValueType.int64 h =
    (_, refl, to_signed-Fits_64 _ (masked_le value mask (2 ^ 64 - 1)))
transform_mask-Fits value mask _ h = cc

-- Shifting any integer by any amount, to either side, gives a value of the type, and never fails.
pub transform_shift-Fits :
    (value shift : ℤ) (vt : ValueType)
    → is_integer vt ≡ true
    → (r : ℤ) × (transform_shift value shift vt ≡ ok r) × Fits vt r
unfolding transform_shift
transform_shift-Fits value shift vt h = elim (Bool-cases (ltb_ℤ (pos 0) shift)) [
  | inl right ↦ rw right (truncate_int-Fits _ vt h)
  | inr left ↦ rw left (truncate_int-Fits _ vt h)
]
