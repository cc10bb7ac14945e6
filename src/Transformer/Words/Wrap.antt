-- ===== src/Transformer/Words/Wrap.antt =====
-- Truncation keeps the value modulo the width, and every value of the type as it is. So what is
-- added and taken away again comes back, and a right shift loses only the bits that it drops.
use device_sdk_python.Base.{
  ltb, if◌then◌else◌, ℕ, suc, ◌-◌, ◌^◌, ◌≤◌, ◌≡◌, refl, sym, ap, ◌∙◌, true, arith,
}
use native.Mathlib.Nat.{add-zero}
use device_sdk_python.Base.Int.{ℤ, pos, negsuc, ◌+ℤ◌, ◌-ℤ◌, mod_ℤ, floor_div, ltb_ℤ}
use device_sdk_python.Base.Bits.{and_mask-ones}
use device_sdk_python.Raise.{ok}
use device_sdk_python.Model.ValueType.{ValueType, is_integer}
use device_sdk_python.Transformer.Words.{to_signed, truncate_int, transform_shift}
use device_sdk_python.Transformer.Words.Bounds.{Fits}

-- The number of a type with `bits` bits that is equal to m modulo 2 ** bits: from 2 ** (bits - 1) on it
-- is negative.
unfoldable pub signed : ℕ → ℕ → ℤ
signed m bits = if ltb m (2 ^ (bits - 1)) then pos m else negsuc (2 ^ bits - 1 - m)

-- The value of the type that is equal to `v` modulo 2 to the type's width.
unfoldable pub wrap : ValueType → ℤ → ℤ
unfolding mod_ℤ signed
wrap ValueType.uint8 v = pos (mod_ℤ v (2 ^ 8))
wrap ValueType.uint16 v = pos (mod_ℤ v (2 ^ 16))
wrap ValueType.uint32 v = pos (mod_ℤ v (2 ^ 32))
wrap ValueType.uint64 v = pos (mod_ℤ v (2 ^ 64))
wrap ValueType.int8 v = signed (mod_ℤ v (2 ^ 8)) 8
wrap ValueType.int16 v = signed (mod_ℤ v (2 ^ 16)) 16
wrap ValueType.int32 v = signed (mod_ℤ v (2 ^ 32)) 32
wrap ValueType.int64 v = signed (mod_ℤ v (2 ^ 64)) 64
wrap _ v = v

mod-le_8 : (v : ℤ) → mod_ℤ v (2 ^ 8) ≤ 2 ^ 8 - 1
unfolding mod_ℤ
mod-le_8 v = ground arith

to_signed-signed_8 : (m : ℕ) → m ≤ 2 ^ 8 - 1 → to_signed m 8 ≡ signed m 8
unfolding to_signed signed ◌-ℤ◌
to_signed-signed_8 m h = ground arith

mod-le_16 : (v : ℤ) → mod_ℤ v (2 ^ 16) ≤ 2 ^ 16 - 1
unfolding mod_ℤ
mod-le_16 v = ground arith

to_signed-signed_16 : (m : ℕ) → m ≤ 2 ^ 16 - 1 → to_signed m 16 ≡ signed m 16
unfolding to_signed signed ◌-ℤ◌
to_signed-signed_16 m h = ground arith

mod-le_32 : (v : ℤ) → mod_ℤ v (2 ^ 32) ≤ 2 ^ 32 - 1
unfolding mod_ℤ
mod-le_32 v = ground arith

to_signed-signed_32 : (m : ℕ) → m ≤ 2 ^ 32 - 1 → to_signed m 32 ≡ signed m 32
unfolding to_signed signed ◌-ℤ◌
to_signed-signed_32 m h = ground arith

mod-le_64 : (v : ℤ) → mod_ℤ v (2 ^ 64) ≤ 2 ^ 64 - 1
unfolding mod_ℤ
mod-le_64 v = ground arith

to_signed-signed_64 : (m : ℕ) → m ≤ 2 ^ 64 - 1 → to_signed m 64 ≡ signed m 64
unfolding to_signed signed ◌-ℤ◌
to_signed-signed_64 m h = ground arith

-- Truncation of any integer to an integer type succeeds, with the integer wrapped to the type: what
-- it is modulo 2 ** width, less 2 ** width for a signed type where that is 2 ** (width - 1) or more.
pub truncate_int-wrap :
    (v : ℤ) (vt : ValueType) → is_integer vt ≡ true → truncate_int v vt ≡ ok (wrap vt v)
unfolding truncate_int is_integer wrap
truncate_int-wrap v ValueType.uint8 h = rw (and_mask-ones 8 v)
truncate_int-wrap v ValueType.uint16 h = rw (and_mask-ones 16 v)
truncate_int-wrap v ValueType.uint32 h = rw (and_mask-ones 32 v)
truncate_int-wrap v ValueType.uint64 h = rw (and_mask-ones 64 v)
truncate_int-wrap v ValueType.int8 h =
    rw (and_mask-ones 8 v) (ap ok (to_signed-signed_8 (mod_ℤ v (2 ^ 8)) (mod-le_8 v)))
truncate_int-wrap v ValueType.int16 h =
    rw (and_mask-ones 16 v) (ap ok (to_signed-signed_16 (mod_ℤ v (2 ^ 16)) (mod-le_16 v)))
truncate_int-wrap v ValueType.int32 h =
    rw (and_mask-ones 32 v) (ap ok (to_signed-signed_32 (mod_ℤ v (2 ^ 32)) (mod-le_32 v)))
truncate_int-wrap v ValueType.int64 h =
    rw (and_mask-ones 64 v) (ap ok (to_signed-signed_64 (mod_ℤ v (2 ^ 64)) (mod-le_64 v)))
truncate_int-wrap v _ h = cc

pub wrap_of_Fits : (vt : ValueType) (v : ℤ) → Fits vt v → wrap vt v ≡ v
unfolding wrap
wrap_of_Fits ValueType.uint8 v h = ground arith
wrap_of_Fits ValueType.uint16 v h = ground arith
wrap_of_Fits ValueType.uint32 v h = ground arith
wrap_of_Fits ValueType.uint64 v h = ground arith
wrap_of_Fits ValueType.int8 v h = ground arith
wrap_of_Fits ValueType.int16 v h = ground arith
wrap_of_Fits ValueType.int32 v h = ground arith
wrap_of_Fits ValueType.int64 v h = ground arith
wrap_of_Fits _ v h = refl

wrap_add_8 : (a o : ℤ) → mod_ℤ (pos (mod_ℤ a (2 ^ 8)) +ℤ o) (2 ^ 8) ≡ mod_ℤ (a +ℤ o) (2 ^ 8)
unfolding ◌+ℤ◌ mod_ℤ
wrap_add_8 a o = ground arith

signed-add_8 :
    (m : ℕ) (o : ℤ) → m ≤ 2 ^ 8 - 1 → mod_ℤ (signed m 8 +ℤ o) (2 ^ 8) ≡ mod_ℤ (pos m +ℤ o) (2 ^ 8)
unfolding ◌+ℤ◌ mod_ℤ signed
signed-add_8 m o h = ground arith

wrap_add_16 : (a o : ℤ) → mod_ℤ (pos (mod_ℤ a (2 ^ 16)) +ℤ o) (2 ^ 16) ≡ mod_ℤ (a +ℤ o) (2 ^ 16)
unfolding ◌+ℤ◌ mod_ℤ
wrap_add_16 a o = ground arith

signed-add_16 :
    (m : ℕ) (o : ℤ)
    → m ≤ 2 ^ 16 - 1
    → mod_ℤ (signed m 16 +ℤ o) (2 ^ 16) ≡ mod_ℤ (pos m +ℤ o) (2 ^ 16)
unfolding ◌+ℤ◌ mod_ℤ signed
signed-add_16 m o h = ground arith

wrap_add_32 : (a o : ℤ) → mod_ℤ (pos (mod_ℤ a (2 ^ 32)) +ℤ o) (2 ^ 32) ≡ mod_ℤ (a +ℤ o) (2 ^ 32)
unfolding ◌+ℤ◌ mod_ℤ
wrap_add_32 a o = ground arith

signed-add_32 :
    (m : ℕ) (o : ℤ)
    → m ≤ 2 ^ 32 - 1
    → mod_ℤ (signed m 32 +ℤ o) (2 ^ 32) ≡ mod_ℤ (pos m +ℤ o) (2 ^ 32)
unfolding ◌+ℤ◌ mod_ℤ signed
signed-add_32 m o h = ground arith

wrap_add_64 : (a o : ℤ) → mod_ℤ (pos (mod_ℤ a (2 ^ 64)) +ℤ o) (2 ^ 64) ≡ mod_ℤ (a +ℤ o) (2 ^ 64)
unfolding ◌+ℤ◌ mod_ℤ
wrap_add_64 a o = ground arith

signed-add_64 :
    (m : ℕ) (o : ℤ)
    → m ≤ 2 ^ 64 - 1
    → mod_ℤ (signed m 64 +ℤ o) (2 ^ 64) ≡ mod_ℤ (pos m +ℤ o) (2 ^ 64)
unfolding ◌+ℤ◌ mod_ℤ signed
signed-add_64 m o h = ground arith

-- A sum may be wrapped before or after an addend.
pub wrap-add : (vt : ValueType) (a o : ℤ) → wrap vt (wrap vt a +ℤ o) ≡ wrap vt (a +ℤ o)
unfolding wrap
wrap-add ValueType.uint8 a o = ap pos (wrap_add_8 a o)
wrap-add ValueType.uint16 a o = ap pos (wrap_add_16 a o)
wrap-add ValueType.uint32 a o = ap pos (wrap_add_32 a o)
wrap-add ValueType.uint64 a o = ap pos (wrap_add_64 a o)
wrap-add ValueType.int8 a o =
    ap (λ (m : ℕ). signed m 8) (signed-add_8 _ o (mod-le_8 a) ∙ wrap_add_8 a o)
wrap-add ValueType.int16 a o =
    ap (λ (m : ℕ). signed m 16) (signed-add_16 _ o (mod-le_16 a) ∙ wrap_add_16 a o)
wrap-add ValueType.int32 a o =
    ap (λ (m : ℕ). signed m 32) (signed-add_32 _ o (mod-le_32 a) ∙ wrap_add_32 a o)
wrap-add ValueType.int64 a o =
    ap (λ (m : ℕ). signed m 64) (signed-add_64 _ o (mod-le_64 a) ∙ wrap_add_64 a o)
wrap-add _ a o = refl

pub sub-add : (a o : ℤ) → a -ℤ o +ℤ o ≡ a
unfolding ◌+ℤ◌ ◌-ℤ◌
sub-add a o = ground arith

-- What an integer type holds comes back, if a number is taken away from it and added again, each
-- time truncated to the type, also where the difference does not fit.
pub truncate-sub-add :
    (v o : ℤ) (vt : ValueType) {r s : ℤ}
    → is_integer vt ≡ true
    → Fits vt v
    → truncate_int (v -ℤ o) vt ≡ ok r
    → truncate_int (r +ℤ o) vt ≡ ok s
    → s ≡ v
truncate-sub-add v o vt {r} {s} h fits p q =
    let er : wrap vt (v -ℤ o) ≡ r = cc (truncate_int-wrap (v -ℤ o) vt h) in
    let es : wrap vt (r +ℤ o) ≡ s = cc (truncate_int-wrap (r +ℤ o) vt h) in
    sym es
    ∙ ap (λ x. wrap vt (x +ℤ o)) (sym er)
    ∙ wrap-add vt (v -ℤ o) o
    ∙ ap (wrap vt) (sub-add v o)
    ∙ wrap_of_Fits vt v fits

floor_div-Fits : (v : ℤ) (d : ℕ) (vt : ValueType) → Fits vt v → Fits vt (floor_div v d)
unfolding floor_div
floor_div-Fits (pos n) d ValueType.uint8 h = omega arith
floor_div-Fits (pos n) d vt h = omega arith
floor_div-Fits (negsuc n) d ValueType.uint8 h = omega arith
floor_div-Fits (negsuc n) d vt h = omega arith

-- A shift to the right by k of a value of the type is its quotient by 2 ** k, rounded down: nothing
-- is truncated.
pub transform_shift_right :
    (v : ℤ) (k : ℕ) (vt : ValueType)
    → is_integer vt ≡ true
    → Fits vt v
    → transform_shift v (pos (suc k)) vt ≡ ok (floor_div v (2 ^ suc k))
unfolding transform_shift
transform_shift_right v k vt h fits =
    let right : ltb_ℤ (pos 0) (pos (suc k)) ≡ true = ground arith in
    rw (right, add-zero)
      (truncate_int-wrap (floor_div v (2 ^ suc k)) vt h
        ∙ ap ok (wrap_of_Fits vt (floor_div v (2 ^ suc k)) (floor_div-Fits v (2 ^ suc k) vt fits)))
