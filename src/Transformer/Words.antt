-- ===== src/Transformer/Words.antt =====
-- Integers of a width: `_INT_WIDTHS`, `_to_signed`, `_truncate_int`, `_trunc_div`, `transform_mask`
-- and `transform_shift` of internal/transformer/transformresult.py.
pub mod Bounds
pub mod Wrap
use device_sdk_python.Base.{ℕ, ◌-◌, ◌/◌, ◌%◌, ◌^◌, Bool, true, false, not, nat_eq, if◌then◌else◌}
use device_sdk_python.Base.Int.{
  ℤ, pos, ◌-ℤ◌, ◌*ℤ◌, abs_ℤ, neg_ℤ, leb_ℤ, ltb_ℤ, floor_div, and_mask, eq_ℤ,
}
use device_sdk_python.Raise.{Result, ok, raise, key_error, overflow_transformer_error, ◌>>=◌}
use device_sdk_python.Model.ValueType.{ValueType, is_signed}

-- `_INT_WIDTHS[value_type]`
unfoldable pub int_width : ValueType → Result ℕ
int_width ValueType.uint8 = ok 8
int_width ValueType.uint16 = ok 16
int_width ValueType.uint32 = ok 32
int_width ValueType.uint64 = ok 64
int_width ValueType.int8 = ok 8
int_width ValueType.int16 = ok 16
int_width ValueType.int32 = ok 32
int_width ValueType.int64 = ok 64
int_width _ = raise key_error

-- `value & (1 << (bits - 1))` is not 0: the bit of that place is set. `value` is not negative here.
unfoldable pub to_signed : ℕ → ℕ → ℤ
unfolding ◌-ℤ◌
to_signed value bits =
    if nat_eq (value / 2 ^ (bits - 1) % 2) 1 then pos value -ℤ pos (2 ^ bits) else pos value

unfoldable pub truncate_int : ℤ → ValueType → Result ℤ
unfolding int_width and_mask to_signed is_signed
truncate_int value vt = do
  bits ← int_width vt
  let masked = and_mask value (2 ^ bits - 1)
  ok (if is_signed vt then to_signed masked bits else pos masked)

-- a == b, of two truth values
abbrev same : Bool → Bool → Bool
same true b = b
same false b = not b

-- `abs(a) // abs(b)`, with the sign of a quotient
unfoldable pub trunc_div : ℤ → ℤ → Result ℤ
unfolding neg_ℤ
trunc_div a b =
    if eq_ℤ b (pos 0)
    then raise overflow_transformer_error
    else (let quotient = pos (abs_ℤ a / abs_ℤ b) in
        ok (if same (leb_ℤ (pos 0) a) (leb_ℤ (pos 0) b) then quotient else neg_ℤ quotient))

-- `value & truncated_mask`, where `mask & ((1 << bits) - 1)` is not negative
unfoldable pub transform_mask : ℤ → ℤ → ValueType → Result ℤ
unfolding int_width and_mask to_signed is_signed
transform_mask value mask vt = do
  bits ← int_width vt
  let truncated_mask = and_mask mask (2 ^ bits - 1)
  let result = and_mask value truncated_mask
  ok (if is_signed vt then to_signed result bits else pos result)

-- `value >> shift` is `value // 2 ** shift`, and `value << shift` is `value * 2 ** shift`.
unfoldable pub transform_shift : ℤ → ℤ → ValueType → Result ℤ
unfolding truncate_int floor_div ◌*ℤ◌ neg_ℤ
transform_shift value shift vt =
    if ltb_ℤ (pos 0) shift
    then truncate_int (floor_div value (2 ^ abs_ℤ shift)) vt
    else truncate_int (value *ℤ pos (2 ^ abs_ℤ shift)) vt
