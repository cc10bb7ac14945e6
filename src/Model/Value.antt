-- ===== src/Model/Value.antt =====
-- The Python values that a `CommandValue`, a request body, a tag or an attribute can hold. `F` is
-- Python's `float`. A list and a dict of values are types of their own, in one block.
use device_sdk_python.Base.{ℕ, Bool, true, false, String, ◌&&◌, List}
use device_sdk_python.Base.Int.{ℤ}

mutual
  pub data Value (F : Type 0) : Type 0 where
    null : Value F
    bool : Bool → Value F
    int : ℤ → Value F
    float : F → Value F
    str : String → Value F
    bytes : List ℕ → Value F
    list : Values F → Value F
    dict : Fields F → Value F

  pub data Values (F : Type 0) : Type 0 where
    nil : Values F
    cons : Value F → Values F → Values F

  pub data Fields (F : Type 0) : Type 0 where
    end : Fields F
    field : String → Value F → Fields F → Fields F

module _ {F : Type 0} where
  abbrev pub is_null : Value F → Bool
  is_null Value.null = true
  is_null _ = false

  -- isinstance(value, bool), isinstance(value, str), `_is_float`, `_is_binary`, isinstance(item, dict)
  abbrev pub is_bool : Value F → Bool
  is_bool (Value.bool b) = true
  is_bool _ = false

  abbrev pub is_str : Value F → Bool
  is_str (Value.str s) = true
  is_str _ = false

  -- `_is_int`: Python's bool is an int, and is left out
  abbrev pub is_int : Value F → Bool
  is_int (Value.int i) = true
  is_int _ = false

  abbrev pub is_float : Value F → Bool
  is_float (Value.float f) = true
  is_float _ = false

  abbrev pub is_bytes : Value F → Bool
  is_bytes (Value.bytes b) = true
  is_bytes _ = false

  abbrev pub is_dict : Value F → Bool
  is_dict (Value.dict d) = true
  is_dict _ = false

  -- all(p(item) for item in value)
  unfoldable pub all_items : (Value F → Bool) → Values F → Bool
  all_items p Values.nil = true
  all_items p (Values.cons v vs) = p v && all_items p vs

  -- isinstance(value, list) and all(p(item) for item in value)
  unfoldable pub is_list_of : (Value F → Bool) → Value F → Bool
  unfolding all_items
  is_list_of p (Value.list vs) = all_items p vs
  is_list_of p _ = false
