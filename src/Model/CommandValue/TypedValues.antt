-- ===== src/Model/CommandValue/TypedValues.antt =====
-- The typed getters of models/command_value.py against the values that `create_command_value`
-- accepts.
use device_sdk_python.Base.{◌≡◌, false, String, [], arith}
use device_sdk_python.Base.Int.{pos}
use device_sdk_python.Raise.{ok}
use device_sdk_python.Model.ValueType.{ValueType}
use device_sdk_python.Model.Value.{Value, is_null}
use device_sdk_python.Model.CommandValue.{CommandValue, validate, create_command_value, typed_value}

module _ {F : Type 0} where
  abbrev made : String → ValueType → Value F → CommandValue F
  made name vt v = record {
    device_resource_name = name;
    value_type = vt;
    value = v;
    origin = pos 0;
    tags = [];
  }

  typed_value-made :
      (name : String) (vt : ValueType) (v : Value F)
      → validate vt v ≡ ok tt
      → is_null v ≡ false
      → typed_value vt (made name vt v) ≡ ok v
  unfolding validate typed_value
  typed_value-made name ValueType.bool v h k = ground arith
  typed_value-made name _ v h k = ground arith

  create-made :
      (name : String) (vt : ValueType) (v : Value F) {cv : CommandValue F}
      → create_command_value name vt v ≡ ok cv
      → (validate vt v ≡ ok tt) × (cv ≡ made name vt v)
  unfolding create_command_value
  create-made name vt v h = ground arith

  -- A value that `create_command_value` accepts for a value type is what the getter of that value
  -- type returns, if the value is not null.
  pub typed_value-create :
      (name : String) (vt : ValueType) (v : Value F) {cv : CommandValue F}
      → create_command_value name vt v ≡ ok cv
      → is_null v ≡ false
      → typed_value vt cv ≡ ok v
  typed_value-create name vt v h k =
      let (valid, e) = create-made name vt v h in rw e (typed_value-made name vt v valid k)
