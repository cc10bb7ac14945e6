-- ===== src/Floats.antt =====
-- Python's `float` with what the SDK uses of the operators, of `math` and of `struct`. The runtime
-- is no part of the repository, so it is a parameter of the model. What can raise returns a
-- `Result`; a comparison with an `int` is exact, as in Python.
use device_sdk_python.Base.{ℕ, Bool, String}
use device_sdk_python.Base.Int.{ℤ}
use device_sdk_python.Raise.{Result}
use device_sdk_python.Model.Value.{Value}

pub record Floats : Type 1 where
  pub Float : Type 0
  -- float(i) and int(x)
  pub of_int : ℤ → Result Float
  pub to_int : Float → Result ℤ
  -- struct.unpack("f", struct.pack("f", x))[0]
  pub to_float32 : Float → Result Float
  -- x + y, x - y, x * y, -x, x / y, math.pow(x, y), math.log(x)
  pub add : Float → Float → Float
  pub sub : Float → Float → Float
  pub mul : Float → Float → Float
  pub neg : Float → Float
  pub div : Float → Float → Result Float
  pub pow : Float → Float → Result Float
  pub log : Float → Result Float
  -- math.fabs, math.trunc, math.isnan, math.isinf
  pub fabs : Float → Float
  pub trunc : Float → Result ℤ
  pub isnan : Float → Bool
  pub isinf : Float → Bool
  -- x < y, x <= y and x == y of two floats
  pub lt : Float → Float → Bool
  pub le : Float → Float → Bool
  pub eq : Float → Float → Bool
  -- i < x, x < i, i <= x, x <= i and i == x of an int and a float
  pub int_lt : ℤ → Float → Bool
  pub lt_int : Float → ℤ → Bool
  pub int_le : ℤ → Float → Bool
  pub le_int : Float → ℤ → Bool
  pub int_eq : ℤ → Float → Bool
  -- 0.0, 1.0 and 3.4028234663852886e+38
  pub zero : Float
  pub one : Float
  pub max_float32 : Float
  -- str(value)
  pub str : Value Float → String
  -- f"{x:.{precision}g}", float(text) and repr(x)
  pub format_g : ℕ → Float → String
  pub parse : String → Result Float
  pub repr : Float → String
  -- f"Binary: [{value[:20]!r}...]", which raises for a value that cannot be sliced
  pub binary_text : Value Float → Result String
