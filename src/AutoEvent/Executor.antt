-- ===== src/AutoEvent/Executor.antt =====
-- `AutoEventExecutor` of internal/autoevent/executor.py: what one execution reads, compares with the
-- last readings, and sends. An executor is its fields; the handler that reads, the clock and Python's
-- own functions on values are parameters. The list of a read may hold `None`, as for a command.
pub mod Unchanged
use device_sdk_python.Base.{
  ℕ, Bool, true, false, not, ◌&&◌, String, Option, none, some, List, [], ◌∷◌, ◌++◌, map, nat_eq,
  length, if◌then◌else◌,
}
use device_sdk_python.Base.Int.{ℤ}
use device_sdk_python.Base.Dict
use device_sdk_python.Base.Dict.{Dict}
use device_sdk_python.Raise.{Result, Exn, ok, raise, attribute_error, auto_event_error, ◌>>=◌}
use device_sdk_python.Floats.{Floats}
use device_sdk_python.Model.ValueType.{is_binary, is_numeric}
use device_sdk_python.Model.Value.{Value, is_null}
use device_sdk_python.Model.Metadata.{AutoEvent}
use device_sdk_python.Model.CommandValue.{CommandValue}

-- models/async_values.py
pub record AsyncValues (F : Type 0) : Type 0 where
  pub device_name : String
  pub source_name : String
  pub command_values : List (Option (CommandValue F))
  pub origin : ℤ

pub record Executor (F : Type 0) : Type 0 where
  pub device_name : String
  pub source_name : String
  pub on_change : Bool
  pub on_change_threshold : F
  pub interval : F
  pub send_changed_readings_only : Bool
  pub last_readings : Dict (Value F)
  pub changed_readings : List (CommandValue F)

-- `zlib.crc32(bytes(value))`, `float(value)`, and `a == b` of two values
pub record Values (F : Type 0) : Type 0 where
  pub crc32 : Value F → Result ℤ
  pub float : Value F → Result F
  pub eq : Value F → Value F → Bool

-- `create_executor`, from what `parse_duration` makes of the interval. `none` does not occur.
unfoldable pub create_executor :
    {F : Type 0} → String → AutoEvent F → Bool → Option (Result F) → Result (Executor F)
create_executor device_name auto_event send_changed_readings_only none = raise auto_event_error
create_executor device_name auto_event send_changed_readings_only (some (raise e)) = raise e
create_executor device_name auto_event send_changed_readings_only (some (ok seconds)) = ok (record {
  device_name = device_name;
  source_name = auto_event.source_name;
  on_change = auto_event.on_change;
  on_change_threshold = auto_event.on_change_threshold;
  interval = seconds;
  send_changed_readings_only = send_changed_readings_only;
  last_readings = [];
  changed_readings = [];
})

-- `cv.device_resource_name` of all items, which fails on a `None`
present : {F : Type 0} → List (Option (CommandValue F)) → Result (List (CommandValue F))
present [] = ok []
present (none ∷ cvs) = raise attribute_error
present (some cv ∷ cvs) = elim (present cvs) [ ok rest ↦ ok (cv ∷ rest) | raise e ↦ raise e ]

module _ (floats : Floats) (values : Values floats.Float) where
  open floats use {Float}

  -- `_checksum`
  unfoldable pub checksum : Value Float → Result (Value Float)
  checksum value = elim (values.crc32 value) [ ok n ↦ ok (Value.int n) | raise e ↦ raise e ]

  -- `_to_float`
  unfoldable pub to_float : Value Float → Result Float
  to_float value = elim (values.float value) [
    | raise Exn.type_error ↦ ok floats.zero
    | raise Exn.value_error ↦ ok floats.zero
    | other ↦ other
  ]

  -- what is kept of a reading
  unfoldable pub kept : CommandValue Float → Result (Value Float)
  unfolding checksum is_binary
  kept cv = if is_binary cv.value_type then checksum cv.value else ok cv.value

  -- the loop of `_renew_last_readings`
  renew_onto :
      Dict (Value Float) → List (CommandValue Float) → Result (Unit {0}) × Dict (Value Float)
  unfolding kept
  renew_onto last [] = (ok tt, last)
  renew_onto last (cv ∷ cvs) = elim (kept cv) [
    | ok value ↦ renew_onto (Dict.put last cv.device_resource_name value) cvs
    | raise e ↦ (raise e, last)
  ]

  -- `{cv.device_resource_name: cv for cv in command_values}`
  current_onto : Dict (CommandValue Float) → List (CommandValue Float) → Dict (CommandValue Float)
  current_onto current [] = current
  current_onto current (cv ∷ cvs) = current_onto (Dict.put current cv.device_resource_name cv) cvs

  renewed :
      List (CommandValue Float)
      → Executor Float
      → Result (Unit {0}) × Dict (Value Float)
      → Result Bool × Executor Float
  renewed cvs e (raise x, last) = (raise x, record e { last_readings = last })
  renewed cvs e (ok _, last) = (ok false, record e { last_readings = last; changed_readings = cvs })

  -- `_renew_last_readings`, and what follows it: all readings count as changed
  renew : List (CommandValue Float) → Executor Float → Result Bool × Executor Float
  unfolding renew_onto renewed
  renew cvs e = renewed cvs e (renew_onto [] cvs)

  -- the part of a round that compares a value with the last one: the value to keep, if it changed
  unfoldable pub differs : Float → Value Float → CommandValue Float → Result (Option (Value Float))
  unfolding checksum to_float is_binary is_numeric
  differs threshold last cv =
      if is_binary cv.value_type
      then (do sum ← checksum cv.value; ok (if values.eq last sum then none else some sum))
      else if is_numeric cv.value_type
      then (do
        old ← to_float last
        new ← to_float cv.value
        ok (if floats.lt threshold (floats.fabs (floats.sub old new)) then some cv.value else none))
      else ok (if values.eq last cv.value then none else some cv.value)

  -- `self._last_readings.get(name)`, where a value `None` reads as no value
  unfoldable pub last_of : Executor Float → String → Option (Value Float)
  last_of e name = elim (Dict.get e.last_readings name) [
    | some value ↦ if is_null value then none else some value
    | none ↦ none
  ]

  changed : Executor Float → CommandValue Float → Value Float → Executor Float
  changed e cv value = record e {
    last_readings = Dict.put e.last_readings cv.device_resource_name value;
    changed_readings = e.changed_readings ++ cv ∷ [];
  }

  -- the end of a round, with the rest of the loop
  compare_found :
      CommandValue Float
      → Bool
      → Executor Float
      → (Bool → Executor Float → Result Bool × Executor Float)
      → Result (Option (Value Float))
      → Result Bool × Executor Float
  compare_found cv result e rest (raise x) = (raise x, e)
  compare_found cv result e rest (ok none) = rest result e
  compare_found cv result e rest (ok (some value)) = rest false (changed e cv value)

  compare_last :
      List (CommandValue Float)
      → CommandValue Float
      → Bool
      → Executor Float
      → (Bool → Executor Float → Result Bool × Executor Float)
      → Option (Value Float)
      → Result Bool × Executor Float
  unfolding compare_found changed differs renew
  compare_last cvs cv result e rest none = renew cvs e
  compare_last cvs cv result e rest (some last) =
      compare_found cv result e rest (differs e.on_change_threshold last cv)

  -- the loop of `_compare_readings`: all readings, the readings left, and `result` so far
  compare_each :
      List (CommandValue Float)
      → List (CommandValue Float)
      → Bool
      → Executor Float
      → Result Bool × Executor Float
  unfolding compare_last last_of
  compare_each cvs [] result e = (ok result, e)
  compare_each cvs (cv ∷ left) result e =
      compare_last cvs cv result e (λ r e'. compare_each cvs left r e')
        (last_of e cv.device_resource_name)

  compare_present : List (CommandValue Float) → Executor Float → Result Bool × Executor Float
  unfolding compare_each current_onto renew
  compare_present cvs e =
      if nat_eq (length e.last_readings) (length (current_onto [] cvs))
      then compare_each cvs cvs true (record e { changed_readings = [] })
      else renew cvs e

  unfoldable pub compare_readings :
      List (Option (CommandValue Float)) → Executor Float → Result Bool × Executor Float
  unfolding compare_present present
  compare_readings cvs e = elim (present cvs) [
    | ok all_of ↦ compare_present all_of e
    | raise x ↦ (raise x, e)
  ]

  -- what is sent: the changed readings alone, if that is asked for and there are some
  unfoldable pub outgoing_values :
      List (Option (CommandValue Float)) → Executor Float → List (Option (CommandValue Float))
  outgoing_values cvs e =
      if e.on_change && e.send_changed_readings_only && not (nat_eq (length e.changed_readings) 0)
      then map (λ cv. some cv) e.changed_readings
      else cvs

  async_values : ℤ → List (Option (CommandValue Float)) → Executor Float → AsyncValues Float
  unfolding outgoing_values
  async_values now cvs e = record {
    device_name = e.device_name;
    source_name = e.source_name;
    command_values = outgoing_values cvs e;
    origin = now;
  }

  -- `none` for an execution that sends nothing
  after_comparison :
      ℤ
      → List (Option (CommandValue Float))
      → Result Bool × Executor Float
      → Result (Option (AsyncValues Float)) × Executor Float
  unfolding async_values
  after_comparison now cvs (raise x, e) = (raise x, e)
  after_comparison now cvs (ok true, e) = (ok none, e)
  after_comparison now cvs (ok false, e) = (ok (some (async_values now cvs e)), e)

  -- `_execute_once`: the answer of the handler that reads, and the clock
  unfoldable pub execute_once :
      ℤ
      → Result (Option (List (Option (CommandValue Float))))
      → Executor Float
      → Result (Option (AsyncValues Float)) × Executor Float
  unfolding compare_readings after_comparison
  execute_once now (raise x) e = (ok none, e)
  execute_once now (ok none) e = (ok none, e)
  execute_once now (ok (some [])) e = (ok none, e)
  execute_once now (ok (some (cv ∷ cvs))) e =
      if e.on_change
      then after_comparison now (cv ∷ cvs) (compare_readings (cv ∷ cvs) e)
      else (ok (some (async_values now (cv ∷ cvs) e)), e)
