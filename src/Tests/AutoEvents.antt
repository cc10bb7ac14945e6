-- ===== src/Tests/AutoEvents.antt =====
-- The theorems on auto events, at the small service.
use Prim.Native.Char.{Char, code}
use device_sdk_python.Base.{
  ◌≡◌, ◌↔◌, refl, Bool, true, String, Option, none, some, List, [], ◌∷◌, nat_eq, length, All,
}
use device_sdk_python.Base.Int.{ℤ, pos}
use device_sdk_python.Raise.{Result, ok}
use device_sdk_python.Model.Value.{Value}
use device_sdk_python.Cache.Devices
use device_sdk_python.Cache.Devices.{DeviceCache}
use device_sdk_python.Cache.Devices.Keys.{init-IsValid}
use device_sdk_python.Cache.Profiles
use device_sdk_python.Command.State.{State, Outside}
use device_sdk_python.AutoEvent.Duration.{parse_duration}
use device_sdk_python.AutoEvent.Duration.Ends.{parse_duration-some}
use device_sdk_python.AutoEvent.Executor.{Executor, Values, execute_once}
use device_sdk_python.AutoEvent.Executor.Unchanged.{IsUnchanged, reads, names, execute_once_iff}
use device_sdk_python.AutoEvent.Manager
use device_sdk_python.AutoEvent.Manager.Stopped
use device_sdk_python.AutoEvent.Manager.Stopped.{Stops, run-Stops}
use device_sdk_python.AutoEvent.Manager.Restarted.{executors_at, due, restart_for_device-due}
use device_sdk_python.AutoEvent.Source.{read}
use device_sdk_python.AutoEvent.Source.Asked.{Asked, read-Asked}
use device_sdk_python.Tests.{whole, pumps, scheduled, seven}

-- the digit 7 and the letters m and s
abbrev is_digit : Char → Bool
is_digit c = nat_eq (code c) b'7'

abbrev is_alpha : Char → Bool
is_alpha c = nat_eq (code c) b's'

abbrev values : Values ℤ
values = record { crc32 = λ v. ok (pos 0); float = λ v. ok (pos 7); eq = λ a b. true }

abbrev executor : Executor ℤ
executor = record {
  device_name = "pump";
  source_name = "level";
  on_change = true;
  on_change_threshold = pos 1;
  interval = pos 10;
  send_changed_readings_only = true;
  last_readings = ("level", Value.int (pos 7)) ∷ [];
  changed_readings = [];
}

abbrev duration : String → Option (Result ℤ)
duration interval = some (ok (pos 10))

abbrev devices : DeviceCache ℤ
devices = Devices.init (scheduled ∷ [])

abbrev calls : List (Stopped.Call ℤ)
calls =
    Stopped.Call.restart_for_device devices "pump"
    ∷ Stopped.Call.stop_for_device "valve"
    ∷ Stopped.Call.restart_for_device devices "pump"
    ∷ []

abbrev outside : Outside ℤ
outside = record {
  handle_read = λ calls name protocols reqs. ok (some (some seven ∷ []));
  handle_write = λ calls name protocols reqs params. ok tt;
  patch_device = λ calls name state. true;
}

abbrev state : State ℤ
state = record { devices = devices; failures = []; calls = [] }

parse_duration-some_example :
    (r : Result ℤ) × (parse_duration whole is_digit is_alpha "-7s7s" ≡ some r)
parse_duration-some_example = parse_duration-some whole is_digit is_alpha "-7s7s"

execute_once_iff_example :
    ((execute_once whole values (pos 10) (reads whole values (seven ∷ [])) executor).0 ≡ ok none ↔ (
      (length executor.last_readings ≡ names whole values (seven ∷ []))
      × All (IsUnchanged whole values executor) (seven ∷ [])))
    × ((execute_once whole values (pos 10) (reads whole values (seven ∷ [])) executor).0 ≡ ok none
        → (execute_once whole values (pos 10) (reads whole values (seven ∷ [])) executor).1
          ≡ record executor { changed_readings = [] })
execute_once_iff_example = execute_once_iff whole values (pos 10) seven [] executor refl

run-Stops_example : Stops "pump" (
    Stopped.run duration true (Manager.start_auto_events duration true devices Manager.empty) calls)
run-Stops_example = run-Stops duration true devices calls "pump"

restart_for_device-due_example :
    executors_at duration true
      (Manager.restart_for_device duration true devices "pump" Manager.empty).executors
      "pump"
    ≡ due duration true (Devices.for_name devices "pump")
restart_for_device-due_example =
    restart_for_device-due duration true devices "pump" Manager.empty
      (init-IsValid (scheduled ∷ []))

read-Asked_example :
    Asked
      (Profiles.init (pumps ∷ []))
      "pump"
      state
      (read (some outside) (Profiles.init (pumps ∷ [])) "pump" "level" state)
read-Asked_example = read-Asked (some outside) (Profiles.init (pumps ∷ [])) "pump" "level" state
