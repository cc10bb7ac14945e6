-- ===== src/Tests.antt =====
-- One small service to try the theorems at: a device `pump` of a profile `pumps` with the resource
-- `level`, a byte. The floats are whole numbers, which is enough to run what the tests run.
mod Caches
mod Transforms
mod Commands
mod AutoEvents
mod Callbacks
mod Services
mod Scans
use device_sdk_python.Base.{
  ℕ, Bool, true, false, String, Option, none, some, List, [], ◌∷◌, ◌==◌, if◌then◌else◌,
}
use device_sdk_python.Base.Int.{ℤ, pos, ◌+ℤ◌, ◌-ℤ◌, ◌*ℤ◌, neg_ℤ, ltb_ℤ, leb_ℤ, eq_ℤ}
use device_sdk_python.Raise.{ok, raise, value_error}
use device_sdk_python.Floats.{Floats}
use device_sdk_python.Model.ValueType.{ValueType}
use device_sdk_python.Model.Value.{Value}
use device_sdk_python.Model.Metadata.{
  Device, DeviceProfile, DeviceResource, AutoEvent, ProvisionWatcher,
}
use device_sdk_python.Model.CommandValue.{CommandValue}

abbrev text_of : Value ℤ → String
text_of (Value.str s) = s
text_of _ = "7"

abbrev pub whole : Floats
whole = record {
  Float = ℤ;
  of_int = λ i. ok i;
  to_int = λ x. ok x;
  to_float32 = λ x. ok x;
  add = λ x y. x +ℤ y;
  sub = λ x y. x -ℤ y;
  mul = λ x y. x *ℤ y;
  neg = neg_ℤ;
  div = λ x y. raise value_error;
  pow = λ x y. raise value_error;
  log = λ x. raise value_error;
  fabs = λ x. x;
  trunc = λ x. ok x;
  isnan = λ x. false;
  isinf = λ x. false;
  lt = ltb_ℤ;
  le = leb_ℤ;
  eq = eq_ℤ;
  int_lt = ltb_ℤ;
  lt_int = ltb_ℤ;
  int_le = leb_ℤ;
  le_int = leb_ℤ;
  int_eq = eq_ℤ;
  zero = pos 0;
  one = pos 1;
  max_float32 = pos 1000000;
  str = text_of;
  format_g = λ n x. "7";
  parse = λ s. raise value_error;
  repr = λ x. "7";
  binary_text = λ v. ok "Binary";
}

abbrev pub pump : Device ℤ
pump = record {
  id = "1";
  name = "pump";
  description = "";
  admin_state = "UNLOCKED";
  operating_state = "UP";
  service_name = "service";
  profile_name = "pumps";
  labels = [];
  location = Value.null;
  auto_events = [];
  protocols = [];
  last_connected = pos 0;
  last_reported = pos 0;
  tags = [];
  properties = [];
  created = pos 0;
  modified = pos 0;
}

abbrev pub level : DeviceResource ℤ
level = record {
  name = "level";
  description = "";
  is_hidden = false;
  tag = "";
  properties = record {
    value_type = ValueType.uint8;
    read_write = "RW";
    units = "cm";
    minimum = none;
    maximum = some (pos 100);
    default_value = "";
    mask = none;
    shift = none;
    scale = none;
    offset = some (pos 2);
    base = none;
    assertion = "";
    media_type = "";
  };
  attributes = [];
}

abbrev pub pumps : DeviceProfile ℤ
pumps = record {
  id = "2";
  name = "pumps";
  description = "";
  manufacturer = "";
  model = "";
  labels = [];
  device_resources = level ∷ [];
  device_commands = [];
  resources = [];
  add_tags = [];
  properties = [];
  created = pos 0;
  modified = pos 0;
}

-- what the driver returns for `level`
abbrev pub seven : CommandValue ℤ
seven = record {
  device_resource_name = "level";
  value_type = ValueType.uint8;
  value = Value.int (pos 7);
  origin = pos 0;
  tags = [];
}

-- `level` is read on a schedule, and sent when it has changed
abbrev pub event : AutoEvent ℤ
event = record {
  source_name = "level";
  on_change = true;
  on_change_threshold = pos 1;
  interval = "10s";
}

abbrev pub scheduled : Device ℤ
scheduled = record pump { auto_events = event ∷ [] }

abbrev pub watcher : ProvisionWatcher ℤ
watcher = record {
  id = "3";
  name = "pumps-watcher";
  description = "";
  service_name = "service";
  labels = [];
  identifiers = ("kind", "pump") ∷ [];
  blocking_identifiers = ("port", "80" ∷ []) ∷ [];
  admin_state = "UNLOCKED";
  profile_name = "pumps";
  discovered_device = record {
    profile_name = "pumps";
    admin_state = "UNLOCKED";
    labels = [];
    auto_events = [];
    properties = [];
  };
  created = pos 0;
  modified = pos 0;
  origin = pos 0;
}
