-- ===== src/Command/State.antt =====
-- What a command works on: the device cache, the module's map `_allowed_request_failures`, and the
-- calls that went out to the driver and to Core Metadata. The driver and Core Metadata are no part of
-- the repository; they are functions that may answer by all the calls made before.
-- The options of the configuration are those that `_device_option` reads.
use device_sdk_python.Base.{Bool, true, false, String, Option, none, some, List}
use device_sdk_python.Base.Int.{ℤ}
use device_sdk_python.Base.Dict.{Dict}
use device_sdk_python.Raise.{Result, ok, raise}
use device_sdk_python.Model.ValueType.{ValueType}
use device_sdk_python.Model.Value.{Value}
use device_sdk_python.Model.Metadata.{ProtocolProperties}
use device_sdk_python.Model.CommandValue.{CommandValue}
use device_sdk_python.Cache.Devices.{DeviceCache}

-- models/command_request.py
pub record CommandRequest (F : Type 0) : Type 0 where
  pub resource_name : String
  pub attributes : Dict (Value F)
  pub value_type : ValueType
  pub options : Dict (Value F)

-- `configuration.device`, whose options may be missing
pub record DeviceOptions : Type 0 where
  pub allowed_fails : Option ℤ
  pub device_down_timeout : Option ℤ
  pub max_cmd_ops : Option ℤ
  pub data_transform : Option Bool
  pub reading_units : Option Bool

-- The object that is passed as `device_service`: its `admin_state`, whether it has the method
-- `update_device_operating_state`, and whether it has a client of Core Metadata.
pub record Service : Type 0 where
  pub admin_state : Option String
  pub updates : Bool
  pub has_client : Bool

pub data Call (F : Type 0) : Type 0 where
  read : String → Dict ProtocolProperties → List (CommandRequest F) → Call F
  write :
      String → Dict ProtocolProperties → List (CommandRequest F) → List (CommandValue F) → Call F
  patch : String → String → Call F

-- The answers of the driver, and of the client of Core Metadata: `false` for a `MetadataError`.
pub record Outside (F : Type 0) : Type 0 where
  pub handle_read :
      List (Call F)
      → String
      → Dict ProtocolProperties
      → List (CommandRequest F)
      → Result (Option (List (Option (CommandValue F))))
  pub handle_write :
      List (Call F)
      → String
      → Dict ProtocolProperties
      → List (CommandRequest F)
      → List (CommandValue F)
      → Result (Unit {0})
  pub patch_device : List (Call F) → String → String → Bool

pub record State (F : Type 0) : Type 0 where
  pub devices : DeviceCache F
  pub failures : Dict ℤ
  pub calls : List (Call F)

-- Python code that may change the state and raise.
abbrev pub Action : Type 0 → Type 0 → Type 0
Action F A = State F → Result A × State F

infixl 5 ◌>>=◌ ◌>>◌
abbrev pub continue : {F A B : Type 0} → Result A × State F → (A → Action F B) → Result B × State F
continue (ok a, s) k = k a s
continue (raise e, s) k = (raise e, s)

abbrev pub ◌>>=◌ : {F A B : Type 0} → Action F A → (A → Action F B) → Action F B
◌>>=◌ m k s = continue (m s) k

abbrev pub ◌>>◌ : {F A B : Type 0} → Action F A → Action F B → Action F B
m >> k = m >>= λ _. k

-- What raises or returns without a change of state.
abbrev pub lift : {F A : Type 0} → Result A → Action F A
lift r s = (r, s)

abbrev pub return : {F A : Type 0} → A → Action F A
return a s = (ok a, s)

-- `if test: action`
abbrev pub when : {F : Type 0} → Bool → Action F (Unit {0}) → Action F (Unit {0})
when true action = action
when false action = return tt

abbrev or_default : {A : Type 0} → Option A → A → A
or_default none default = default
or_default (some a) default = a

-- `_device_option`
abbrev pub device_option : {A : Type 0} → Option DeviceOptions → (DeviceOptions → Option A) → A → A
device_option none name default = default
device_option (some device) name default = or_default (name device) default
