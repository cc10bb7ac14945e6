-- ===== src/Model/Metadata.antt =====
-- The Core Metadata models of internal/cache/providers.py. `F` is Python's `float`. Values are
-- immutable here, so that `clone` (a deep copy) is the identity; a caller that goes on mutating an
-- object which it has handed to a cache is not modelled.
use device_sdk_python.Base.{Bool, String, Option, List}
use device_sdk_python.Base.Int.{ℤ}
use device_sdk_python.Base.Dict.{Dict}
use device_sdk_python.Model.ValueType.{ValueType}
use device_sdk_python.Model.Value.{Value}

abbrev pub ProtocolProperties : Type 0
ProtocolProperties = Dict String

pub record AutoEvent (F : Type 0) : Type 0 where
  pub source_name : String
  pub on_change : Bool
  pub on_change_threshold : F
  pub interval : String

pub record ResourceProperties (F : Type 0) : Type 0 where
  pub value_type : ValueType
  pub read_write : String
  pub units : String
  pub minimum : Option F
  pub maximum : Option F
  pub default_value : String
  pub mask : Option ℤ
  pub shift : Option ℤ
  pub scale : Option F
  pub offset : Option F
  pub base : Option F
  pub assertion : String
  pub media_type : String

pub record DeviceResource (F : Type 0) : Type 0 where
  pub name : String
  pub description : String
  pub is_hidden : Bool
  pub tag : String
  pub properties : ResourceProperties F
  pub attributes : Dict (Value F)

pub record ResourceOperation (F : Type 0) : Type 0 where
  pub device_resource : String
  pub default_value : String
  pub mappings : Dict String
  pub attributes : Dict (Value F)

pub record DeviceCommand (F : Type 0) : Type 0 where
  pub name : String
  pub is_hidden : Bool
  pub read_write : String
  pub resource_operations : List (ResourceOperation F)

pub record Device (F : Type 0) : Type 0 where
  pub id : String
  pub name : String
  pub description : String
  pub admin_state : String
  pub operating_state : String
  pub service_name : String
  pub profile_name : String
  pub labels : List String
  pub location : Value F
  pub auto_events : List (AutoEvent F)
  pub protocols : Dict ProtocolProperties
  pub last_connected : ℤ
  pub last_reported : ℤ
  pub tags : Dict (Value F)
  pub properties : Dict (Value F)
  pub created : ℤ
  pub modified : ℤ

pub record DeviceProfile (F : Type 0) : Type 0 where
  pub id : String
  pub name : String
  pub description : String
  pub manufacturer : String
  pub model : String
  pub labels : List String
  pub device_resources : List (DeviceResource F)
  pub device_commands : List (DeviceCommand F)
  pub resources : List (ResourceOperation F)
  pub add_tags : Dict (Value F)
  pub properties : Dict (Value F)
  pub created : ℤ
  pub modified : ℤ

pub record ProvisionWatcherDiscoveredDevice (F : Type 0) : Type 0 where
  pub profile_name : String
  pub admin_state : String
  pub labels : List String
  pub auto_events : List (AutoEvent F)
  pub properties : Dict (Value F)

pub record ProvisionWatcher (F : Type 0) : Type 0 where
  pub id : String
  pub name : String
  pub description : String
  pub service_name : String
  pub labels : List String
  pub identifiers : Dict String
  pub blocking_identifiers : Dict (List String)
  pub admin_state : String
  pub profile_name : String
  pub discovered_device : ProvisionWatcherDiscoveredDevice F
  pub created : ℤ
  pub modified : ℤ
  pub origin : ℤ

abbrev pub admin_state_locked : String
admin_state_locked = "LOCKED"

abbrev pub admin_state_unlocked : String
admin_state_unlocked = "UNLOCKED"
