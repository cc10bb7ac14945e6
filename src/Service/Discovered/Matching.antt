-- ===== src/Service/Discovered/Matching.antt =====
-- When a discovered device matches a provision watcher.
use device_sdk_python.Base.{Bool, true, false, String, List, [], any, all}
use device_sdk_python.Base.Dict
use device_sdk_python.Base.Dict.{Dict}
use device_sdk_python.Model.Metadata.{ProtocolProperties}
use device_sdk_python.Service.Discovered
use device_sdk_python.Service.Discovered.{satisfied, is_blocked}

abbrev pub is_empty : {A : Type 0} → List A → Bool
is_empty [] = true
is_empty _ = false

module _ (re_match : String → String → Bool) where
  -- All identifiers of the watcher match the properties of a protocol.
  abbrev pub all_satisfied : Dict String → ProtocolProperties → Bool
  all_satisfied identifiers props =
      all (λ (i : String × String). satisfied re_match i.1 (Dict.get props i.0)) identifiers

  -- Some property is on its block list.
  abbrev pub some_blocked : Dict (List String) → ProtocolProperties → Bool
  some_blocked blocking props =
      any (λ (b : String × List String). is_blocked re_match b.1 (Dict.get props b.0)) blocking
