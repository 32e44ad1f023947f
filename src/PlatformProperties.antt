-- ===== src/PlatformProperties.antt =====
-- nativelink-util/src/platform_properties.rs: typed properties of workers and actions, and the test
-- whether a worker's properties satisfy an action's. A `HashMap` is an association list.
pub mod Satisfied
use native_link.Base.{
  ℕ, String, Bool, true, false, Option, none, some, List, [], ◌∷◌, ite, leb, if◌then◌else◌, lookup,
  insert, string_discrete, ℕ_discrete,
}

pub data PlatformPropertyValue : Type 0 where
  exact : String → PlatformPropertyValue
  minimum : ℕ → PlatformPropertyValue
  priority : String → PlatformPropertyValue
  unknown : String → PlatformPropertyValue

unfoldable pub PlatformPropertyValue-discrete : Discrete PlatformPropertyValue
PlatformPropertyValue-discrete = hlevel (string_discrete, ℕ_discrete)

-- The `match` of `PlatformPropertyValue::is_satisfied_by`, after its test for equality.
unfoldable pub is_satisfied_by_kind : PlatformPropertyValue → PlatformPropertyValue → Bool
is_satisfied_by_kind (minimum v) (minimum worker_v) = leb v worker_v
is_satisfied_by_kind (minimum v) (exact s) = false
is_satisfied_by_kind (minimum v) (priority s) = false
is_satisfied_by_kind (minimum v) (unknown s) = false
is_satisfied_by_kind (priority s) worker_value = true
is_satisfied_by_kind (exact s) worker_value = false
is_satisfied_by_kind (unknown s) worker_value = false

unfoldable pub value_is_satisfied_by : PlatformPropertyValue → PlatformPropertyValue → Bool
unfolding is_satisfied_by_kind
value_is_satisfied_by self worker_value =
    ite (PlatformPropertyValue-discrete self worker_value) true
      (is_satisfied_by_kind self worker_value)

abbrev pub Properties : Type 0
Properties = List (String × PlatformPropertyValue)

-- The worker's value of one property, tested.
unfoldable pub property_is_satisfied_by :
    PlatformPropertyValue → Option PlatformPropertyValue → Bool
unfolding value_is_satisfied_by
property_is_satisfied_by check_value none = false
property_is_satisfied_by check_value (some worker_value) =
    value_is_satisfied_by check_value worker_value

-- `PlatformProperties::is_satisfied_by`; a failing property returns at once.
unfoldable pub is_satisfied_by : Properties → Properties → Bool
unfolding property_is_satisfied_by
is_satisfied_by [] worker_properties = true
is_satisfied_by ((property, check_value) ∷ rest) worker_properties =
    if property_is_satisfied_by check_value (lookup string_discrete property worker_properties)
    then is_satisfied_by rest worker_properties
    else false

-- `From<ProtoPlatform>`: a property that comes twice keeps its last value.
unfoldable pub from_platform : Properties → List (String × String) → Properties
from_platform properties [] = properties
from_platform properties ((name, value) ∷ rest) =
    from_platform (insert string_discrete name (unknown value) properties) rest
