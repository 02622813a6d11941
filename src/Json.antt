-- ===== src/Json.antt =====
-- The jsoncpp library that the program calls. It is not part of the repository, so its values and
-- functions are the fields of a record that every module takes as a parameter; the laws that the
-- theorems rely on are a second record. `none` stands for a thrown `Json::Exception`.
pub mod Sample
use Prim.Native.Nat.{ℕ, suc, ◌<◌}
use ice_adapter.Base.{
  ℤ, IsInt32, pos, Bytes, Bool, Option, some, ◌≡◌, true, false, ◌⊎◌, str_eq, if◌then◌else◌,
}

-- `Json::ValueType`.
pub data ValueType : Type 0 where
  null_value int_value uint_value real_value string_value : ValueType
  boolean_value array_value object_value : ValueType

-- `isArray()`, `isObject()`, `isString()`.
abbrev pub is_array : ValueType → Bool
is_array array_value = true
is_array _ = false

abbrev pub is_object : ValueType → Bool
is_object object_value = true
is_object _ = false

abbrev pub is_string_type : ValueType → Bool
is_string_type string_value = true
is_string_type _ = false

pub record JsonLib : Type 1 where
  pub Value : Type 0
  -- `Json::Value()`, and the constructors from `int`, `unsigned int`, `bool` and `std::string`.
  pub null : Value
  pub of_int : ℤ → Value
  pub of_uint : ℕ → Value
  pub of_bool : Bool → Value
  pub of_string : Bytes → Value
  -- The constructor from `double`, applied to a number of milliseconds divided by 1000.
  pub of_seconds : ℕ → Value
  -- `Json::Value(Json::arrayValue)`, `Json::Value(Json::objectValue)`, `append`, and `v["key"] = x`.
  pub empty_array : Value
  pub empty_object : Value
  pub append : Value → Value → Value
  pub set_member : Value → Bytes → Value → Value
  -- `type()`, `asInt()`, `asBool()`, `asString()`.
  pub value_type : Value → ValueType
  pub as_int : Value → Option ℤ
  pub as_bool : Value → Option Bool
  pub as_string : Value → Option Bytes
  -- `isInt()`: `asInt()` does not throw.
  pub is_int : Value → Bool
  -- `size()`, `v[index]` of an array; `isMember("key")` of an object; `v["key"]`, which throws if
  -- `v` is neither an object nor null, and is null for a missing key.
  pub size : Value → ℕ
  pub at : Value → ℕ → Value
  pub is_member : Value → Bytes → Bool
  pub member : Value → Bytes → Option Value
  -- `Json::FastWriter().write(v)`.
  pub write : Value → Bytes
  -- `Json::Reader().parse(text, v)`: whether it succeeds, and what it leaves in `v`.
  pub read : Bytes → Bool × Value

-- The values on which `v["key"] = x` does not throw.
abbrev pub HoldsMembers : (J : JsonLib) → J.Value → Type 0
HoldsMembers J v = (J.value_type v ≡ null_value) ⊎ (J.value_type v ≡ object_value)

-- The documented behaviour of the scalar constructors.
pub record JsonLaws (J : JsonLib) : Type 0 where
  pub type-null : J.value_type J.null ≡ null_value
  pub type-of_int : (z : ℤ) → J.value_type (J.of_int z) ≡ int_value
  pub type-of_uint : (n : ℕ) → J.value_type (J.of_uint n) ≡ uint_value
  pub type-of_string : (s : Bytes) → J.value_type (J.of_string s) ≡ string_value
  pub as_int-of_int : (z : ℤ) → IsInt32 z → J.as_int (J.of_int z) ≡ some z
  pub as_int-of_uint : (n : ℕ) → n < 2147483648 → J.as_int (J.of_uint n) ≡ some (pos n)
  pub as_string-of_string : (s : Bytes) → J.as_string (J.of_string s) ≡ some s

-- The documented behaviour of the members of an object. A null value becomes an object when a member
-- is assigned to it.
pub record ObjectLaws (J : JsonLib) : Type 0 where
  pub type-set_member :
      (v : J.Value) (k : Bytes) (x : J.Value)
      → HoldsMembers J v
      → J.value_type (J.set_member v k x) ≡ object_value
  pub member-set_member :
      (v : J.Value) (k j : Bytes) (x : J.Value)
      → HoldsMembers J v
      → J.member (J.set_member v k x) j ≡ (if str_eq j k then some x else J.member v j)
  pub is_member-set_member :
      (v : J.Value) (k j : Bytes) (x : J.Value)
      → HoldsMembers J v
      → J.is_member (J.set_member v k x) j ≡ (if str_eq j k then true else J.is_member v j)
  pub is_member-null : (k : Bytes) → J.is_member J.null k ≡ false

-- The documented behaviour of `size()` of an array.
pub record ArrayLaws (J : JsonLib) : Type 0 where
  pub size-empty_array : J.size J.empty_array ≡ 0
  pub type-empty_array : J.value_type J.empty_array ≡ array_value
  pub size-append :
      (v x : J.Value) → J.value_type v ≡ array_value → J.size (J.append v x) ≡ suc (J.size v)
  pub type-append :
      (v x : J.Value) → J.value_type v ≡ array_value → J.value_type (J.append v x) ≡ array_value
