-- ===== src/Json/Sample.antt =====
-- A small instance of `JsonLib`, at which the theorems are applied to concrete inputs.
use ice_adapter.Base.{
  ℕ, suc, ◌≡◌, refl, ℤ, pos, Bytes, Bool, true, false, ◌||◌, [], Option, none, some, str_eq, ltb,
  ◌==◌, if◌then◌else◌, ◌<◌, arith,
}
use ice_adapter.Json.{
  JsonLib, JsonLaws, ObjectLaws, ArrayLaws, HoldsMembers, ValueType, null_value, int_value,
  uint_value, boolean_value, string_value, real_value, array_value, object_value,
}

-- An array is built from the empty one by `items`, and an object from null by `entry`.
pub data Sample : Type 0 where
  nothing no_items no_entries : Sample
  int : ℤ → Sample
  uint seconds : ℕ → Sample
  flag : Bool → Sample
  text : Bytes → Sample
  items : Sample → Sample → Sample
  entry : Sample → Bytes → Sample → Sample

abbrev type_of : Sample → ValueType
type_of nothing = null_value
type_of no_items = array_value
type_of no_entries = object_value
type_of (int z) = int_value
type_of (uint n) = uint_value
type_of (seconds n) = real_value
type_of (flag b) = boolean_value
type_of (text s) = string_value
type_of (items v x) = array_value
type_of (entry v k x) = object_value

abbrev int_of : Sample → Option ℤ
int_of (int z) = some z
int_of (uint n) = if ltb n 2147483648 then some (pos n) else none
int_of (flag true) = some (pos 1)
int_of (flag false) = some (pos 0)
int_of nothing = some (pos 0)
int_of _ = none

abbrev bool_of : Sample → Option Bool
bool_of (flag b) = some b
bool_of nothing = some false
bool_of _ = none

abbrev string_of : Sample → Option Bytes
string_of (text s) = some s
string_of nothing = some []
string_of _ = none

abbrev is_int_of : Sample → Bool
is_int_of (int z) = true
is_int_of (uint n) = ltb n 2147483648
is_int_of _ = false

abbrev size_of : Sample → ℕ
size_of (items v x) = suc (size_of v)
size_of (entry v k x) = suc (size_of v)
size_of _ = 0

abbrev element : Sample → ℕ → Sample
element (items v x) n = let rest = element v n in if n == size_of v then x else rest
element _ n = nothing

abbrev has_member : Sample → Bytes → Bool
has_member (entry v k x) key = str_eq key k || has_member v key
has_member _ key = false

abbrev member_of : Sample → Bytes → Option Sample
member_of nothing key = some nothing
member_of no_entries key = some nothing
member_of (entry v k x) key = let rest = member_of v key in if str_eq key k then some x else rest
member_of _ key = none

-- Only a string is written and read.
abbrev pub text_of : Sample → Bytes
text_of (text s) = s
text_of _ = []

abbrev pub sample_lib : JsonLib
sample_lib = record {
  Value = Sample;
  null = nothing;
  of_int = int;
  of_uint = uint;
  of_bool = flag;
  of_string = text;
  of_seconds = seconds;
  empty_array = no_items;
  empty_object = no_entries;
  append = items;
  set_member = entry;
  value_type = type_of;
  as_int = int_of;
  as_bool = bool_of;
  as_string = string_of;
  is_int = is_int_of;
  size = size_of;
  at = element;
  is_member = has_member;
  member = member_of;
  write = text_of;
  read = λ s. (true, text s);
}

pub uint_fits : (n : ℕ) → n < 2147483648 → int_of (uint n) ≡ some (pos n)
uint_fits n h = ground arith

abbrev pub sample_laws : JsonLaws sample_lib
sample_laws = record {
  type-null = refl;
  type-of_int = λ z. refl;
  type-of_uint = λ n. refl;
  type-of_string = λ s. refl;
  as_int-of_int = λ z h. refl;
  as_int-of_uint = uint_fits;
  as_string-of_string = λ s. refl;
}

pub member_of-entry :
    (v : Sample) (k j : Bytes) (x : Sample)
    → HoldsMembers sample_lib v
    → member_of (entry v k x) j ≡ (if str_eq j k then some x else member_of v j)
member_of-entry v k j x h = refl

pub is_member-entry :
    (v : Sample) (k j : Bytes) (x : Sample)
    → HoldsMembers sample_lib v
    → has_member (entry v k x) j ≡ (if str_eq j k then true else has_member v j)
is_member-entry v k j x h = ground arith

abbrev pub sample_objects : ObjectLaws sample_lib
sample_objects = record {
  type-set_member = λ v k x h. refl;
  member-set_member = member_of-entry;
  is_member-set_member = is_member-entry;
  is_member-null = λ k. refl;
}

abbrev pub sample_arrays : ArrayLaws sample_lib
sample_arrays = record {
  size-empty_array = refl;
  type-empty_array = refl;
  size-append = λ v x h. refl;
  type-append = λ v x h. refl;
}
