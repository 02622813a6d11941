-- ===== src/Base/Words.antt =====
-- `int`, `int32_t` and the four bytes that `memcpy` moves. The host is little-endian, as every
-- platform that the build files name.
use Prim.Native.Nat.{ℕ, ◌+◌, ◌-◌, ◌*◌, ◌/◌, ◌%◌, ◌≤◌, ◌<◌}
use mathlib.Core.Path.{◌≡◌, refl}
use mathlib.Core.List.{[], ◌∷◌, ◌++◌}
use mathlib.Core.Bool.{Bool, true, false}
use native.Mathlib.Omega.{arith}
use ice_adapter.Base.Tests.{ltb, ◌==◌, if◌then◌else◌}
use ice_adapter.Base.Lists.{Bytes, All, length, drop}

-- `negsuc n` is -(n + 1).
pub data ℤ : Type 0 where
  pos : ℕ → ℤ
  negsuc : ℕ → ℤ

abbrev pub IsByte : ℕ → Type 0
IsByte b = b < 256

-- The values of an `int32_t`.
abbrev pub IsInt32 : ℤ → Type 0
IsInt32 (pos n) = n < 2147483648
IsInt32 (negsuc n) = n < 2147483648

-- The bit pattern of an `int32_t`, as a number below 2 ^ 32, and back.
unfoldable pub pattern_of : ℤ → ℕ
pattern_of (pos n) = n % 4294967296
pattern_of (negsuc n) = 4294967295 - n % 4294967296

unfoldable pub int32_of : ℕ → ℤ
int32_of w =
    if ltb (w % 4294967296) 2147483648
    then pos (w % 4294967296)
    else negsuc (4294967295 - w % 4294967296)

-- The object representation of an `int32_t`.
unfoldable pub put_int32 : ℤ → Bytes
unfolding pattern_of
put_int32 z =
    let w = pattern_of z in
    (w % 256) ∷ (w / 256 % 256) ∷ (w / 65536 % 256) ∷ (w / 16777216 % 256) ∷ []

-- The `int32_t` that four bytes represent.
unfoldable pub get_int32 : Bytes → ℤ
unfolding int32_of
get_int32 (a ∷ b ∷ c ∷ d ∷ rest) = int32_of (a + 256 * b + 65536 * c + 16777216 * d)
get_int32 _ = pos 0

unfoldable pub ℤ_eq : ℤ → ℤ → Bool
ℤ_eq (pos m) (pos n) = m == n
ℤ_eq (negsuc m) (negsuc n) = m == n
ℤ_eq (pos m) (negsuc n) = false
ℤ_eq (negsuc m) (pos n) = false

pub ℤ_eq_sound : (a b : ℤ) → ℤ_eq a b ≡ true → a ≡ b
unfolding ℤ_eq
ℤ_eq_sound (pos m) (pos n) h = ground arith
ℤ_eq_sound (negsuc m) (negsuc n) h = ground arith
ℤ_eq_sound (pos m) (negsuc n) h = cc
ℤ_eq_sound (negsuc m) (pos n) h = cc

pub ℤ_eq_refl : (a : ℤ) → ℤ_eq a a ≡ true
unfolding ℤ_eq
ℤ_eq_refl (pos m) = ground arith
ℤ_eq_refl (negsuc m) = ground arith

pub int32_of-IsInt32 : (w : ℕ) → IsInt32 (int32_of w)
unfolding int32_of
int32_of-IsInt32 w = ground arith

pub int32_of-pattern_of : (z : ℤ) → IsInt32 z → int32_of (pattern_of z) ≡ z
unfolding int32_of pattern_of
int32_of-pattern_of (pos n) h = ground arith
int32_of-pattern_of (negsuc n) h = ground arith

pub pattern_of-int32_of : (w : ℕ) → w < 4294967296 → pattern_of (int32_of w) ≡ w
unfolding int32_of pattern_of
pattern_of-int32_of w h = ground arith

pub length-put_int32 : (z : ℤ) → length (put_int32 z) ≡ 4
unfolding put_int32
length-put_int32 z = refl

pub get_int32-put_int32 : (z : ℤ) (rest : Bytes) → IsInt32 z → get_int32 (put_int32 z ++ rest) ≡ z
unfolding get_int32 put_int32
get_int32-put_int32 (pos n) rest h = ground arith
get_int32-put_int32 (negsuc n) rest h = ground arith

pub put_int32-get_int32 :
    (r : Bytes) → 4 ≤ length r → All IsByte r → put_int32 (get_int32 r) ++ drop 4 r ≡ r
unfolding get_int32 put_int32
put_int32-get_int32 [] h b = absurd (omega arith)
put_int32-get_int32 (a ∷ []) h b = absurd (omega arith)
put_int32-get_int32 (a ∷ b ∷ []) h k = absurd (omega arith)
put_int32-get_int32 (a ∷ b ∷ c ∷ []) h k = absurd (omega arith)
put_int32-get_int32 (a ∷ b ∷ c ∷ d ∷ rest) h k = four-patterns
  where
    w : ℕ
    w = a + 256 * b + 65536 * c + 16777216 * d

    four-patterns : put_int32 (int32_of w) ++ rest ≡ a ∷ b ∷ c ∷ d ∷ rest
    four-patterns = rw (pattern_of-int32_of w (omega arith)) (ground arith)

pub get_int32-append : (r more : Bytes) → 4 ≤ length r → get_int32 (r ++ more) ≡ get_int32 r
unfolding get_int32
get_int32-append [] more h = absurd (omega arith)
get_int32-append (a ∷ []) more h = absurd (omega arith)
get_int32-append (a ∷ b ∷ []) more h = absurd (omega arith)
get_int32-append (a ∷ b ∷ c ∷ []) more h = absurd (omega arith)
get_int32-append (a ∷ b ∷ c ∷ d ∷ rest) more h = refl

pub get_int32-IsInt32 : (r : Bytes) → IsInt32 (get_int32 r)
unfolding get_int32
get_int32-IsInt32 [] = omega arith
get_int32-IsInt32 (a ∷ []) = omega arith
get_int32-IsInt32 (a ∷ b ∷ []) = omega arith
get_int32-IsInt32 (a ∷ b ∷ c ∷ []) = omega arith
get_int32-IsInt32 (a ∷ b ∷ c ∷ d ∷ rest) = int32_of-IsInt32 (a + 256 * b + 65536 * c + 16777216 * d)
