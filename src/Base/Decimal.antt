-- ===== src/Base/Decimal.antt =====
-- Decimal numbers, as `std::to_string` writes them.
use Prim.Native.Nat.{ℕ, zero, suc, ◌+◌, ◌/◌, ◌%◌, ◌≤◌}
use mathlib.Core.List.{[], ◌∷◌}
use native.Mathlib.Omega.{arith}
use ice_adapter.Base.Tests.{ltb, if◌then◌else◌}
use ice_adapter.Base.Lists.{Bytes, length}

-- `std::to_string` of a number that is not negative; a number has no more digits than its value
-- plus one.
unfoldable pub digits_of : ℕ → ℕ → Bytes → Bytes
digits_of zero n acc = acc
digits_of (suc fuel) n acc =
    let more = digits_of fuel (n / 10) ((48 + n % 10) ∷ acc) in
    if ltb n 10 then (48 + n) ∷ acc else more

unfoldable pub to_string : ℕ → Bytes
unfolding digits_of
to_string n = digits_of (suc n) n []

digits_of_short : (fuel n : ℕ) (acc : Bytes) → length (digits_of fuel n acc) ≤ fuel + length acc
unfolding digits_of
digits_of_short zero n acc = ground arith
digits_of_short (suc fuel) n acc =
    ground (arith, digits_of_short fuel (n / 10) ((48 + n % 10) ∷ acc))

pub length-to_string-le : (n : ℕ) → length (to_string n) ≤ suc n
unfolding to_string
length-to_string-le n = ground (arith, digits_of_short (suc n) n [])
