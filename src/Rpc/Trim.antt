-- ===== src/Rpc/Trim.antt =====
-- trim.cpp: `trim_whitespace`.
use ice_adapter.Base.{
  ℕ, suc, Bytes, Bool, ◌||◌, [], ◌∷◌, Option, none, some, ◌==◌, if◌then◌else◌, take, drop,
}

-- `" \t\f\v\n\r"`
unfoldable pub is_whitespace : ℕ → Bool
is_whitespace c = c == 32 || (c == 9 || (c == 12 || (c == 11 || (c == 10 || c == 13))))

abbrev pub shift : Option ℕ → Option ℕ
shift none = none
shift (some n) = some (suc n)

-- `find_first_not_of` and `find_last_not_of`; `none` is `npos`.
unfoldable pub find_first_not : Bytes → Option ℕ
unfolding is_whitespace
find_first_not [] = none
find_first_not (c ∷ cs) =
    let later = shift (find_first_not cs) in if is_whitespace c then later else some 0

unfoldable pub find_last_not : Bytes → Option ℕ
unfolding is_whitespace
find_last_not [] = none
find_last_not (c ∷ cs) = elim (find_last_not cs) [
  | none ↦ if is_whitespace c then none else some 0
  | some n ↦ some (suc n)
]

-- `in.substr(start, end + 1)`: the second argument is a length.
unfoldable pub trim_whitespace : Bytes → Bytes
unfolding find_first_not find_last_not
trim_whitespace text = elim (find_first_not text) [
  | none ↦ []
  | some start ↦ elim (find_last_not text) [
    | none ↦ []
    | some end ↦ take (suc end) (drop start text)
  ]
]
