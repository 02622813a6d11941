-- ===== src/Testserver/Logins.antt =====
-- Testserver.cpp, the callback of "login": a login that no other player has.
use ice_adapter.Base.{
  ℕ, zero, suc, ◌+◌, ◌*◌, ◌-◌, ◌/◌, ◌%◌, ◌<◌, ◌≤◌, ◌≡◌, ◌≢◌, refl, sym, ap, ◌∙◌, ◌⊎◌, inl, inr, ℤ,
  Bytes, Bool, true, false, List, [], ◌∷◌, ◌++◌, Option, none, some, length, drop,
  drop-length-append, str_eq, str_eq_sound, str_eq_refl, digits_of, to_string, arith, Bool-cases,
  if◌then◌else◌, ltb,
}
use ice_adapter.Base.IntMap.{find}

-- `loginExists`
unfoldable pub login_exists : Bytes → List (ℤ × Bytes) → Bool
login_exists login [] = false
login_exists login ((id, other) ∷ m) =
    let rest = login_exists login m in if str_eq login other then true else rest

-- The `while` loop from a suffix on; `none` means that the fuel ran out.
unfoldable pub free_login : ℕ → Bytes → ℕ → List (ℤ × Bytes) → Option Bytes
free_login zero login suffix m = none
free_login (suc fuel) login suffix m =
    let rest = free_login fuel login (suc suffix) m in
    if login_exists (login ++ to_string suffix) m then rest else some (login ++ to_string suffix)

-- One of as many suffixes as there are logins, and one more, is free.
unfoldable pub choose_login : Bytes → List (ℤ × Bytes) → Option Bytes
unfolding login_exists free_login
choose_login login m =
    if login_exists login m then free_login (suc (length m)) login 1 m else some login

-- The number that digits stand for, behind digits that stand for `n`.
abbrev value_of : ℕ → Bytes → ℕ
value_of n [] = n
value_of n (d ∷ ds) = value_of (n * 10 + (d - 48)) ds

value_of-digits_of :
    (fuel n : ℕ) (acc : Bytes) → n < fuel → value_of 0 (digits_of fuel n acc) ≡ value_of n acc
unfolding digits_of
value_of-digits_of zero n acc h = absurd (omega (arith, h))
value_of-digits_of (suc fuel) n acc h = elim (Bool-cases (ltb n 10)) [
  | inl e ↦ rw e (ap (λ k. value_of k acc) (omega arith))
  | inr e ↦ rw e (
      value_of-digits_of fuel (n / 10) ((48 + n % 10) ∷ acc) (ground (arith, h, e))
      ∙ ap (λ k. value_of k acc) (omega arith))
]

to_string-injective : (m n : ℕ) → to_string m ≡ to_string n → m ≡ n
unfolding to_string
to_string-injective m n e =
    sym (value_of-digits_of (suc m) m [] (omega arith))
    ∙ ap (value_of 0) e
    ∙ value_of-digits_of (suc n) n [] (omega arith)

numbered_differs :
    (login : Bytes) (m n : ℕ) → m ≢ n → str_eq (login ++ to_string m) (login ++ to_string n) ≡ false
numbered_differs login m n differ =
    elim (Bool-cases (str_eq (login ++ to_string m) (login ++ to_string n))) [
      | inl e ↦
          let same = str_eq_sound (login ++ to_string m) (login ++ to_string n) e in
          absurd (
            differ (
              to_string-injective m n (
                sym (drop-length-append login (to_string m))
                ∙ ap (drop (length login)) same
                ∙ drop-length-append login (to_string n))))
      | inr e ↦ e
    ]

-- The logins without the first one of a name.
abbrev without : Bytes → List (ℤ × Bytes) → List (ℤ × Bytes)
without name [] = []
without name ((id, other) ∷ m) =
    let rest = without name m in if str_eq name other then m else (id, other) ∷ rest

length-without :
    (name : Bytes) (m : List (ℤ × Bytes))
    → login_exists name m ≡ true
    → suc (length (without name m)) ≡ length m
unfolding login_exists
length-without name [] h = cc
length-without name ((id, other) ∷ m) h = ground (arith, length-without name m)

login_exists-without :
    (name other : Bytes) (m : List (ℤ × Bytes))
    → str_eq other name ≡ false
    → login_exists other (without name m) ≡ login_exists other m
unfolding login_exists
login_exists-without name other [] h = refl
login_exists-without name other ((id, x) ∷ m) h =
    ground (arith, str_eq_sound name x, login_exists-without name other m h)

-- Names that are numbered from `k` on do not see that a lower one is taken out.
free_login-without :
    (fuel : ℕ) (login : Bytes) (j k : ℕ) (m : List (ℤ × Bytes))
    → j < k
    → free_login fuel login k (without (login ++ to_string j) m) ≡ free_login fuel login k m
unfolding free_login
free_login-without zero login j k m h = refl
free_login-without (suc fuel) login j k m h = rw (
  login_exists-without (login ++ to_string j) (login ++ to_string k) m
      (numbered_differs login k j (λ e. omega (arith, h, e))),
  free_login-without fuel login j (suc k) m (omega (arith, h)),
)

free_login_found :
    (fuel : ℕ) (login : Bytes) (k : ℕ) (m : List (ℤ × Bytes))
    → length m < fuel
    → (j : ℕ) × (k ≤ j)
      × (free_login fuel login k m ≡ some (login ++ to_string j))
      × (login_exists (login ++ to_string j) m ≡ false)
unfolding free_login
free_login_found zero login k m h = absurd (omega (arith, h))
free_login_found (suc fuel) login k m h =
    elim (Bool-cases (login_exists (login ++ to_string k) m)) [
      | inl taken ↦
          let rest = without (login ++ to_string k) m in
          let (j, l, found, free) =
            free_login_found fuel login (suc k) rest
              (omega (arith, h, length-without (login ++ to_string k) m taken)) in
          (
            j,
            omega (arith, l),
            rw taken (sym (free_login-without fuel login k (suc k) m (omega arith)) ∙ found),
            sym (
                  login_exists-without (login ++ to_string k) (login ++ to_string j) m
                    (numbered_differs login j k (λ e. omega (arith, l, e))))
                ∙ free,
          )
      | inr free ↦ (k, omega arith, rw free refl, free)
    ]

-- The search for a login ends, with one that no player has: the wanted one if it is free, and else the
-- wanted one with a number behind it that is not 0.
pub login_found :
    (login : Bytes) (m : List (ℤ × Bytes))
    → (name : Bytes) × (choose_login login m ≡ some name)
      × (login_exists name m ≡ false)
      × ((name ≡ login) ⊎ ((j : ℕ) × (1 ≤ j) × (name ≡ login ++ to_string j)))
unfolding choose_login
login_found login m = elim (Bool-cases (login_exists login m)) [
  | inl taken ↦
      let (j, l, found, free) = free_login_found (suc (length m)) login 1 m (omega arith) in
      (login ++ to_string j, rw taken found, free, inr (j, l, refl))
  | inr free ↦ (login, rw free refl, free, inl refl)
]

pub login_exists_found :
    (name : Bytes) (q : ℤ) (m : List (ℤ × Bytes))
    → find q m ≡ some name
    → login_exists name m ≡ true
unfolding find login_exists
login_exists_found name q [] e = cc
login_exists_found name q ((id, other) ∷ m) e =
    ground (arith, str_eq_refl name, login_exists_found name q m)
