-- ===== src/Testclient/Pingtracker/Waiting.antt =====
-- legacy_testclient/Pingtracker.cpp: the pings that wait.
use ice_adapter.Base.{
  ℕ, suc, ◌+◌, ◌≤◌, ◌≡◌, refl, ap, inl, inr, ℤ, pos, negsuc, ℤ_eq, true, List, [], ◌∷◌, ◌++◌, some,
  All, All-append, ltb, length, arith, Bool-cases,
}
use ice_adapter.Base.IntMap.{ℤ_ltb, find, assign, erase}
use ice_adapter.Base.IntMap.Laws.{All-erase}
use ice_adapter.Testclient.Pingtracker.{expire}

-- The ids of the pings that wait are below the next one.
abbrev pub AllBelow : ℕ → List (ℤ × ℕ) → Type 0
AllBelow n m = All (λ e. ℤ_ltb e.0 (pos n) ≡ true) m

pub AllBelow-suc : (n : ℕ) (m : List (ℤ × ℕ)) → AllBelow n m → AllBelow (suc n) m
AllBelow-suc n [] h = tt
AllBelow-suc n ((pos i, t) ∷ m) h = (ground arith, AllBelow-suc n m h.1)
AllBelow-suc n ((negsuc i, t) ∷ m) h = (refl, AllBelow-suc n m h.1)

-- The next ping is the last one of the map.
pub assign-AllBelow :
    (n t : ℕ) (m : List (ℤ × ℕ)) → AllBelow n m → assign (pos n) t m ≡ m ++ ((pos n, t) ∷ [])
unfolding assign ℤ_eq
assign-AllBelow n t [] h = refl
assign-AllBelow n t ((pos i, s) ∷ m) h = ground (arith, assign-AllBelow n t m h.1)
assign-AllBelow n t ((negsuc i, s) ∷ m) h = ap (λ l. (negsuc i, s) ∷ l) (assign-AllBelow n t m h.1)

pub length-erase :
    (k : ℤ) (t : ℕ) (m : List (ℤ × ℕ)) → find k m ≡ some t → suc (length (erase k m)) ≡ length m
unfolding find erase
length-erase k t [] h = cc
length-erase k t ((j, s) ∷ m) h = ground (arith, length-erase k t m)

-- Every ping of the rest was sent at the time or later.
abbrev pub AllFrom : ℕ → List (ℤ × ℕ) → Type 0
AllFrom t m = All (λ e. t ≤ e.1) m

abbrev pub AllUntil : ℕ → List (ℤ × ℕ) → Type 0
AllUntil t m = All (λ e. e.1 ≤ t) m

-- The pings wait in the order in which they were sent.
abbrev pub IsTimely : List (ℤ × ℕ) → Type 0
IsTimely [] = Unit
IsTimely ((i, t) ∷ m) = AllFrom t m × IsTimely m

pub length-expire :
    (now : ℕ) (m : List (ℤ × ℕ)) → length (expire now m).0 + (expire now m).1 ≡ length m
unfolding expire
length-expire now [] = refl
length-expire now ((i, t) ∷ m) = ground (arith, length-expire now m)

pub All-expire :
    (P : ℤ × ℕ → Type 0) (now : ℕ) (m : List (ℤ × ℕ)) → All P m → All P (expire now m).0
unfolding expire
All-expire P now [] h = tt
All-expire P now ((i, t) ∷ m) h = elim (Bool-cases (ltb (t + 5000) now)) [
  | inl e ↦ rw (e, expire) (All-expire P now m h.1)
  | inr e ↦ rw (e, expire) h
]

pub expire-IsTimely : (now : ℕ) (m : List (ℤ × ℕ)) → IsTimely m → IsTimely (expire now m).0
unfolding expire
expire-IsTimely now [] h = tt
expire-IsTimely now ((i, t) ∷ m) h = elim (Bool-cases (ltb (t + 5000) now)) [
  | inl e ↦ rw (e, expire) (expire-IsTimely now m h.1)
  | inr e ↦ rw (e, expire) h
]

-- No ping of the list is older than five seconds.
abbrev pub AllRecent : ℕ → List (ℤ × ℕ) → Type 0
AllRecent now m = All (λ e. now ≤ e.1 + 5000) m

pub AllFrom-AllRecent :
    (now t : ℕ) (m : List (ℤ × ℕ)) → now ≤ t + 5000 → AllFrom t m → AllRecent now m
AllFrom-AllRecent now t [] l h = tt
AllFrom-AllRecent now t ((i, s) ∷ m) l h = (omega (arith, l, h.0), AllFrom-AllRecent now t m l h.1)

pub expire-AllRecent : (now : ℕ) (m : List (ℤ × ℕ)) → IsTimely m → AllRecent now (expire now m).0
unfolding expire
expire-AllRecent now [] h = tt
expire-AllRecent now ((i, t) ∷ m) h = elim (Bool-cases (ltb (t + 5000) now)) [
  | inl e ↦ rw (e, expire) (expire-AllRecent now m h.1)
  | inr e ↦ rw (e, expire) (ground (arith, e), AllFrom-AllRecent now t m (ground (arith, e)) h.0)
]

pub erase-IsTimely : (k : ℤ) (m : List (ℤ × ℕ)) → IsTimely m → IsTimely (erase k m)
unfolding erase
erase-IsTimely k [] h = tt
erase-IsTimely k ((j, t) ∷ m) h = elim (Bool-cases (ℤ_eq j k)) [
  | inl e ↦ rw (e, erase) h.1
  | inr e ↦ rw (e, erase) (All-erase (λ e. t ≤ e.1) k m h.0, erase-IsTimely k m h.1)
]

pub append-IsTimely :
    (i : ℤ) (now : ℕ) (m : List (ℤ × ℕ))
    → IsTimely m
    → AllUntil now m
    → IsTimely (m ++ ((i, now) ∷ []))
append-IsTimely i now [] h u = (tt, tt)
append-IsTimely i now ((j, t) ∷ m) h u =
    (All-append (λ e. t ≤ e.1) m ((i, now) ∷ []) h.0 (u.0, tt), append-IsTimely i now m h.1 u.1)

pub AllUntil-later : (now d : ℕ) (m : List (ℤ × ℕ)) → AllUntil now m → AllUntil (now + d) m
AllUntil-later now d [] h = tt
AllUntil-later now d ((i, t) ∷ m) h = (omega (arith, h.0), AllUntil-later now d m h.1)
