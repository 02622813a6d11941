-- ===== src/Base/IntMap/Laws.antt =====
-- What is found in a map after an assignment or an erasure.
use ice_adapter.Base.{
  ◌≡◌, refl, inl, inr, ℤ, pos, negsuc, ℤ_eq, ℤ_eq_sound, ℤ_eq_refl, Bool, true, false, List, [],
  ◌∷◌, none, some, All, arith, Bool-cases, if◌then◌else◌, subst,
}
use ice_adapter.Base.IntMap.{ℤ_ltb, find, assign, erase}

pub ℤ_ltb_trans : (a b c : ℤ) → ℤ_ltb a b ≡ true → ℤ_ltb b c ≡ true → ℤ_ltb a c ≡ true
ℤ_ltb_trans a b c h k = ground arith

pub ℤ_ltb_ne : (a b : ℤ) → ℤ_ltb a b ≡ true → ℤ_eq b a ≡ false
unfolding ℤ_eq
ℤ_ltb_ne (pos a) (pos b) h = ground arith
ℤ_ltb_ne (pos a) (negsuc b) h = cc
ℤ_ltb_ne (negsuc a) (pos b) h = refl
ℤ_ltb_ne (negsuc a) (negsuc b) h = ground arith

ℤ_ltb_total : (a b : ℤ) → ℤ_eq b a ≡ false → ℤ_ltb a b ≡ false → ℤ_ltb b a ≡ true
unfolding ℤ_eq
ℤ_ltb_total (pos a) (pos b) h k = ground arith
ℤ_ltb_total (pos a) (negsuc b) h k = refl
ℤ_ltb_total (negsuc a) (pos b) h k = cc
ℤ_ltb_total (negsuc a) (negsuc b) h k = ground arith

module _ {ℓ} {A : Type ℓ} where
  abbrev pub AllAbove : ℤ → List (ℤ × A) → Type 0
  AllAbove k m = All (λ e. ℤ_ltb k e.0 ≡ true) m

  -- The order in which a `std::map` holds its keys.
  abbrev pub IsAscending : List (ℤ × A) → Type 0
  IsAscending [] = Unit {0}
  IsAscending ((k, v) ∷ m) = AllAbove k m × IsAscending m

  pub find-assign_self : (k : ℤ) (v : A) (m : List (ℤ × A)) → find k (assign k v m) ≡ some v
  unfolding find assign
  find-assign_self k v [] = rw (ℤ_eq_refl k)
  find-assign_self k v ((j, w) ∷ m) = ground (arith, ℤ_eq_refl k, find-assign_self k v m)

  pub find-assign :
      (k i : ℤ) (v : A) (m : List (ℤ × A))
      → find i (assign k v m) ≡ (if ℤ_eq k i then some v else find i m)
  unfolding find assign
  find-assign k i v [] = refl
  find-assign k i v ((j, w) ∷ m) =
      ground
        (arith, ℤ_eq_sound j k, ℤ_eq_sound j i, ℤ_eq_sound k i, ℤ_eq_refl i, find-assign k i v m)

  find-AllAbove : (k : ℤ) (m : List (ℤ × A)) → AllAbove k m → find k m ≡ none
  unfolding find
  find-AllAbove k [] h = refl
  find-AllAbove k ((j, w) ∷ m) h = rw (ℤ_ltb_ne k j h.0) (find-AllAbove k m h.1)

  pub find-erase_self : (k : ℤ) (m : List (ℤ × A)) → IsAscending m → find k (erase k m) ≡ none
  unfolding find erase
  find-erase_self k [] h = refl
  find-erase_self k ((j, w) ∷ m) h = elim (Bool-cases (ℤ_eq j k)) [
    | inl e ↦ rw e (subst (λ x. find x m ≡ none) (ℤ_eq_sound j k e) (find-AllAbove j m h.0))
    | inr e ↦ rw (e, e) (find-erase_self k m h.1)
  ]

  pub find-erase_other :
      (k i : ℤ) (m : List (ℤ × A)) → ℤ_eq k i ≡ false → find i (erase k m) ≡ find i m
  unfolding find erase
  find-erase_other k i [] h = refl
  find-erase_other k i ((j, w) ∷ m) h =
      ground (arith, ℤ_eq_sound j k, ℤ_eq_sound j i, find-erase_other k i m)

  pub find-erase :
      (k i : ℤ) (m : List (ℤ × A))
      → IsAscending m
      → find i (erase k m) ≡ (if ℤ_eq k i then none else find i m)
  find-erase k i m o = elim (Bool-cases (ℤ_eq k i)) [
    | inl e ↦
        rw e (subst (λ j. find j (erase k m) ≡ none) (ℤ_eq_sound k i e) (find-erase_self k m o))
    | inr e ↦ rw e (find-erase_other k i m e)
  ]

  pub erase_absent : (k : ℤ) (m : List (ℤ × A)) → find k m ≡ none → erase k m ≡ m
  unfolding find erase
  erase_absent k [] h = refl
  erase_absent k ((j, w) ∷ m) h = ground (arith, erase_absent k m)

  AllAbove-trans : (k j : ℤ) (m : List (ℤ × A)) → ℤ_ltb k j ≡ true → AllAbove j m → AllAbove k m
  AllAbove-trans k j [] h a = tt
  AllAbove-trans k j ((i, w) ∷ m) h a = (ℤ_ltb_trans k j i h a.0, AllAbove-trans k j m h a.1)

  AllAbove-assign :
      (i k : ℤ) (v : A) (m : List (ℤ × A))
      → ℤ_ltb i k ≡ true
      → AllAbove i m
      → AllAbove i (assign k v m)
  unfolding assign
  AllAbove-assign i k v [] h a = (h, tt)
  AllAbove-assign i k v ((j, w) ∷ m) h a = elim (Bool-cases (ℤ_eq j k)) [
    | inl e ↦ rw e (h, a.1)
    | inr e ↦ elim (Bool-cases (ℤ_ltb k j)) [
      | inl f ↦ rw (e, f) (h, a)
      | inr f ↦ rw (e, f) (a.0, AllAbove-assign i k v m h a.1)
    ]
  ]

  AllAbove-erase : (i k : ℤ) (m : List (ℤ × A)) → AllAbove i m → AllAbove i (erase k m)
  unfolding erase
  AllAbove-erase i k [] a = tt
  AllAbove-erase i k ((j, w) ∷ m) a = elim (Bool-cases (ℤ_eq j k)) [
    | inl e ↦ rw e a.1
    | inr e ↦ rw e (a.0, AllAbove-erase i k m a.1)
  ]

  pub assign-IsAscending :
      (k : ℤ) (v : A) (m : List (ℤ × A)) → IsAscending m → IsAscending (assign k v m)
  unfolding assign
  assign-IsAscending k v [] h = (tt, tt)
  assign-IsAscending k v ((j, w) ∷ m) h = elim (Bool-cases (ℤ_eq j k)) [
    | inl e ↦ rw e (subst (λ x. AllAbove x m) (ℤ_eq_sound j k e) h.0, h.1)
    | inr e ↦ elim (Bool-cases (ℤ_ltb k j)) [
      | inl f ↦ rw (e, f) ((f, AllAbove-trans k j m f h.0), h)
      | inr f ↦
          rw (e, f)
            (AllAbove-assign j k v m (ℤ_ltb_total k j e f) h.0, assign-IsAscending k v m h.1)
    ]
  ]

  pub erase-IsAscending : (k : ℤ) (m : List (ℤ × A)) → IsAscending m → IsAscending (erase k m)
  unfolding erase
  erase-IsAscending k [] h = tt
  erase-IsAscending k ((j, w) ∷ m) h = elim (Bool-cases (ℤ_eq j k)) [
    | inl e ↦ rw e h.1
    | inr e ↦ rw e (AllAbove-erase j k m h.0, erase-IsAscending k m h.1)
  ]

module _ {ℓ} {A : Type 0} (P : ℤ × A → Type ℓ) where
  All-if : (b : Bool) (xs ys : List (ℤ × A)) → All P xs → All P ys → All P (if b then xs else ys)
  All-if true xs ys h k = h
  All-if false xs ys h k = k

  pub All-assign : (k : ℤ) (v : A) (m : List (ℤ × A)) → P (k, v) → All P m → All P (assign k v m)
  unfolding assign
  All-assign k v [] h hs = (h, tt)
  All-assign k v ((j, w) ∷ m) h hs = elim (Bool-cases (ℤ_eq j k)) [
    | inl e ↦ rw e (h, hs.1)
    | inr e ↦ rw e (All-if (ℤ_ltb k j) _ _ (h, hs) (hs.0, All-assign k v m h hs.1))
  ]

  pub All-erase : (k : ℤ) (m : List (ℤ × A)) → All P m → All P (erase k m)
  unfolding erase
  All-erase k [] hs = tt
  All-erase k ((j, w) ∷ m) hs = elim (Bool-cases (ℤ_eq j k)) [
    | inl e ↦ rw e hs.1
    | inr e ↦ rw e (hs.0, All-erase k m hs.1)
  ]

  pub All-find : (k : ℤ) (v : A) (m : List (ℤ × A)) → All P m → find k m ≡ some v → P (k, v)
  unfolding find
  All-find k v [] hs e = cc
  All-find k v ((j, w) ∷ m) hs e = elim (Bool-cases (ℤ_eq j k)) [
    | inl h ↦
        let key = ℤ_eq_sound j k h in
        let value : w ≡ v = ground (arith, rw h at e) in
        subst (λ x. P (x, v)) key (subst (λ x. P (j, x)) value hs.0)
    | inr h ↦ All-find k v m hs.1 (rw h at e)
  ]
