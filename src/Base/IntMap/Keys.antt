-- ===== src/Base/IntMap/Keys.antt =====
-- A map with integer keys: where an entry that is found in it comes from.
use ice_adapter.Base.{
  ◌≡◌, refl, ◌∙◌, subst, ◌⊎◌, inl, inr, ℤ, ℤ_eq, ℤ_eq_refl, ℤ_eq_sound, false, List, none, some,
  Bool-cases, arith,
}
use ice_adapter.Base.IntMap.{find, erase, assign}
use ice_adapter.Base.IntMap.Laws.{IsAscending, find-assign, find-erase}

module _ {A : Type 0} where
  pub find_put :
      (k i : ℤ) (v w : A) (m : List (ℤ × A))
      → find i (assign k v m) ≡ some w
      → ((k ≡ i) × (v ≡ w)) ⊎ ((ℤ_eq k i ≡ false) × (find i m ≡ some w))
  find_put k i v w m e = elim (Bool-cases (ℤ_eq k i)) [
    | inl same ↦
        inl (ℤ_eq_sound k i same, let f = find-assign k i v m in ground (arith, f, e, same))
    | inr other ↦ inr (other, let f = find-assign k i v m in ground (arith, f, e, other))
  ]

  pub find_put_self : (k : ℤ) (v : A) (m : List (ℤ × A)) → find k (assign k v m) ≡ some v
  find_put_self k v m = find-assign k k v m ∙ rw (ℤ_eq_refl k) refl

  pub find_put_other :
      (k i : ℤ) (v : A) (m : List (ℤ × A)) → ℤ_eq k i ≡ false → find i (assign k v m) ≡ find i m
  find_put_other k i v m other = find-assign k i v m ∙ rw other refl

  -- A key that has a value is no key that has none.
  pub key_differs :
      (k i : ℤ) (w : A) (m : List (ℤ × A)) → find k m ≡ none → find i m ≡ some w → ℤ_eq k i ≡ false
  key_differs k i w m free e = elim (Bool-cases (ℤ_eq k i)) [
    | inl same ↦ absurd (let f = subst (λ j. find j m ≡ none) (ℤ_eq_sound k i same) free in cc)
    | inr other ↦ other
  ]

  pub find_kept :
      (k i : ℤ) (v w : A) (m : List (ℤ × A))
      → find k m ≡ none
      → find i m ≡ some w
      → find i (assign k v m) ≡ some w
  find_kept k i v w m free e = find_put_other k i v m (key_differs k i w m free e) ∙ e

  pub erase_sub :
      (k i : ℤ) (v : A) (m : List (ℤ × A))
      → IsAscending m
      → find i (erase k m) ≡ some v
      → (ℤ_eq k i ≡ false) × (find i m ≡ some v)
  erase_sub k i v m o e = elim (Bool-cases (ℤ_eq k i)) [
    | inl same ↦ absurd (let f = find-erase k i m o in cc)
    | inr other ↦ (other, let f = find-erase k i m o in cc)
  ]
