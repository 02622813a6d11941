-- ===== src/GpgNet/Members.antt =====
-- `std::set` and `std::map` of the servers: the sorted list of the members, and which they are.
use ice_adapter.Base.{
  ℕ, suc, ◌≡◌, refl, ap, inl, inr, map, Bytes, Bool, true, false, List, [], ◌∷◌, ◌++◌, arith,
  Bool-cases, ltb, ◌==◌, if◌then◌else◌,
}
use ice_adapter.GpgNet.Server.{insert, erase}

abbrev pub contains : ℕ → List ℕ → Bool
contains h [] = false
contains h (k ∷ ks) = let rest = contains h ks in if h == k then true else rest

abbrev Above : ℕ → List ℕ → Type 0
Above h [] = Unit
Above h (k ∷ ks) = (ltb h k ≡ true) × Above k ks

abbrev pub IsSorted : List ℕ → Type 0
IsSorted [] = Unit
IsSorted (h ∷ hs) = Above h hs

pub contains-Above :
    (h : ℕ) (ks : List ℕ) (j : ℕ) → Above h ks → ltb j (suc h) ≡ true → contains j ks ≡ false
contains-Above h [] j a le = refl
contains-Above h (k ∷ ks) j a le = ground (arith, contains-Above k ks j a.1)

pub contains-insert :
    (j h : ℕ) (hs : List ℕ) → contains j (insert h hs) ≡ (if j == h then true else contains j hs)
unfolding insert
contains-insert j h [] = ground arith
contains-insert j h (k ∷ ks) = ground (arith, contains-insert j h ks)

pub Above-IsSorted : (h : ℕ) (ks : List ℕ) → Above h ks → IsSorted ks
Above-IsSorted h [] a = tt
Above-IsSorted h (k ∷ ks) a = a.1

Above-lower : (h k : ℕ) (ks : List ℕ) → ltb h k ≡ true → Above k ks → Above h ks
Above-lower h k [] l a = tt
Above-lower h k (j ∷ ks) l a = (ground arith, a.1)

Above-insert : (k h : ℕ) (ks : List ℕ) → ltb k h ≡ true → Above k ks → Above k (insert h ks)
unfolding insert
Above-insert k h [] l a = (l, tt)
Above-insert k h (j ∷ ks) l a = elim (Bool-cases (h == j)) [
  | inl e ↦ rw (e, insert) a
  | inr e ↦ elim (Bool-cases (ltb h j)) [
    | inl b ↦ rw (e, b, insert) (l, (b, a.1))
    | inr b ↦ rw (e, b, insert) (a.0, Above-insert j h ks (ground arith) a.1)
  ]
]

Above-erase : (k h : ℕ) (ks : List ℕ) → Above k ks → Above k (erase h ks)
unfolding erase
Above-erase k h [] a = tt
Above-erase k h (j ∷ ks) a = elim (Bool-cases (h == j)) [
  | inl e ↦ rw (e, erase) (Above-lower k j ks a.0 a.1)
  | inr e ↦ rw (e, erase) (a.0, Above-erase j h ks a.1)
]

pub insert-IsSorted : (h : ℕ) (hs : List ℕ) → IsSorted hs → IsSorted (insert h hs)
unfolding insert
insert-IsSorted h [] o = tt
insert-IsSorted h (k ∷ ks) o = elim (Bool-cases (h == k)) [
  | inl e ↦ rw (e, insert) o
  | inr e ↦ elim (Bool-cases (ltb h k)) [
    | inl b ↦ rw (e, b, insert) (b, o)
    | inr b ↦ rw (e, b, insert) (Above-insert k h ks (ground arith) o)
  ]
]

pub erase-IsSorted : (h : ℕ) (hs : List ℕ) → IsSorted hs → IsSorted (erase h hs)
unfolding erase
erase-IsSorted h [] o = tt
erase-IsSorted h (k ∷ ks) o = elim (Bool-cases (h == k)) [
  | inl e ↦ rw (e, erase) (Above-IsSorted k ks o)
  | inr e ↦ rw (e, erase) (Above-erase k h ks o)
]

pub contains-erase :
    (j h : ℕ) (hs : List ℕ)
    → IsSorted hs
    → contains j (erase h hs) ≡ (if j == h then false else contains j hs)
unfolding erase
contains-erase j h [] o = ground arith
contains-erase j h (k ∷ ks) o =
    ground (arith, contains-erase j h ks (Above-IsSorted k ks o), contains-Above k ks j o)

-- What is sent to one of the members, in order.
abbrev pub received_by : ℕ → List (ℕ × Bytes) → List Bytes
received_by h [] = []
received_by h ((k, bytes) ∷ w) = let rest = received_by h w in if h == k then bytes ∷ rest else rest

pub received_by-append :
    (h : ℕ) (v w : List (ℕ × Bytes)) → received_by h (v ++ w) ≡ received_by h v ++ received_by h w
received_by-append h [] w = refl
received_by-append h ((k, bytes) ∷ v) w = elim (Bool-cases (h == k)) [
  | inl e ↦ rw e (ap (λ l. bytes ∷ l) (received_by-append h v w))
  | inr e ↦ rw e (received_by-append h v w)
]

pub received_by-none :
    (h : ℕ) (bytes : Bytes) (ks : List ℕ)
    → contains h ks ≡ false
    → received_by h (map (λ k. (k, bytes)) ks) ≡ []
received_by-none h bytes [] n = refl
received_by-none h bytes (k ∷ ks) n = ground (arith, received_by-none h bytes ks)

-- Every member of a set is in it once.
pub received_by-broadcast :
    (h : ℕ) (bytes : Bytes) (ks : List ℕ)
    → IsSorted ks
    → received_by h (map (λ k. (k, bytes)) ks) ≡ (if contains h ks then bytes ∷ [] else [])
received_by-broadcast h bytes [] o = refl
received_by-broadcast h bytes (k ∷ ks) o = elim (Bool-cases (h == k)) [
  | inl e ↦
      rw e
        (ap (λ l. bytes ∷ l) (received_by-none h bytes ks (contains-Above k ks h o (ground arith))))
  | inr e ↦ rw e (received_by-broadcast h bytes ks (Above-IsSorted k ks o))
]
