-- ===== src/GpgNet/Reader.antt =====
-- Reading from a buffer through an iterator, as `GPGNetMessage::parse` does. What stands behind the
-- iterator is the rest of the buffer; `parse` returns, throws, or goes on with a value and the rest.
use ice_adapter.Base.{
  ℕ, ◌≡◌, refl, ap, ◌⊎◌, inl, inr, [], ◌∷◌, ◌++◌, Bytes, ℤ, pos, negsuc, length, drop, take, ltb,
  leb, if◌then◌else◌, get_int32, arith, get_int32-append, drop-append_le, take-append_le,
  length-append, ◌+◌, ◌≤◌, length-drop,
}

-- `incomplete` and `unsupported` are the two kinds of `return`; `length_error` is the
-- `std::length_error` of a `std::string` or a `resize` whose `int32_t` size is negative. That an
-- allocation of an admitted size succeeds is assumed.
pub data Outcome {ℓ} (A : Type ℓ) : Type ℓ where
  ok : A → Outcome A
  incomplete unsupported length_error : Outcome A

abbrev pub Reader {ℓ} : Type ℓ → Type ℓ
Reader A = Bytes → Outcome (A × Bytes)

abbrev pub continue {ℓ κ} :
    {A : Type ℓ} {B : Type κ} → Outcome (A × Bytes) → (A → Reader B) → Outcome (B × Bytes)
continue (ok (a, r)) f = f a r
continue incomplete f = incomplete
continue unsupported f = unsupported
continue length_error f = length_error

infixl 5 ◌>>=◌
abbrev pub ◌>>=◌ {ℓ κ} : {A : Type ℓ} {B : Type κ} → Reader A → (A → Reader B) → Reader B
◌>>=◌ m f r = continue (m r) f

abbrev pub pure {ℓ} : {A : Type ℓ} → A → Reader A
pure a r = ok (a, r)

abbrev first : Bytes → ℕ
first [] = 0
first (x ∷ r) = x

unfoldable pub read_byte : Reader ℕ
read_byte r = if ltb (length r) 1 then incomplete else ok (first r, drop 1 r)

unfoldable pub read_int32 : Reader ℤ
read_int32 r = if ltb (length r) 4 then incomplete else ok (get_int32 r, drop 4 r)

-- The first test of the loop compares by `<=`.
unfoldable pub read_header_length : Reader ℤ
read_header_length r = if leb (length r) 4 then incomplete else ok (get_int32 r, drop 4 r)

-- `(end - it) < length` compares signed numbers, so a negative length passes it.
unfoldable pub read_string : ℤ → Reader Bytes
read_string (pos n) r = if ltb (length r) n then incomplete else ok (take n r, drop n r)
read_string (negsuc n) r = length_error

pub Outcome-cases {ℓ} :
    {A : Type ℓ} (o : Outcome (A × Bytes))
    → ((a : A) × (r : Bytes) × (o ≡ ok (a, r)))
      ⊎ ((o ≡ incomplete) ⊎ ((o ≡ unsupported) ⊎ (o ≡ length_error)))
Outcome-cases (ok (a, r)) = inl (a, r, refl)
Outcome-cases incomplete = inr (inl refl)
Outcome-cases unsupported = inr (inr (inl refl))
Outcome-cases length_error = inr (inr (inr refl))

-- What a reader that has come to an end answers when bytes are added behind its input.
abbrev pub extend {ℓ} : {A : Type ℓ} → Bytes → Outcome (A × Bytes) → Outcome (A × Bytes)
extend more (ok (a, r)) = ok (a, r ++ more)
extend more incomplete = incomplete
extend more unsupported = unsupported
extend more length_error = length_error

-- A reader that is not short of bytes does not look at the bytes added behind.
abbrev pub IsStable {ℓ} : {A : Type ℓ} → Reader A → Type ℓ
IsStable m = (r more : Bytes) → (m r ≡ incomplete) ⊎ (m (r ++ more) ≡ extend more (m r))

-- A reader leaves no more than it was given.
abbrev pub IsShrinking {ℓ} : {A : Type ℓ} → Reader A → Type ℓ
IsShrinking {A} m = (r rest : Bytes) (a : A) → m r ≡ ok (a, rest) → length rest ≤ length r

module _ {ℓ κ} {A : Type ℓ} {B : Type κ} where
  pub continue-IsStable :
      (o : Outcome (A × Bytes)) (f : A → Reader B) (more : Bytes)
      → ((a : A) → IsStable (f a))
      → (continue o f ≡ incomplete) ⊎ (continue (extend more o) f ≡ extend more (continue o f))
  continue-IsStable (ok (a, r)) f more k = k a r more
  continue-IsStable incomplete f more k = inl refl
  continue-IsStable unsupported f more k = inr refl
  continue-IsStable length_error f more k = inr refl

  pub bind-IsStable :
      (m : Reader A) (f : A → Reader B)
      → IsStable m
      → ((a : A) → IsStable (f a))
      → IsStable (m >>= f)
  bind-IsStable m f km kf r more = elim (km r more) [
    | inl e ↦ inl (ap (λ o. continue o f) e)
    | inr e ↦ rw e (continue-IsStable (m r) f more kf)
  ]

  continue-ok :
      (o : Outcome (A × Bytes)) (f : A → Reader B) {b : B} {rest : Bytes}
      → continue o f ≡ ok (b, rest)
      → (a : A) × (r : Bytes) × (o ≡ ok (a, r)) × (f a r ≡ ok (b, rest))
  continue-ok (ok (a, r)) f h = (a, r, refl, h)
  continue-ok incomplete f h = cc
  continue-ok unsupported f h = cc
  continue-ok length_error f h = cc

  -- Inversion of a chain of two readers that ends in a value.
  pub bind-ok :
      (m : Reader A) (f : A → Reader B) (s : Bytes) {b : B} {rest : Bytes}
      → (m >>= f) s ≡ ok (b, rest)
      → (a : A) × (r : Bytes) × (m s ≡ ok (a, r)) × (f a r ≡ ok (b, rest))
  bind-ok m f s h = continue-ok (m s) f h

  -- A chain steps over a first reader whose answer is known.
  pub bind_step :
      (m : Reader A) (f : A → Reader B) (s : Bytes) {a : A} {r : Bytes}
      → m s ≡ ok (a, r)
      → (m >>= f) s ≡ f a r
  bind_step m f s e = ap (λ o. continue o f) e

pub read_byte-IsStable : IsStable read_byte
unfolding read_byte
read_byte-IsStable [] more = inl refl
read_byte-IsStable (x ∷ r) more = inr (ground arith)

pub read_int32-IsStable : IsStable read_int32
unfolding read_int32
read_int32-IsStable r more =
    ground (arith, length-append r more, get_int32-append r more, drop-append_le 4 r more)

pub read_header_length-IsStable : IsStable read_header_length
unfolding read_header_length
read_header_length-IsStable r more =
    ground (arith, length-append r more, get_int32-append r more, drop-append_le 4 r more)

pub read_string-IsStable : (z : ℤ) → IsStable (read_string z)
unfolding read_string
read_string-IsStable (pos n) r more =
    ground (arith, length-append r more, take-append_le n r more, drop-append_le n r more)
read_string-IsStable (negsuc n) r more = inr refl

pub read_byte-cons : (x : ℕ) (r : Bytes) → read_byte (x ∷ r) ≡ ok (x, r)
unfolding read_byte
read_byte-cons x r = ground arith

module _ {ℓ κ} {A : Type ℓ} {B : Type κ} where
  pub bind-IsShrinking :
      (m : Reader A) (f : A → Reader B)
      → IsShrinking m
      → ((a : A) → IsShrinking (f a))
      → IsShrinking (m >>= f)
  bind-IsShrinking m f km kf s rest b h =
      let (a, r, e, e') = bind-ok m f s h in omega (arith, km s r a e, kf a r rest b e')

module _ {ℓ} {A : Type ℓ} where
  pub pure-IsShrinking : (a : A) → IsShrinking (pure a)
  pure-IsShrinking a s rest b h = ground arith

  pub pure-IsStable : (a : A) → IsStable (pure a)
  pure-IsStable a s more = inr refl

pub read_byte-IsShrinking : IsShrinking read_byte
unfolding read_byte
read_byte-IsShrinking r rest a h = ground (arith, length-drop 1 r)

pub read_int32-IsShrinking : IsShrinking read_int32
unfolding read_int32
read_int32-IsShrinking r rest a h = ground (arith, length-drop 4 r)

pub read_header_length_takes :
    (r rest : Bytes) (z : ℤ) → read_header_length r ≡ ok (z, rest) → length rest + 4 ≤ length r
unfolding read_header_length
read_header_length_takes r rest z h = ground (arith, length-drop 4 r)

pub read_string-IsShrinking : (z : ℤ) → IsShrinking (read_string z)
unfolding read_string
read_string-IsShrinking (pos n) r rest a h = ground (arith, length-drop n r)
read_string-IsShrinking (negsuc n) r rest a h = cc
