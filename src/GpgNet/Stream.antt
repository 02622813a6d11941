-- ===== src/GpgNet/Stream.antt =====
-- `GPGNetMessage::parse` over a byte stream: its loop ends, and how the stream is cut into
-- fragments does not matter.
use ice_adapter.Base.{
  ℕ, zero, suc, ◌<◌, ◌≡◌, refl, ap, inl, inr, ℤ, pos, negsuc, Bytes, [], ◌∷◌, length, arith, ◌==◌,
  Bool-cases,
}
use ice_adapter.Json.{JsonLib}
use ice_adapter.GpgNet.Reader.{
  Outcome, ok, incomplete, unsupported, length_error, IsStable, IsShrinking, bind-ok, Outcome-cases,
  bind-IsStable, bind-IsShrinking, pure-IsStable, pure-IsShrinking, read_byte, read_int32,
  read_header_length, read_string, read_byte-IsStable, read_int32-IsStable,
  read_header_length-IsStable, read_string-IsStable, read_byte-IsShrinking, read_int32-IsShrinking,
  read_header_length_takes, read_string-IsShrinking, pure,
}
use ice_adapter.GpgNet.Message.{
  GpgNetMessage, chunk_value, read_chunk, read_chunks, read_counted, parse_one, Parsed, waiting,
  rejected, threw, stop, deliver, parse_loop, parse,
}

module _ (J : JsonLib) where
  open J use {Value, of_int, of_string}

  chunk_value-IsStable : (type : ℕ) (len : ℤ) → IsStable (chunk_value J type len)
  unfolding chunk_value
  chunk_value-IsStable type len r more = elim (Bool-cases (type == 0)) [
    | inl e ↦ rw e (inr refl)
    | inr e ↦ rw e (elim (Bool-cases (type == 1)) [
      | inl e' ↦ rw e' (
          bind-IsStable (read_string len) (λ s. pure (of_string s)) (read_string-IsStable len)
            (λ s. pure-IsStable (of_string s)) r more)
      | inr e' ↦ rw e' (inr refl)
    ])
  ]

  read_chunk-IsStable : IsStable (read_chunk J)
  unfolding read_chunk
  read_chunk-IsStable =
      bind-IsStable read_byte _ read_byte-IsStable
        λ type. bind-IsStable read_int32 _ read_int32-IsStable (chunk_value-IsStable type)

  read_chunks-IsStable : (n : ℕ) → IsStable (read_chunks J n)
  unfolding read_chunks
  read_chunks-IsStable zero = pure-IsStable []
  read_chunks-IsStable (suc n) =
      bind-IsStable (read_chunk J) _ read_chunk-IsStable
        λ v. bind-IsStable (read_chunks J n) _ (read_chunks-IsStable n) λ vs. pure-IsStable (v ∷ vs)

  read_counted-IsStable : (z : ℤ) → IsStable (read_counted J z)
  unfolding read_counted
  read_counted-IsStable (pos n) r more = read_chunks-IsStable n r more
  read_counted-IsStable (negsuc n) r more = inr refl

  -- A round that is not short of bytes answers the same when more bytes have arrived.
  pub parse_one-IsStable : IsStable (parse_one J)
  unfolding parse_one
  parse_one-IsStable =
      bind-IsStable read_header_length _ read_header_length-IsStable λ header_length.
        bind-IsStable (read_string header_length) _ (read_string-IsStable header_length) λ header.
          bind-IsStable read_int32 _ read_int32-IsStable λ count.
            bind-IsStable (read_counted J count) _ (read_counted-IsStable count)
              λ chunks. pure-IsStable (record { header = header; chunks = chunks })

  chunk_value-IsShrinking : (type : ℕ) (len : ℤ) → IsShrinking (chunk_value J type len)
  unfolding chunk_value
  chunk_value-IsShrinking type len r rest v h = ground (
    arith,
    bind-IsShrinking (read_string len) (λ s. pure (of_string s)) (read_string-IsShrinking len)
        (λ s. pure-IsShrinking (of_string s)) r rest v,
  )

  read_chunk-IsShrinking : IsShrinking (read_chunk J)
  unfolding read_chunk
  read_chunk-IsShrinking =
      bind-IsShrinking read_byte _ read_byte-IsShrinking
        λ type. bind-IsShrinking read_int32 _ read_int32-IsShrinking (chunk_value-IsShrinking type)

  read_chunks-IsShrinking : (n : ℕ) → IsShrinking (read_chunks J n)
  unfolding read_chunks
  read_chunks-IsShrinking zero = pure-IsShrinking []
  read_chunks-IsShrinking (suc n) = bind-IsShrinking (read_chunk J) _ read_chunk-IsShrinking λ v.
      bind-IsShrinking (read_chunks J n) _ (read_chunks-IsShrinking n)
        λ vs. pure-IsShrinking (v ∷ vs)

  read_counted-IsShrinking : (z : ℤ) → IsShrinking (read_counted J z)
  unfolding read_counted
  read_counted-IsShrinking (pos n) r rest a h = read_chunks-IsShrinking n r rest a h
  read_counted-IsShrinking (negsuc n) r rest a h = cc

  -- A round that delivers a message takes bytes from the buffer.
  pub parse_one_takes :
      (b rest : Bytes) (m : GpgNetMessage J) → parse_one J b ≡ ok (m, rest) → length rest < length b
  unfolding parse_one
  parse_one_takes b rest m h =
      let (z, r, e, after) = bind-ok read_header_length _ b h in
      let shrinks =
        bind-IsShrinking (read_string z) _ (read_string-IsShrinking z)
          (λ header. bind-IsShrinking read_int32 _ read_int32-IsShrinking (λ count.
            bind-IsShrinking (read_counted J count) _ (read_counted-IsShrinking count)
              (λ chunks. pure-IsShrinking (record { header = header; chunks = chunks }))))
          r rest m after in
      omega (arith, read_header_length_takes b r z e, shrinks)

  -- What the loop makes of one round's outcome.
  abbrev pub settle : Bytes → Outcome (GpgNetMessage J × Bytes) → Parsed J
  settle b (ok (m, rest)) = deliver J m (parse J rest)
  settle b incomplete = stop J b waiting
  settle b unsupported = stop J b rejected
  settle b length_error = stop J b threw

  fuel_irrelevant :
      (f g : ℕ) (b : Bytes) → length b < f → length b < g → parse_loop J f b ≡ parse_loop J g b
  unfolding parse_loop
  fuel_irrelevant zero g b h k = absurd (omega arith)
  fuel_irrelevant (suc f) zero b h k = absurd (omega arith)
  fuel_irrelevant (suc f) (suc g) b h k = elim (Outcome-cases (parse_one J b)) [
    | inl (m, rest, e) ↦
        rw (e, parse_loop)
          (ap (deliver J m) (
            fuel_irrelevant f g rest (omega (arith, parse_one_takes b rest m e))
              (omega (arith, parse_one_takes b rest m e))))
    | inr (inl e) ↦ rw (e, parse_loop)
    | inr (inr (inl e)) ↦ rw (e, parse_loop)
    | inr (inr (inr e)) ↦ rw (e, parse_loop)
  ]

  -- `parse` runs one round, and goes on with what a delivered message leaves.
  pub parse_lem : (b : Bytes) → parse J b ≡ settle b (parse_one J b)
  unfolding parse parse_loop
  parse_lem b = elim (Outcome-cases (parse_one J b)) [
    | inl (m, rest, e) ↦
        rw (e, parse_loop)
          (ap (deliver J m) (
            fuel_irrelevant (length b) (suc (length rest)) rest
              (omega (arith, parse_one_takes b rest m e)) (omega arith)))
    | inr (inl e) ↦ rw (e, parse_loop)
    | inr (inr (inl e)) ↦ rw (e, parse_loop)
    | inr (inr (inr e)) ↦ rw (e, parse_loop)
  ]
