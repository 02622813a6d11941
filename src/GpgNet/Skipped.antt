-- ===== src/GpgNet/Skipped.antt =====
-- Chunks that `toBinary` counts and does not write (the `default` of its `switch`).
use ice_adapter.Base.{
  ℕ, zero, suc, ◌<◌, ◌≡◌, refl, ◌⊎◌, inl, inr, Bytes, List, [], ◌∷◌, ◌++◌, Bool, true, false, some,
  All, length, pos, arith, if◌then◌else◌, put_int32,
}
use ice_adapter.Json.{
  JsonLib, JsonLaws, ValueType, null_value, int_value, uint_value, real_value, string_value,
  boolean_value, array_value, object_value,
}
use ice_adapter.GpgNet.Message.{
  GpgNetMessage, to_binary, parse, stop, waiting, put_chunk, put_chunks, read_chunk, read_chunks,
}
use ice_adapter.GpgNet.Reader.{ok, incomplete, read_byte}
use ice_adapter.GpgNet.Stream.{parse_lem}
use ice_adapter.GpgNet.RoundTrip.{IsWire, chunk_trip, int32_of-small, parse_one-parts}

abbrev pub is_written : ValueType → Bool
is_written int_value = true
is_written uint_value = true
is_written boolean_value = true
is_written string_value = true
is_written _ = false

module _ (J : JsonLib) (laws : JsonLaws J) where
  open J use {Value, value_type}

  -- The chunks of the types that `toBinary` writes.
  abbrev pub written : List Value → List Value
  written [] = []
  written (v ∷ vs) = if is_written (value_type v) then v ∷ written vs else written vs

  -- A chunk of a type that is not supported, or one that can be carried.
  abbrev pub IsSkippedOrWire : Value → Type 0
  IsSkippedOrWire v = (is_written (value_type v) ≡ false) ⊎ IsWire J laws v

  ShortChunks : List Value → Bytes → Type 0
  ShortChunks vs bytes =
      (put_chunks J vs ≡ some bytes)
      × (put_chunks J (written vs) ≡ some bytes)
      × ((k : ℕ) → length (written vs) < k → read_chunks J k bytes ≡ incomplete)

  skip_chunk :
      (t : ValueType) (v : Value)
      → is_written t ≡ false
      → value_type v ≡ t
      → put_chunk J v ≡ some []
  unfolding put_chunk
  skip_chunk null_value v h e = rw e
  skip_chunk real_value v h e = rw e
  skip_chunk array_value v h e = rw e
  skip_chunk object_value v h e = rw e
  skip_chunk _ v h e = cc

  IsWire-is_written : (v : Value) → IsWire J laws v → is_written (value_type v) ≡ true
  IsWire-is_written v (inl (z, h, e)) = rw (e, laws.type-of_int z)
  IsWire-is_written v (inr (s, h, e)) = rw (e, laws.type-of_string s)

  cons_skipped :
      (v : Value) (vs : List Value) (bytes : Bytes)
      → is_written (value_type v) ≡ false
      → ShortChunks vs bytes
      → ShortChunks (v ∷ vs) bytes
  unfolding ShortChunks put_chunks
  cons_skipped v vs bytes h (e, same, read) =
      (rw (skip_chunk (value_type v) v h refl, e), rw h same, λ k lt. read k (rw h at lt))

  cons_wire :
      (v : Value) (vs : List Value) (a bytes : Bytes)
      → is_written (value_type v) ≡ true
      → put_chunk J v ≡ some a
      → ((r : Bytes) → read_chunk J (a ++ r) ≡ ok (v, r))
      → ShortChunks vs bytes
      → ShortChunks (v ∷ vs) (a ++ bytes)
  unfolding ShortChunks put_chunks read_chunks
  cons_wire v vs a bytes h ev rv (e, same, read) = (rw (ev, e), rw (h, ev, same), short)
    where
      short : (k : ℕ) → length (written (v ∷ vs)) < k → read_chunks J k (a ++ bytes) ≡ incomplete
      short zero lt = absurd (omega arith)
      short (suc k) lt =
          let fewer : suc (length (written vs)) < suc k = rw h at lt in
          rw (rv bytes, read k (omega arith))

  short_chunks : (vs : List Value) → All IsSkippedOrWire vs → (bytes : Bytes) × ShortChunks vs bytes
  unfolding ShortChunks put_chunks read_chunks read_chunk read_byte
  short_chunks [] h = ([], (refl, refl, empty))
    where
      empty : (k : ℕ) → 0 < k → read_chunks J k [] ≡ incomplete
      empty zero lt = absurd (omega arith)
      empty (suc k) lt = refl
  short_chunks (v ∷ vs) (inl h, hs) =
      let (bytes, s) = short_chunks vs hs in (bytes, cons_skipped v vs bytes h s)
  short_chunks (v ∷ vs) (inr w, hs) =
      let (a, (ev, rv)) = chunk_trip J laws v w in
      let (bytes, s) = short_chunks vs hs in
      (a ++ bytes, cons_wire v vs a bytes (IsWire-is_written v w) ev rv s)

  -- A message with a header of fewer than 2 ^ 31 bytes and fewer than 2 ^ 31 chunks, of which at least
  -- one is of an unsupported type (null, a float, an array or an object), and every other one is a
  -- value of the signed integer type from -2 ^ 31 to 2 ^ 31 - 1 or a string of fewer than 2 ^ 31 bytes,
  -- is encoded all the same: the count in the encoding is that of all chunks, and the chunks behind the count are those of the
  -- supported types only. A receiver of the encoding waits for more.
  pub skipped_chunk_starves :
      (m : GpgNetMessage J)
      → length m.header < 2147483648
      → length m.chunks < 2147483648
      → All IsSkippedOrWire m.chunks
      → length (written m.chunks) < length m.chunks
      → (body : Bytes) × (put_chunks J (written m.chunks) ≡ some body)
        × (bytes : Bytes) × (bytes
            ≡ put_int32 (pos (length m.header))
              ++ (m.header ++ (put_int32 (pos (length m.chunks)) ++ body)))
        × (to_binary J m ≡ some bytes)
        × (parse J bytes ≡ stop J bytes waiting)
  unfolding ShortChunks to_binary
  skipped_chunk_starves m hh hc hw few =
      let (body, (e, same, read)) = short_chunks m.chunks hw in
      (
        body,
        same,
        put_int32 (pos (length m.header))
            ++ (m.header ++ (put_int32 (pos (length m.chunks)) ++ body)),
        refl,
        rw (e, int32_of-small (length m.header) hh, int32_of-small (length m.chunks) hc),
        rw (
          parse_lem J _,
          parse_one-parts J laws m.header body (length m.chunks) hh hc,
          read (length m.chunks) few,
        ),
      )
