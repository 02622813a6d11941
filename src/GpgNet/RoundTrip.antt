-- ===== src/GpgNet/RoundTrip.antt =====
-- `parse` against `toBinary` of GPGNetMessage.cpp.
use ice_adapter.Base.{
  ℕ, ◌<◌, ◌≡◌, refl, ◌∙◌, ◌⊎◌, inl, inr, ℤ, pos, IsInt32, Bytes, List, [], ◌∷◌, ◌++◌, some, length,
  All, int32_of, put_int32, arith, length-append, append_assoc, get_int32-put_int32,
  take-length-append, drop-length-append, length-put_int32,
}
use ice_adapter.Json.{JsonLib, JsonLaws}
use ice_adapter.GpgNet.Reader.{
  ok, read_int32, read_header_length, read_string, read_byte-cons, continue, pure,
}
use ice_adapter.GpgNet.Message.{
  GpgNetMessage, put_chunk, put_chunks, to_binary, chunk_value, read_chunk, read_chunks,
  read_counted, parse_one,
}

pub int32_of-small : (n : ℕ) → n < 2147483648 → int32_of n ≡ pos n
unfolding int32_of
int32_of-small n h = ground arith

pub read_int32-put_int32 :
    (z : ℤ) (r : Bytes) → IsInt32 z → read_int32 (put_int32 z ++ r) ≡ ok (z, r)
unfolding read_int32 put_int32
read_int32-put_int32 z r h = ground (arith, get_int32-put_int32 z r h)

pub read_header_length-put_int32 :
    (z : ℤ) (r : Bytes)
    → IsInt32 z
    → 0 < length r
    → read_header_length (put_int32 z ++ r) ≡ ok (z, r)
unfolding read_header_length put_int32
read_header_length-put_int32 z r h k = ground (arith, get_int32-put_int32 z r h)

pub read_string-append : (s r : Bytes) → read_string (pos (length s)) (s ++ r) ≡ ok (s, r)
unfolding read_string
read_string-append s r =
    ground (arith, length-append s r, take-length-append s r, drop-length-append s r)

module _ (J : JsonLib) (laws : JsonLaws J) where
  open J use {Value, of_int, of_string}

  -- A chunk that the protocol can carry: an `int32_t`, or a string that its length field can count.
  abbrev pub IsWire : Value → Type 0
  IsWire v =
      ((z : ℤ) × IsInt32 z × (v ≡ of_int z))
      ⊎ ((s : Bytes) × (length s < 2147483648) × (v ≡ of_string s))

  abbrev pub IsWireMessage : GpgNetMessage J → Type 0
  IsWireMessage m =
      (length m.header < 2147483648) × (length m.chunks < 2147483648) × All IsWire m.chunks

  pub put_chunk-of_int : (z : ℤ) → IsInt32 z → put_chunk J (of_int z) ≡ some (0 ∷ put_int32 z)
  unfolding put_chunk
  put_chunk-of_int z h = rw (laws.type-of_int z, laws.as_int-of_int z h)

  pub put_chunk-of_string :
      (s : Bytes)
      → length s < 2147483648
      → put_chunk J (of_string s) ≡ some (1 ∷ (put_int32 (pos (length s)) ++ s))
  unfolding put_chunk
  put_chunk-of_string s h =
      rw (laws.type-of_string s, laws.as_string-of_string s, int32_of-small (length s) h)

  read_chunk-of_int :
      (z : ℤ) (r : Bytes) → IsInt32 z → read_chunk J (0 ∷ (put_int32 z ++ r)) ≡ ok (of_int z, r)
  unfolding read_chunk chunk_value
  read_chunk-of_int z r h = rw (read_byte-cons, read_int32-put_int32 z r h)

  read_chunk-of_string :
      (s r : Bytes)
      → length s < 2147483648
      → read_chunk J (1 ∷ (put_int32 (pos (length s)) ++ (s ++ r))) ≡ ok (of_string s, r)
  unfolding read_chunk chunk_value
  read_chunk-of_string s r h =
      rw (read_byte-cons, read_int32-put_int32 (pos (length s)) (s ++ r) h, read_string-append s r)

  -- Both directions of one chunk: its encoding, and what the parser makes of it.
  abbrev pub ChunkTrip : Value → Bytes → Type 0
  ChunkTrip v bytes =
      (put_chunk J v ≡ some bytes) × ((r : Bytes) → read_chunk J (bytes ++ r) ≡ ok (v, r))

  pub chunk_trip : (v : Value) → IsWire v → (bytes : Bytes) × ChunkTrip v bytes
  chunk_trip v (inl (z, h, e)) =
      (0 ∷ put_int32 z, (rw e (put_chunk-of_int z h), λ r. rw e (read_chunk-of_int z r h)))
  chunk_trip v (inr (s, h, e)) = (
    1 ∷ (put_int32 (pos (length s)) ++ s),
    (
      rw e (put_chunk-of_string s h),
      λ r. rw (e, append_assoc (put_int32 (pos (length s))) s r) (read_chunk-of_string s r h),
    ),
  )

  ChunksTrip : List Value → Bytes → Type 0
  ChunksTrip vs bytes =
      (put_chunks J vs ≡ some bytes)
      × ((r : Bytes) → read_chunks J (length vs) (bytes ++ r) ≡ ok (vs, r))

  chunks_trip : (vs : List Value) → All IsWire vs → (bytes : Bytes) × ChunksTrip vs bytes
  unfolding ChunksTrip put_chunks read_chunks
  chunks_trip [] h = ([], (refl, λ r. refl))
  chunks_trip (v ∷ vs) (hv, hvs) =
      let (a, (pa, ra)) = chunk_trip v hv in
      let (b, (pb, rb)) = chunks_trip vs hvs in
      (a ++ b, (rw (pa, pb), λ r. rw (append_assoc a b r, ra (b ++ r), rb r)))

  abbrev pub MessageTrip : GpgNetMessage J → Bytes → Type 0
  MessageTrip m bytes =
      (to_binary J m ≡ some bytes) × ((r : Bytes) → parse_one J (bytes ++ r) ≡ ok (m, r))

  -- The readers of `parse_one`, one after the other, over the four parts of an encoding.
  pub parse_one-parts :
      (header body : Bytes) (count : ℕ)
      → length header < 2147483648
      → count < 2147483648
      → parse_one J (put_int32 (pos (length header)) ++ (header ++ (put_int32 (pos count) ++ body)))
        ≡ continue
            (read_chunks J count body)
            (λ chunks. pure (record { header = header; chunks = chunks }))
  unfolding parse_one read_counted
  parse_one-parts header body count hh hc = rw (
    read_header_length-put_int32 (pos (length header)) _ hh nonempty,
    read_string-append header _,
    read_int32-put_int32 (pos count) body hc,
  )
    where
      nonempty : 0 < length (header ++ (put_int32 (pos count) ++ body))
      nonempty = omega (
        arith,
        length-append header (put_int32 (pos count) ++ body),
        length-append (put_int32 (pos count)) body,
        length-put_int32 (pos count),
      )

  -- A message that the protocol can carry is encoded, and one round of `parse` reads it back from
  -- any buffer that its encoding begins, leaving what follows.
  pub message_trip : (m : GpgNetMessage J) → IsWireMessage m → (bytes : Bytes) × MessageTrip m bytes
  unfolding ChunksTrip to_binary
  message_trip m (hh, hc, hw) =
      let (body, (pb, rb)) = chunks_trip m.chunks hw in
      (
        put_int32 (pos (length m.header))
            ++ (m.header ++ (put_int32 (pos (length m.chunks)) ++ body)),
        (
          rw (pb, int32_of-small (length m.header) hh, int32_of-small (length m.chunks) hc),
          λ r.
              simp append_assoc
                (parse_one-parts m.header (body ++ r) (length m.chunks) hh hc ∙ rw (rb r)),
        ),
      )
