-- ===== src/GpgNet/Sound.antt =====
-- What `parse` accepts: the encodings of `toBinary`, and nothing else.
use ice_adapter.Base.{
  ℕ, zero, suc, ◌≤◌, ◌≡◌, refl, ap, sym, ◌∙◌, inl, inr, ℤ, pos, negsuc, IsInt32, Bytes, List, [],
  ◌∷◌, ◌++◌, some, length, All, IsByte, put_int32, get_int32, arith, append_assoc, ◌==◌,
  take-append-drop, length-take, put_int32-get_int32, get_int32-IsInt32, All-append_right,
  Bool-cases, take, drop, subst, subst₂,
}
use ice_adapter.Json.{JsonLib, JsonLaws}
use ice_adapter.GpgNet.Reader.{
  ok, bind-ok, read_byte, read_int32, read_header_length, read_string, pure, ◌>>=◌,
}
use ice_adapter.GpgNet.Message.{
  GpgNetMessage, put_chunk, put_chunks, to_binary, chunk_value, read_chunk, read_chunks,
  read_counted, parse_one,
}
use ice_adapter.GpgNet.RoundTrip.{
  IsWire, IsWireMessage, put_chunk-of_int, put_chunk-of_string, int32_of-small,
}

read_byte_sound : (r s : Bytes) (x : ℕ) → read_byte r ≡ ok (x, s) → r ≡ x ∷ s
unfolding read_byte
read_byte_sound [] s x h = ground arith
read_byte_sound (y ∷ r) s x h = ground arith

-- The four bytes that a reader took are the encoding of the number that it returned.
IsNumber : Bytes → Bytes → ℤ → Type 0
IsNumber r s z = (r ≡ put_int32 z ++ s) × IsInt32 z

take-IsNumber :
    (r s : Bytes) (z : ℤ)
    → All IsByte r
    → 4 ≤ length r
    → get_int32 r ≡ z
    → drop 4 r ≡ s
    → IsNumber r s z
unfolding IsNumber
take-IsNumber r s z bytes h e e' =
    rw (← e, ← e') (sym (put_int32-get_int32 r h bytes), get_int32-IsInt32 r)

read_int32_sound : (r s : Bytes) (z : ℤ) → All IsByte r → read_int32 r ≡ ok (z, s) → IsNumber r s z
unfolding read_int32
read_int32_sound r s z bytes h =
    take-IsNumber r s z bytes (ground arith) (ground arith) (ground arith)

read_header_length_sound :
    (r s : Bytes) (z : ℤ) → All IsByte r → read_header_length r ≡ ok (z, s) → IsNumber r s z
unfolding read_header_length
read_header_length_sound r s z bytes h =
    take-IsNumber r s z bytes (ground arith) (ground arith) (ground arith)

read_string_sound :
    (z : ℤ) (r t s : Bytes) → read_string z r ≡ ok (s, t) → (z ≡ pos (length s)) × (r ≡ s ++ t)
unfolding read_string
read_string_sound (pos n) r t s h =
    let e : take n r ≡ s = ground arith in
    let e' : drop n r ≡ t = ground arith in
    (
      rw (← e) (ap pos (ground (arith, length-take n r))),
      rw (← e, ← e') (sym (take-append-drop n r)),
    )
read_string_sound (negsuc n) r t s h = cc

module _ (J : JsonLib) (laws : JsonLaws J) where
  open J use {Value, of_int, of_string}

  -- The bytes in front of `s` in `r` are what `toBinary` writes for the chunk `v`.
  IsChunk : Bytes → Bytes → Value → Type 0
  IsChunk r s v =
      IsWire J laws v × (bytes : Bytes) × (put_chunk J v ≡ some bytes) × (r ≡ bytes ++ s)

  int-IsChunk : (r s t : Bytes) (z : ℤ) → r ≡ 0 ∷ s → IsNumber s t z → IsChunk r t (of_int z)
  unfolding IsChunk IsNumber
  int-IsChunk r s t z e (e', h) =
      (inl (z, h, refl), 0 ∷ put_int32 z, put_chunk-of_int J laws z h, e ∙ ap (λ x. 0 ∷ x) e')

  string-IsChunk :
      (r s t u text : Bytes) (z : ℤ)
      → r ≡ 1 ∷ s
      → IsNumber s t z
      → z ≡ pos (length text)
      → t ≡ text ++ u
      → IsChunk r u (of_string text)
  unfolding IsChunk IsNumber
  string-IsChunk r s t u text z e (e', h) e'' e''' =
      let small : IsInt32 (pos (length text)) = subst IsInt32 e'' h in
      (
        inr (text, small, refl),
        1 ∷ (put_int32 (pos (length text)) ++ text),
        put_chunk-of_string J laws text small,
        e
            ∙ ap (λ x. 1 ∷ x)
                (e' ∙ rw (e'', e''') (sym (append_assoc (put_int32 (pos (length text))) text u))),
      )

  string_value_sound :
      (z : ℤ) (r s u t : Bytes) (v : Value)
      → r ≡ 1 ∷ s
      → IsNumber s u z
      → (read_string z >>= λ text. pure (of_string text)) u ≡ ok (v, t)
      → IsChunk r t v
  string_value_sound z r s u t v e n h =
      let (text, w, f, h') = bind-ok (read_string z) (λ text. pure (of_string text)) u h in
      let (f', f'') = read_string_sound z u w text f in
      let ev : of_string text ≡ v = ground arith in
      let et : w ≡ t = ground arith in
      subst₂ (λ v t. IsChunk r t v) ev et (string-IsChunk r s u w text z e n f' f'')

  chunk_value_sound :
      (x : ℕ) (z : ℤ) (r s u t : Bytes) (v : Value)
      → r ≡ x ∷ s
      → IsNumber s u z
      → chunk_value J x z u ≡ ok (v, t)
      → IsChunk r t v
  unfolding chunk_value
  chunk_value_sound x z r s u t v e n h = elim (Bool-cases (x == 0)) [
    | inl p ↦
        let ev : of_int z ≡ v = ground arith in
        let et : u ≡ t = ground arith in
        let ex : x ≡ 0 = ground arith in
        subst₂ (λ v t. IsChunk r t v) ev et (int-IsChunk r s u z (rw ex at e) n)
    | inr p ↦ elim (Bool-cases (x == 1)) [
      | inl q ↦
          let ex : x ≡ 1 = ground arith in
          string_value_sound z r s u t v (rw ex at e) n (rw (p, q) at h)
      | inr q ↦ absurd (ground arith)
    ]
  ]

  read_chunk_sound :
      (r t : Bytes) (v : Value) → All IsByte r → read_chunk J r ≡ ok (v, t) → IsChunk r t v
  unfolding read_chunk
  read_chunk_sound r t v bytes h =
      let (x, s, e, h') = bind-ok read_byte _ r h in
      let (z, u, f, h'') = bind-ok read_int32 (chunk_value J x) s h' in
      let e' : r ≡ x ∷ s = read_byte_sound r s x e in
      let rest : All IsByte s = All-append_right IsByte (x ∷ []) s (subst (All IsByte) e' bytes) in
      chunk_value_sound x z r s u t v e' (read_int32_sound s u z rest f) h''

  IsChunks : Bytes → Bytes → List Value → Type 0
  IsChunks r s vs =
      All (IsWire J laws) vs × (bytes : Bytes) × (put_chunks J vs ≡ some bytes) × (r ≡ bytes ++ s)

  cons-IsChunks :
      (r s t : Bytes) (v : Value) (vs : List Value)
      → IsChunk r s v
      → IsChunks s t vs
      → IsChunks r t (v ∷ vs)
  unfolding IsChunk IsChunks put_chunks
  cons-IsChunks r s t v vs (wire, c, ce, re) (wires, d, de, se) =
      ((wire, wires), c ++ d, rw (ce, de), re ∙ rw se (sym (append_assoc c d t)))

  read_chunks_sound :
      (n : ℕ) (r t : Bytes) (vs : List Value)
      → All IsByte r
      → read_chunks J n r ≡ ok (vs, t)
      → (length vs ≡ n) × IsChunks r t vs
  unfolding read_chunks IsChunks IsChunk put_chunks
  read_chunks_sound zero r t vs bytes h =
      let ev : [] ≡ vs = ground arith in
      let et : r ≡ t = ground arith in rw (← ev) (refl, (tt, [], refl, et))
  read_chunks_sound (suc n) r t vs bytes h =
      let (v, s, e, h') = bind-ok (read_chunk J) _ r h in
      let (ws, u, f, h'') = bind-ok (read_chunks J n) _ s h' in
      let (wire, c, ce, re) = read_chunk_sound r s v bytes e in
      let rest : All IsByte s = All-append_right IsByte c s (subst (All IsByte) re bytes) in
      let (count, rest') = read_chunks_sound n s u ws rest f in
      let ev : v ∷ ws ≡ vs = ground arith in
      let et : u ≡ t = ground arith in
      subst₂ (λ vs t. (length vs ≡ suc n) × IsChunks r t vs) ev et
        (ap suc count, cons-IsChunks r s u v ws (read_chunk_sound r s v bytes e) rest')

  read_counted_sound :
      (k : ℤ) (r t : Bytes) (vs : List Value)
      → All IsByte r
      → read_counted J k r ≡ ok (vs, t)
      → (k ≡ pos (length vs)) × IsChunks r t vs
  unfolding read_counted
  read_counted_sound (pos n) r t vs bytes h =
      let (e, c) = read_chunks_sound n r t vs bytes h in (ap pos (sym e), c)
  read_counted_sound (negsuc n) r t vs bytes h = cc

  -- The bytes in front of `rest` in `b` are what `toBinary` writes for `m`.
  abbrev pub Decoded : Bytes → Bytes → GpgNetMessage J → Type 0
  Decoded b rest m =
      IsWireMessage J laws m × (bytes : Bytes) × (to_binary J m ≡ some bytes) × (b ≡ bytes ++ rest)

  -- The parts that the readers of one round took, put together.
  assemble :
      (b r s t rest header : Bytes) (chunks : List Value) (z k : ℤ)
      → IsNumber b r z
      → z ≡ pos (length header)
      → r ≡ header ++ s
      → IsNumber s t k
      → (k ≡ pos (length chunks)) × IsChunks t rest chunks
      → Decoded b rest (record { header = header; chunks = chunks })
  unfolding IsNumber IsChunks to_binary
  assemble b r s t rest header chunks z k (br, hz) hl rs (st, hk) (kl, (wires, body, ce, tb)) =
      let small : IsInt32 (pos (length header)) = subst IsInt32 hl hz in
      let few : IsInt32 (pos (length chunks)) = subst IsInt32 kl hk in
      (
        (small, few, wires),
        put_int32 (pos (length header)) ++ (header ++ (put_int32 (pos (length chunks)) ++ body)),
        rw (ce, int32_of-small (length header) small, int32_of-small (length chunks) few),
        rw (br, hl, rs, st, kl, tb) (simp append_assoc),
      )

  -- Where one round of `parse` delivers a message, the bytes that it took are exactly those that
  -- `toBinary` writes for that message, and the message is one that the protocol can carry.
  pub parse_one_sound :
      (b rest : Bytes) (m : GpgNetMessage J)
      → All IsByte b
      → parse_one J b ≡ ok (m, rest)
      → Decoded b rest m
  unfolding parse_one IsNumber
  parse_one_sound b rest m bytes h =
      let (z, r, e, h1) = bind-ok read_header_length _ b h in
      let (br, hz) = read_header_length_sound b r z bytes e in
      let on_r : All IsByte r =
        All-append_right IsByte (put_int32 z) r (subst (All IsByte) br bytes) in
      let (header, s, f, h2) = bind-ok (read_string z) _ r h1 in
      let (hl, rs) = read_string_sound z r s header f in
      let on_s : All IsByte s = All-append_right IsByte header s (subst (All IsByte) rs on_r) in
      let (k, t, g, h3) = bind-ok read_int32 _ s h2 in
      let (st, hk) = read_int32_sound s t k on_s g in
      let on_t : All IsByte t =
        All-append_right IsByte (put_int32 k) t (subst (All IsByte) st on_s) in
      let (chunks, u, i, h4) = bind-ok (read_counted J k) _ t h3 in
      let em : record { header = header; chunks = chunks } ≡ m = ground arith in
      let er : u ≡ rest = ground arith in
      subst₂ (λ m rest. Decoded b rest m) em er
        (assemble b r s t u header chunks z k (br, hz) hl rs (st, hk)
          (read_counted_sound k t u chunks on_t i))
