-- ===== src/Rpc/Split.antt =====
-- `_parseJsonFromMsgBuffer` against the bytes that have not arrived yet.
use ice_adapter.Base.{
  ℕ, zero, suc, ◌≡◌, refl, inl, inr, ◌≤◌, ◌<◌, Bytes, Bool, true, false, [], ◌∷◌, ◌++◌, length,
  take, drop, arith, Bool-cases, ◌==◌, take-length-append, drop-length-append, length-take,
  length-drop, Option, none, some,
}
use ice_adapter.Json.{JsonLib, JsonLaws}
use ice_adapter.Rpc.Trim.{trim_whitespace, find_first_not, find_last_not}
use ice_adapter.Rpc.Framing.{
  Scan, unfinished, unbalanced, closed, one_more, Seen, go_on, below_zero, at_zero, see, scan,
  take_message, parse_json_from_msg_buffer, is_null, Messages, round_of, read_loop, read_messages,
}

pub one_more-closed :
    (s : Scan) (n : ℕ) → one_more s ≡ closed n → (m : ℕ) × (s ≡ closed m) × (n ≡ suc m)
one_more-closed unfinished n h = cc
one_more-closed unbalanced n h = cc
one_more-closed (closed m) n h = (m, refl, ground arith)

-- Where the first object ends does not depend on what follows it, and it ends inside the buffer.
pub scan-append :
    (in_string : Bool) (level : ℕ) (b more : Bytes) (n : ℕ)
    → scan in_string level b ≡ closed n
    → (scan in_string level (b ++ more) ≡ closed n) × (n ≤ length b)
unfolding scan
scan-append in_string level [] more n h = cc
scan-append in_string level (c ∷ cs) more n h =
    by_byte (see in_string level c) refl (λ s l m k. scan-append s l cs more m k)
  where
    Ends : ℕ → Type 0
    Ends n = (scan in_string level (c ∷ (cs ++ more)) ≡ closed n) × (n ≤ suc (length cs))

    by_byte :
        (s : Seen)
        → see in_string level c ≡ s
        → ((s : Bool) (l m : ℕ)
            → scan s l cs ≡ closed m
            → (scan s l (cs ++ more) ≡ closed m) × (m ≤ length cs))
        → Ends n
    by_byte (go_on s l) e ih =
        let (m, k, f) = one_more-closed (scan s l cs) n (rw (e, scan) at h) in
        let (ends, inside) = ih s l m k in rw (e, scan, ends, f) (refl, omega arith)
    by_byte below_zero e ih = absurd (ground (arith, rw (e, scan) at h))
    by_byte at_zero e ih =
        let one : closed 1 ≡ closed n = rw (e, scan) at h in rw (e, scan) (one, ground arith)

pub scan-positive :
    (in_string : Bool) (level : ℕ) (b : Bytes) (n : ℕ) → scan in_string level b ≡ closed n → 0 < n
unfolding scan
scan-positive in_string level [] n h = cc
scan-positive in_string level (c ∷ cs) n h = by_byte (see in_string level c) refl
  where
    by_byte : (s : Seen) → see in_string level c ≡ s → 0 < n
    by_byte (go_on s l) e =
        let (m, k, f) = one_more-closed (scan s l cs) n (rw (e, scan) at h) in omega (arith, f)
    by_byte below_zero e = absurd (ground (arith, rw (e, scan) at h))
    by_byte at_zero e = let one : closed 1 ≡ closed n = rw (e, scan) at h in ground arith

trim-shorter : (b : Bytes) → length (trim_whitespace b) ≤ length b
unfolding trim_whitespace
trim-shorter b = by_ends (find_first_not b) (find_last_not b)
  where
    by_ends :
        (first last : Option ℕ)
        → length (elim first [
          | none ↦ []
          | some start ↦ elim last [ none ↦ [] | some end ↦ take (suc end) (drop start b) ]
        ])
          ≤ length b
    by_ends none last = omega arith
    by_ends (some start) none = omega arith
    by_ends (some start) (some end) =
        omega (arith, length-take (suc end) (drop start b), length-drop start b)

module _ (J : JsonLib) (laws : JsonLaws J) where
  -- The byte `{` and these bytes are one object for the loop, and JSON for the reader.
  abbrev pub IsMessage : Bytes → J.Value → Type 0
  IsMessage cs v =
      (scan false 0 (123 ∷ cs) ≡ closed (length (123 ∷ cs))) × (J.read (123 ∷ cs) ≡ (true, v))

  -- A complete message at the front of the buffer is returned, whatever bytes stand behind it, and
  -- these bytes are what is left.
  pub message_taken :
      (cs more : Bytes) (v : J.Value)
      → IsMessage cs v
      → parse_json_from_msg_buffer J ((123 ∷ cs) ++ more) ≡ (v, more)
  unfolding parse_json_from_msg_buffer
  message_taken cs more v (ends, reads) = rw (
    (scan-append false 0 (123 ∷ cs) more (length (123 ∷ cs)) ends).0,
    take-length-append cs more,
    reads,
    drop-length-append cs more,
  )

  taken-shorter :
      (b : Bytes) (s : Scan)
      → scan false 0 b ≡ s
      → 0 < length b
      → is_null J (take_message J b s).0 ≡ false
      → length (take_message J b s).1 < length b
  unfolding is_null
  taken-shorter b unfinished e h n = absurd (cc (laws.type-null))
  taken-shorter b unbalanced e h n = omega arith
  taken-shorter b (closed m) e h n = ground (arith, scan-positive false 0 b m e, length-drop m b)

  parse_json-shorter :
      (b : Bytes)
      → 0 < length b
      → is_null J (parse_json_from_msg_buffer J b).0 ≡ false
      → length (parse_json_from_msg_buffer J b).1 < length b
  unfolding parse_json_from_msg_buffer
  parse_json-shorter [] h n = absurd (omega arith)
  parse_json-shorter (c ∷ cs) h n = elim (Bool-cases (c == 123)) [
    | inl e ↦ rw e (taken-shorter (c ∷ cs) (scan false 0 (c ∷ cs)) refl h (rw e at n))
    | inr e ↦ rw e (omega arith)
  ]

  round_finishes :
      (t : Bytes) (later : Bytes → Messages J)
      → ((rest : Bytes) → length rest < length t → (later rest).finished ≡ true)
      → (round_of J t later).finished ≡ true
  round_finishes [] later k = refl
  round_finishes (c ∷ cs) later k =
      elim (Bool-cases (is_null J (parse_json_from_msg_buffer J (c ∷ cs)).0)) [
        | inl e ↦ rw e
        | inr e ↦ rw e (
            k (parse_json_from_msg_buffer J (c ∷ cs)).1
              (parse_json-shorter (c ∷ cs) (omega arith) e))
      ]

  read_loop_finishes :
      (fuel : ℕ) (b : Bytes) → length b < fuel → (read_loop J fuel b).finished ≡ true
  unfolding read_loop
  read_loop_finishes zero b h = absurd (omega arith)
  read_loop_finishes (suc fuel) b h =
      round_finishes (trim_whitespace b) (λ rest. read_loop J fuel rest)
        (λ rest k. read_loop_finishes fuel rest (omega (arith, k, trim-shorter b)))

  -- The loop of `_read` ends on every buffer.
  pub read_messages_finishes : (b : Bytes) → (read_messages J b).finished ≡ true
  unfolding read_messages
  read_messages_finishes b = read_loop_finishes (suc (length b)) b (omega arith)
