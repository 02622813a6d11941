-- ===== src/Rpc/Stream.antt =====
-- JsonRpc.cpp `_read` on messages that stand one after the other, as the client's writer sends them.
use ice_adapter.Base.{
  ℕ, zero, suc, ◌≡◌, refl, ap, sym, ◌∙◌, ◌≤◌, ◌<◌, Bytes, Bool, true, false, List, [], ◌∷◌, ◌++◌,
  map, length, take, drop, arith, Option, none, some, All, append_assoc, append-nil, length-append,
  take-length-append,
}
use ice_adapter.Json.{JsonLib, JsonLaws}
use ice_adapter.Rpc.Trim.{trim_whitespace, find_first_not, find_last_not, is_whitespace}
use ice_adapter.Rpc.Framing.{
  closed, Seen, go_on, below_zero, at_zero, see, scan, is_null, Messages, round_of, process,
  read_loop, read_messages,
}
use ice_adapter.Rpc.Split.{one_more-closed, IsMessage, message_taken}

-- The last byte is no whitespace.
unfoldable pub EndsTight : Bytes → Type 0
EndsTight b = (k : ℕ) × (find_last_not b ≡ some k) × (suc k ≡ length b)

cons-EndsTight : (c : ℕ) (b : Bytes) → EndsTight b → EndsTight (c ∷ b)
unfolding EndsTight find_last_not
cons-EndsTight c b (k, e, h) = (suc k, rw e, omega (arith, h))

append-EndsTight : (a b : Bytes) → EndsTight b → EndsTight (a ++ b)
append-EndsTight [] b h = h
append-EndsTight (c ∷ a) b h = cons-EndsTight c (a ++ b) (append-EndsTight a b h)

see-at_zero : (in_string : Bool) (level c : ℕ) → see in_string level c ≡ at_zero → c ≡ 125
unfolding see
see-at_zero in_string level c h = ground arith

-- An object that the loop closes with the buffer's last byte ends with a brace.
scan-EndsTight :
    (in_string : Bool) (level : ℕ) (b : Bytes)
    → scan in_string level b ≡ closed (length b)
    → EndsTight b
unfolding scan EndsTight find_last_not is_whitespace
scan-EndsTight in_string level [] h = cc
scan-EndsTight in_string level (c ∷ cs) h =
    by_byte (see in_string level c) refl (λ s l k. scan-EndsTight s l cs k)
  where
    by_byte :
        (s : Seen)
        → see in_string level c ≡ s
        → ((s : Bool) (l : ℕ) → scan s l cs ≡ closed (length cs) → EndsTight cs)
        → EndsTight (c ∷ cs)
    by_byte (go_on s l) e ih =
        let (m, k, f) = one_more-closed (scan s l cs) (suc (length cs)) (rw (e, scan) at h) in
        cons-EndsTight c cs (ih s l (k ∙ ap closed (omega (arith, f))))
    by_byte below_zero e ih = absurd (ground (arith, rw (e, scan) at h))
    by_byte at_zero e ih =
        let one : closed 1 ≡ closed (suc (length cs)) = rw (e, scan) at h in
        last_brace cs (see-at_zero in_string level c e) (ground arith)
      where
        last_brace : (rest : Bytes) → c ≡ 125 → length rest ≡ 0 → EndsTight (c ∷ rest)
        last_brace [] f z = (0, rw f, refl)
        last_brace (x ∷ rest) f z = absurd (omega (arith, z))

pub take-all : (n : ℕ) (b : Bytes) → length b ≤ n → take n b ≡ b
take-all zero [] h = refl
take-all zero (x ∷ b) h = absurd (omega arith)
take-all (suc n) [] h = refl
take-all (suc n) (x ∷ b) h = ap (◌∷◌ x) (take-all n b (omega arith))

pub find_last_not-newline : (b : Bytes) → find_last_not (b ++ (10 ∷ [])) ≡ find_last_not b
unfolding find_last_not is_whitespace
find_last_not-newline [] = refl
find_last_not-newline (c ∷ b) = rw (find_last_not-newline b)

abbrev cut : ℕ → Bytes → Option ℕ → Bytes
cut start text none = []
cut start text (some end) = take (suc end) (drop start text)

-- Trimming a text that starts with a brace and ends tightly, alone, behind a newline or before one.
trim-newline_before :
    (cs : Bytes) → EndsTight (123 ∷ cs) → trim_whitespace (10 ∷ (123 ∷ cs)) ≡ 123 ∷ cs
unfolding EndsTight trim_whitespace find_first_not is_whitespace
trim-newline_before cs tight =
    let (k, e, h) = cons-EndsTight 10 (123 ∷ cs) tight in
    ap (cut 1 (10 ∷ (123 ∷ cs))) e ∙ take-all (suc k) (123 ∷ cs) (omega (arith, h))

trim-newline_after :
    (cs : Bytes) → EndsTight (123 ∷ cs) → trim_whitespace ((123 ∷ cs) ++ (10 ∷ [])) ≡ 123 ∷ cs
unfolding EndsTight trim_whitespace find_first_not is_whitespace
trim-newline_after cs (k, e, h) =
    ap (cut 0 ((123 ∷ cs) ++ (10 ∷ []))) (find_last_not-newline (123 ∷ cs) ∙ e)
    ∙ ap (λ n. take n ((123 ∷ cs) ++ (10 ∷ []))) h
    ∙ take-length-append (123 ∷ cs) (10 ∷ [])

module _ (J : JsonLib) (laws : JsonLaws J) where
  -- Messages as bytes behind their first brace, with the values that the reader makes of them.
  abbrev pub AreMessages : List (Bytes × J.Value) → Type 0
  AreMessages ms = All (λ m. IsMessage J laws m.0 m.1 × (is_null J m.1 ≡ false)) ms

  -- Each message with a newline behind it.
  abbrev pub stream : List (Bytes × J.Value) → Bytes
  stream [] = []
  stream (m ∷ ms) = (123 ∷ m.0) ++ (10 ∷ stream ms)

  -- The same with newlines between the messages only; `behind` is what stands behind a message.
  abbrev pub behind : List (Bytes × J.Value) → Bytes
  behind [] = []
  behind (m ∷ ms) = 10 ∷ (123 ∷ (m.0 ++ behind ms))

  abbrev pub joined : List (Bytes × J.Value) → Bytes
  joined [] = []
  joined (m ∷ ms) = 123 ∷ (m.0 ++ behind ms)

  pub stream-behind : (ms : List (Bytes × J.Value)) → 10 ∷ stream ms ≡ behind ms ++ (10 ∷ [])
  stream-behind [] = refl
  stream-behind (m ∷ ms) =
      ap (λ b. 10 ∷ (123 ∷ b))
        (ap (λ b. m.0 ++ b) (stream-behind ms) ∙ sym (append_assoc m.0 (behind ms) (10 ∷ [])))

  pub joined-EndsTight :
      (m : Bytes × J.Value) (ms : List (Bytes × J.Value))
      → AreMessages (m ∷ ms)
      → EndsTight (123 ∷ (m.0 ++ behind ms))
  joined-EndsTight m [] h = rw (append-nil m.0) (scan-EndsTight false 0 (123 ∷ m.0) h.0.0.0)
  joined-EndsTight m (n ∷ ms) h =
      append-EndsTight (123 ∷ m.0) (10 ∷ (123 ∷ (n.0 ++ behind ms)))
        (cons-EndsTight 10 (123 ∷ (n.0 ++ behind ms)) (joined-EndsTight n ms h.1))

  trim-behind :
      (ms : List (Bytes × J.Value)) → AreMessages ms → trim_whitespace (behind ms) ≡ joined ms
  unfolding trim_whitespace find_first_not
  trim-behind [] h = refl
  trim-behind (m ∷ ms) h = trim-newline_before (m.0 ++ behind ms) (joined-EndsTight m ms h)

  trim-stream :
      (ms : List (Bytes × J.Value)) → AreMessages ms → trim_whitespace (stream ms) ≡ joined ms
  unfolding trim_whitespace find_first_not
  trim-stream [] h = refl
  trim-stream (m ∷ ms) h =
      ap (λ b. trim_whitespace ((123 ∷ m.0) ++ b)) (stream-behind ms)
      ∙ ap trim_whitespace (sym (append_assoc (123 ∷ m.0) (behind ms) (10 ∷ [])))
      ∙ trim-newline_after (m.0 ++ behind ms) (joined-EndsTight m ms h)

  abbrev pub all_delivered : List (Bytes × J.Value) → Messages J
  all_delivered ms = record { messages = map (λ m. m.1) ms; buffer = []; finished = true }

  round_delivers :
      (m : Bytes × J.Value) (rest : Bytes) (later : Bytes → Messages J)
      → IsMessage J laws m.0 m.1
      → is_null J m.1 ≡ false
      → round_of J (123 ∷ (m.0 ++ rest)) later ≡ process J m.1 (later rest)
  round_delivers m rest later h n = rw (message_taken J laws m.0 rest m.1 h, n)

  loop_delivers :
      (fuel : ℕ) (b : Bytes) (ms : List (Bytes × J.Value))
      → AreMessages ms
      → trim_whitespace b ≡ joined ms
      → length ms < fuel
      → read_loop J fuel b ≡ all_delivered ms
  unfolding read_loop
  loop_delivers zero b ms h e k = absurd (omega arith)
  loop_delivers (suc fuel) b [] h e k = ap (λ t. round_of J t (λ rest. read_loop J fuel rest)) e
  loop_delivers (suc fuel) b (m ∷ ms) h e k =
      let ih = loop_delivers fuel (behind ms) ms h.1 (trim-behind ms h.1) (omega arith) in
      ap (λ t. round_of J t (λ rest. read_loop J fuel rest)) e
      ∙ round_delivers m (behind ms) (λ rest. read_loop J fuel rest) h.0.0 h.0.1
      ∙ ap (process J m.1) ih

  length-stream : (ms : List (Bytes × J.Value)) → length ms ≤ length (stream ms)
  length-stream [] = omega arith
  length-stream (m ∷ ms) =
      omega (arith, length-append (123 ∷ m.0) (10 ∷ stream ms), length-stream ms)

  -- Of JSON objects that the loop and the reader accept, that are not null, and that come with a
  -- newline behind each, `_read` processes every one, in order, and the buffer is empty afterwards.
  pub stream_delivered :
      (ms : List (Bytes × J.Value))
      → AreMessages ms
      → read_messages J (stream ms) ≡ all_delivered ms
  unfolding read_messages
  stream_delivered ms h =
      loop_delivers (suc (length (stream ms))) (stream ms) ms h (trim-stream ms h)
        (omega (arith, length-stream ms))
