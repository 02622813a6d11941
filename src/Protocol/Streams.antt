-- ===== src/Protocol/Streams.antt =====
-- legacy_testclient/JsonRpcProtocol.cpp `processBuffer` on messages that stand one after the other.
use ice_adapter.Base.{
  ℕ, zero, suc, ◌≡◌, refl, ap, ◌∙◌, ◌<◌, ◌≤◌, Bytes, Bool, true, false, not, List, [], ◌∷◌, ◌++◌,
  length, drop, arith, if◌then◌else◌, take-length-append, drop-length-append, length-append,
}
use ice_adapter.Json.{JsonLib, JsonLaws}
use ice_adapter.Protocol.{Endpoint}
use ice_adapter.Protocol.Reading.{
  on_message, Processed, stop, round, loop, process_buffer, on_ready_read,
}
use ice_adapter.Rpc.Framing.{scan}
use ice_adapter.Rpc.Split.{scan-append, IsMessage}
use ice_adapter.Rpc.Stream.{AreMessages, stream, behind, joined}
use ice_adapter.Protocol.Trimmed.{trimmed, trimmed-behind, trimmed-stream}

module _ (J : JsonLib) (laws : JsonLaws J) (S K : Type 0) (socket : ℕ) where
  -- The messages, one after the other.
  abbrev pub on_all : List (Bytes × J.Value) → Endpoint J S K → Endpoint J S K
  on_all [] p = p
  on_all (m ∷ ms) p = on_all ms (on_message J S K socket m.1 p)

  -- No message makes an exception leave the slot.
  abbrev pub NeverEnds : List (Bytes × J.Value) → Endpoint J S K → Type 0
  NeverEnds [] p = Unit {0}
  NeverEnds (m ∷ ms) p =
      ((on_message J S K socket m.1 p).has_ended ≡ false)
      × NeverEnds ms (on_message J S K socket m.1 p)

  round_delivers :
      (m : Bytes × J.Value) (rest : Bytes) (later : Bytes → Endpoint J S K → Processed J S K)
      (p : Endpoint J S K)
      → IsMessage J laws m.0 m.1
      → (on_message J S K socket m.1 p).has_ended ≡ false
      → round J S K socket ((123 ∷ m.0) ++ rest) (scan false 0 ((123 ∷ m.0) ++ rest)) later p
        ≡ later (trimmed rest) (on_message J S K socket m.1 p)
  round_delivers m rest later p (ends, reads) goes_on =
      let b = (123 ∷ m.0) ++ rest in
      let n = length (123 ∷ m.0) in
      let next = λ (r : Bool × J.Value) (bytes : Bytes).
        (let q = on_message J S K socket r.1 p in
          let x : Processed J S K =
            (if q.has_ended then stop J S K [] q else later (trimmed bytes) q) in
          let y : Processed J S K = (if not r.0 then stop J S K b p else x) in y) in
      ap (λ s. round J S K socket b s later p) (scan-append false 0 (123 ∷ m.0) rest n ends).0
      ∙ ap (λ t. next (J.read t) (drop n b)) (take-length-append (123 ∷ m.0) rest)
      ∙ ap (λ r. next r (drop n b)) reads
      ∙ ap (next (true, m.1)) (drop-length-append (123 ∷ m.0) rest)
      ∙ ap
          (λ x.
            if x
            then stop J S K [] (on_message J S K socket m.1 p)
            else later (trimmed rest) (on_message J S K socket m.1 p))
          goes_on

  loop_delivers :
      (fuel : ℕ) (ms : List (Bytes × J.Value)) (p : Endpoint J S K)
      → AreMessages J laws ms
      → NeverEnds ms p
      → length ms < fuel
      → loop J S K fuel socket (joined J laws ms) p ≡ stop J S K [] (on_all ms p)
  unfolding loop scan
  loop_delivers zero ms p h goes_on k = absurd (omega (arith, k))
  loop_delivers (suc fuel) [] p h goes_on k = refl
  loop_delivers (suc fuel) (m ∷ ms) p h goes_on k =
      let q = on_message J S K socket m.1 p in
      round_delivers m (behind J laws ms) (λ rest q. loop J S K fuel socket rest q) p h.0.0
        goes_on.0
      ∙ ap (λ rest. loop J S K fuel socket rest q) (trimmed-behind J laws ms h.1)
      ∙ loop_delivers fuel ms q h.1 goes_on.1 (omega (arith, k))

  length-behind : (ms : List (Bytes × J.Value)) → length ms ≤ length (behind J laws ms)
  length-behind [] = omega arith
  length-behind (m ∷ ms) = omega (arith, length-append m.0 (behind J laws ms), length-behind ms)

  joined_processed :
      (ms : List (Bytes × J.Value)) (p : Endpoint J S K)
      → AreMessages J laws ms
      → NeverEnds ms p
      → process_buffer J S K socket (joined J laws ms) p ≡ stop J S K [] (on_all ms p)
  unfolding process_buffer
  joined_processed [] p h goes_on = refl
  joined_processed (m ∷ ms) p h goes_on =
      loop_delivers (suc (length (joined J laws (m ∷ ms)))) (m ∷ ms) p h goes_on
        (omega (arith, length-append m.0 (behind J laws ms), length-behind ms))

  -- Of JSON objects that the reader accepts, that come with a newline behind each, and that let no
  -- exception out, `onReadyRead` processes every one, in order, and the buffer is empty afterwards. The
  -- first bytes of them may be in the buffer already.
  pub all_processed :
      (ms : List (Bytes × J.Value)) (bytes : Bytes) (q : Processed J S K)
      → AreMessages J laws ms
      → NeverEnds ms q.endpoint
      → q.buffer ++ bytes ≡ stream J laws ms
      → on_ready_read J S K socket bytes q ≡ stop J S K [] (on_all ms q.endpoint)
  unfolding on_ready_read
  all_processed ms bytes q h goes_on arrived =
      ap (λ b. process_buffer J S K socket (trimmed b) q.endpoint) arrived
      ∙ ap (λ b. process_buffer J S K socket b q.endpoint) (trimmed-stream J laws ms h)
      ∙ joined_processed ms q.endpoint h goes_on
