-- ===== src/Protocol/Ends.antt =====
-- legacy_testclient/JsonRpcProtocol.cpp `processBuffer`: its loop ends.
use ice_adapter.Base.{
  ℕ, zero, suc, ◌≡◌, refl, ◌<◌, Bytes, Bool, true, false, not, [], ◌∷◌, length, drop, arith,
  length-drop, ◌==◌, if◌then◌else◌, take,
}
use ice_adapter.Json.{JsonLib}
use ice_adapter.Protocol.{Endpoint}
use ice_adapter.Protocol.Reading.{on_message, Processed, stop, round, loop, process_buffer}
use ice_adapter.Rpc.Framing.{Scan, unfinished, unbalanced, closed, scan}
use ice_adapter.Rpc.Split.{scan-positive, scan-append}
use ice_adapter.Protocol.Trimmed.{trimmed, trimmed-shorter}

module _ (J : JsonLib) (S K : Type 0) where
  finishes-if :
      (b : Bool) (x y : Processed J S K)
      → x.finished ≡ true
      → y.finished ≡ true
      → (if b then x else y).finished ≡ true
  finishes-if true x y h k = h
  finishes-if false x y h k = k

  round_finishes :
      (socket : ℕ) (b : Bytes) (s : Scan) (later : Bytes → Endpoint J S K → Processed J S K)
      (p : Endpoint J S K)
      → scan false 0 b ≡ s
      → ((rest : Bytes) (q : Endpoint J S K)
          → length rest < length b
          → (later rest q).finished ≡ true)
      → (round J S K socket b s later p).finished ≡ true
  round_finishes socket b unfinished later p e h = refl
  round_finishes socket b unbalanced later p e h = refl
  round_finishes socket b (closed n) later p e h =
      let rest = trimmed (drop n b) in
      let q = on_message J S K socket (J.read (take n b)).1 p in
      finishes-if (not (J.read (take n b)).0) (stop J S K b p) _ refl (
        finishes-if q.has_ended (stop J S K [] q) _ refl (
          h rest q (
            omega (
              arith,
              scan-positive false 0 b n e,
              (scan-append false 0 b [] n e).1,
              trimmed-shorter (drop n b),
              length-drop n b,
            ))))

  loop_finishes :
      (fuel socket : ℕ) (b : Bytes) (p : Endpoint J S K)
      → length b < fuel
      → (loop J S K fuel socket b p).finished ≡ true
  unfolding loop
  loop_finishes zero socket b p h = absurd (omega (arith, h))
  loop_finishes (suc fuel) socket b p h =
      round_finishes socket b (scan false 0 b) (λ rest q. loop J S K fuel socket rest q) p refl
        (λ rest q l. loop_finishes fuel socket rest q (omega (arith, h, l)))

  -- The loop of `processBuffer` ends on every buffer, whatever callbacks are registered.
  pub process_buffer_finishes :
      (socket : ℕ) (b : Bytes) (p : Endpoint J S K)
      → (process_buffer J S K socket b p).finished ≡ true
  unfolding process_buffer
  process_buffer_finishes socket [] p = refl
  process_buffer_finishes socket (c ∷ cs) p =
      finishes-if (c == 123) (loop J S K (suc (length (c ∷ cs))) socket (c ∷ cs) p)
        (stop J S K [] p) (loop_finishes (suc (length (c ∷ cs))) socket (c ∷ cs) p (omega arith))
        refl
