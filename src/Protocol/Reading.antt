-- ===== src/Protocol/Reading.antt =====
-- legacy_testclient/JsonRpcProtocol.cpp `processBuffer`, and the slot of
-- legacy_testclient/JsonRpcQTcpSocket.cpp that calls it.
use ice_adapter.Base.{
  ℕ, zero, suc, ℤ, Bytes, Bool, true, false, not, ◌||◌, [], ◌∷◌, ◌++◌, Option, none, some, codes,
  if◌then◌else◌, ◌==◌, take, drop, length,
}
use ice_adapter.Base.IntMap.{find, erase}
use ice_adapter.Json.{JsonLib}
use ice_adapter.Protocol.{Endpoint, field, answer, process_request}
use ice_adapter.Rpc.Framing.{Scan, unfinished, unbalanced, closed, scan}
use ice_adapter.Protocol.Trimmed.{trimmed}

module _ (J : JsonLib) (S K : Type 0) where
  open J use {Value, null, read, write, is_member, is_int, as_int}

  -- Notifications get no response.
  abbrev pub respond : Value → ℕ → Value × Endpoint J S K → Endpoint J S K
  respond request socket (response, p) =
      if is_member request (codes "id")
      then record p { sent = p.sent ++ ((socket, write response) ∷ []) }
      else p

  abbrev pub resolve : Value → ℤ → Option K → Endpoint J S K → Endpoint J S K
  resolve message id none p = p
  resolve message id (some k) p =
      record (answer J S K (some k) (field J S K message (codes "result"))
        (field J S K message (codes "error")) p) { current_requests = erase id p.current_requests }

  -- `asInt` of an integer does not throw.
  abbrev pub resolve_id : Value → Option ℤ → Endpoint J S K → Endpoint J S K
  resolve_id message none p = record p { has_ended = true }
  resolve_id message (some id) p = resolve message id (find id p.current_requests) p

  unfoldable pub on_message : ℕ → Value → Endpoint J S K → Endpoint J S K
  unfolding process_request
  on_message socket message p =
      if is_member message (codes "method")
      then respond message socket (process_request J S K message socket p)
      else if not (is_member message (codes "error") || is_member message (codes "result"))
      then p
      else if not (is_member message (codes "id"))
      then p
      else if is_int (field J S K message (codes "id"))
      then resolve_id message (as_int (field J S K message (codes "id"))) p
      else p

  -- The buffer that is left, whether the loop has finished, and what the messages did.
  pub record Processed : Type 0 where
    pub buffer : Bytes
    pub finished : Bool
    pub endpoint : Endpoint J S K

  abbrev pub stop : Bytes → Endpoint J S K → Processed
  stop b p = record { buffer = b; finished = true; endpoint = p }

  -- The loop until a message is complete, and what is done with it. After an exception nothing is left to
  -- do.
  abbrev pub round :
      ℕ → Bytes → Scan → (Bytes → Endpoint J S K → Processed) → Endpoint J S K → Processed
  round socket b unfinished later p = stop b p
  round socket b unbalanced later p = stop [] p
  round socket b (closed n) later p =
      let (good, v) = read (take n b) in
      if not good
      then stop b p
      else (let q = on_message socket v p in
          if q.has_ended then stop [] q else later (trimmed (drop n b)) q)

  unfoldable pub loop : ℕ → ℕ → Bytes → Endpoint J S K → Processed
  unfolding scan on_message trimmed
  loop zero socket b p = record { buffer = b; finished = false; endpoint = p }
  loop (suc fuel) socket b p =
      let later = λ (rest : Bytes) (q : Endpoint J S K). loop fuel socket rest q in
      round socket b (scan false 0 b) later p

  -- Each round takes a byte at least.
  unfoldable pub process_buffer : ℕ → Bytes → Endpoint J S K → Processed
  unfolding loop
  process_buffer socket [] p = stop [] p
  process_buffer socket (c ∷ cs) p =
      if c == 123 then loop (suc (length (c ∷ cs))) socket (c ∷ cs) p else stop [] p

  -- What `readyRead` of the socket does with the bytes that are there.
  unfoldable pub on_ready_read : ℕ → Bytes → Processed → Processed
  unfolding process_buffer trimmed
  on_ready_read socket bytes r = process_buffer socket (trimmed (r.buffer ++ bytes)) r.endpoint
