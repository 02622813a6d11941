-- ===== src/GpgNet/Message.antt =====
-- GPGNetMessage.cpp: `toBinary` and `parse`.
use ice_adapter.Base.{
  ℕ, zero, suc, ℤ, pos, negsuc, Bytes, List, [], ◌∷◌, ◌++◌, Option, none, some, length, int32_of,
  put_int32, ◌==◌, if◌then◌else◌,
}
use ice_adapter.Json.{JsonLib, ValueType, int_value, uint_value, string_value, boolean_value}
use ice_adapter.GpgNet.Reader.{
  ok, incomplete, unsupported, length_error, Reader, pure, ◌>>=◌, read_byte, read_int32,
  read_header_length, read_string,
}

-- `none`: an exception of jsoncpp leaves the function.
infixl 5 ◌>>?◌
abbrev pub ◌>>?◌ {ℓ κ} : {A : Type ℓ} {B : Type κ} → Option A → (A → Option B) → Option B
none >>? f = none
some a >>? f = f a

module _ (J : JsonLib) where
  open J use {Value, of_int, of_string, value_type, as_int, as_string}

  pub record GpgNetMessage : Type 0 where
    pub header : Bytes
    pub chunks : List Value

  -- The `switch` on the chunk's type; the default only logs.
  abbrev pub put_typed : ValueType → Value → Option Bytes
  put_typed int_value v = as_int v >>? λ value. some (0 ∷ put_int32 value)
  put_typed uint_value v = as_int v >>? λ value. some (0 ∷ put_int32 value)
  put_typed boolean_value v = as_int v >>? λ value. some (0 ∷ put_int32 value)
  put_typed string_value v = as_string v >>? λ s. some (1 ∷ (put_int32 (int32_of (length s)) ++ s))
  put_typed _ v = some []

  unfoldable pub put_chunk : Value → Option Bytes
  put_chunk v = put_typed (value_type v) v

  unfoldable pub put_chunks : List Value → Option Bytes
  put_chunks [] = some []
  put_chunks (v ∷ vs) = put_chunk v >>? λ bytes. put_chunks vs >>? λ rest. some (bytes ++ rest)

  -- Sizes are narrowed from `size_t` to `int32_t`.
  unfoldable pub to_binary : GpgNetMessage → Option Bytes
  to_binary m = put_chunks m.chunks >>? λ body. some (
      put_int32 (int32_of (length m.header))
      ++ (m.header ++ (put_int32 (int32_of (length m.chunks)) ++ body)))

  -- A chunk of type 0 keeps its value in the length field.
  unfoldable pub chunk_value : ℕ → ℤ → Reader Value
  chunk_value type len =
      if type == 0
      then pure (of_int len)
      else if type == 1
      then (do s ← read_string len; pure (of_string s))
      else λ r. unsupported

  unfoldable pub read_chunk : Reader Value
  read_chunk = do type ← read_byte; len ← read_int32; chunk_value type len

  -- The loop over `chunkIndex`, by the rounds left; a `return` inside drops the message.
  unfoldable pub read_chunks : ℕ → Reader (List Value)
  read_chunks zero = pure []
  read_chunks (suc n) = do v ← read_chunk; vs ← read_chunks n; pure (v ∷ vs)

  -- `chunks.resize(chunkCount)` throws if the count is negative.
  unfoldable pub read_counted : ℤ → Reader (List Value)
  read_counted (pos n) = read_chunks n
  read_counted (negsuc n) = λ r. length_error

  -- One round of the `while` loop, up to the call of `cb`.
  unfoldable pub parse_one : Reader GpgNetMessage
  parse_one = do
    header_length ← read_header_length
    header ← read_string header_length
    chunk_count ← read_int32
    chunks ← read_counted chunk_count
    pure (record { header = header; chunks = chunks })

  -- How `parse` ends. `out_of_fuel` is no outcome of the program.
  pub data Halt : Type 0 where
    waiting rejected threw out_of_fuel : Halt

  -- The messages handed to `cb`, in order, and what `msgBuffer` holds at the end.
  pub record Parsed : Type 0 where
    pub delivered : List GpgNetMessage
    pub buffer : Bytes
    pub halt : Halt

  unfoldable pub stop : Bytes → Halt → Parsed
  stop b h = record { delivered = []; buffer = b; halt = h }

  unfoldable pub deliver : GpgNetMessage → Parsed → Parsed
  deliver m p = record p { delivered = m ∷ p.delivered }

  -- `while(true)`: a round calls `cb` and erases what it read, or leaves the buffer as it was.
  unfoldable pub parse_loop : ℕ → Bytes → Parsed
  parse_loop zero b = stop b out_of_fuel
  parse_loop (suc fuel) b = elim (parse_one b) [
    | ok (m, rest) ↦ deliver m (parse_loop fuel rest)
    | incomplete ↦ stop b waiting
    | unsupported ↦ stop b rejected
    | length_error ↦ stop b threw
  ]

  -- A message takes a byte at least, so one round more than the bytes is enough.
  unfoldable pub parse : Bytes → Parsed
  parse b = parse_loop (suc (length b)) b
