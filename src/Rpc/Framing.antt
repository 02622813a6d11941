-- ===== src/Rpc/Framing.antt =====
-- JsonRpc.cpp: `_parseJsonFromMsgBuffer`, and the loop of `_read` that calls it.
use ice_adapter.Base.{
  ℕ, zero, suc, Bytes, Bool, true, false, List, [], ◌∷◌, ◌==◌, if◌then◌else◌, take, drop, length,
}
use ice_adapter.Json.{JsonLib, ValueType, null_value}
use ice_adapter.Rpc.Trim.{trim_whitespace}

-- How the `for` loop ends: it runs to the end of the buffer, it meets a brace too many, or the object
-- is closed by the byte at a position; `closed n` counts that byte.
pub data Scan : Type 0 where
  unfinished unbalanced : Scan
  closed : ℕ → Scan

abbrev pub one_more : Scan → Scan
one_more unfinished = unfinished
one_more unbalanced = unbalanced
one_more (closed n) = closed (suc n)

-- What the loop's body does with a byte: it goes on with `inString` and `braceNestingLevel`, or ends
-- with the level below 0, or at 0.
pub data Seen : Type 0 where
  go_on : Bool → ℕ → Seen
  below_zero at_zero : Seen

abbrev pub close_brace : ℕ → Seen
close_brace zero = below_zero
close_brace (suc zero) = at_zero
close_brace (suc (suc level)) = go_on false (suc level)

-- A byte outside strings.
abbrev pub see_outside : ℕ → ℕ → Seen
see_outside level c =
    if c == 123
    then go_on false (suc level)
    else if c == 125
    then close_brace level
    else go_on false level

-- A quotation mark enters or leaves a string.
unfoldable pub see : Bool → ℕ → ℕ → Seen
see in_string level c =
    if c == 34
    then if in_string then go_on false level else go_on true level
    else if in_string
    then go_on true level
    else see_outside level c

unfoldable pub scan : Bool → ℕ → Bytes → Scan
unfolding see
scan in_string level [] = unfinished
scan in_string level (c ∷ cs) = elim (see in_string level c) [
  | go_on s l ↦ one_more (scan s l cs)
  | below_zero ↦ unbalanced
  | at_zero ↦ closed 1
]

module _ (J : JsonLib) where
  open J use {Value, null, read, value_type}

  -- The value returned and the new `msgBuffer`.
  abbrev pub take_message : Bytes → Scan → Value × Bytes
  take_message b unfinished = (null, b)
  take_message b unbalanced = (null, [])
  take_message b (closed n) =
      let (good, v) = read (take n b) in if good then (v, drop n b) else (v, [])

  unfoldable pub parse_json_from_msg_buffer : Bytes → Value × Bytes
  unfolding scan
  parse_json_from_msg_buffer [] = (null, [])
  parse_json_from_msg_buffer (c ∷ cs) =
      if c == 123 then take_message (c ∷ cs) (scan false 0 (c ∷ cs)) else (null, [])

  abbrev is_null_type : ValueType → Bool
  is_null_type null_value = true
  is_null_type _ = false

  unfoldable pub is_null : Value → Bool
  is_null v = is_null_type (value_type v)

  -- The messages that the second loop of `_read` hands to `_processJsonMessage`, in order, and what is
  -- left in the buffer; `finished` is false if the fuel ran out, which is no outcome of the program.
  pub record Messages : Type 0 where
    pub messages : List Value
    pub buffer : Bytes
    pub finished : Bool

  abbrev pub process : Value → Messages → Messages
  process v p = record p { messages = v ∷ p.messages }

  -- One round on a buffer that is trimmed, with the rounds that follow.
  abbrev pub round_of : Bytes → (Bytes → Messages) → Messages
  round_of [] later = record { messages = []; buffer = []; finished = true }
  round_of (c ∷ cs) later =
      let (v, rest) = parse_json_from_msg_buffer (c ∷ cs) in
      let p = later rest in
      if is_null v then record { messages = []; buffer = rest; finished = true } else process v p

  -- The `while` loop.
  unfoldable pub read_loop : ℕ → Bytes → Messages
  unfolding parse_json_from_msg_buffer trim_whitespace is_null
  read_loop zero b = record { messages = []; buffer = b; finished = false }
  read_loop (suc fuel) b = round_of (trim_whitespace b) (λ rest. read_loop fuel rest)

  -- A round that goes on takes a byte at least, so one round more than the bytes is enough.
  unfoldable pub read_messages : Bytes → Messages
  unfolding read_loop
  read_messages b = read_loop (suc (length b)) b
