-- ===== src/GpgNet/Tests.antt =====
-- The theorems on the game's protocol at concrete messages.
use ice_adapter.Base.{
  ◌≡◌, List, refl, pos, negsuc, Bytes, [], ◌∷◌, ◌++◌, some, codes, All, arith, inl, inr, concat,
  drop, ◌≢◌, int32_of, put_int32, get_int32, pattern_of, IsByte,
}
use ice_adapter.Json.Sample.{sample_lib, sample_laws, int, text, nothing}
use ice_adapter.GpgNet.Reader.{read_byte, read_int32, read_header_length, read_string, ok}
use ice_adapter.GpgNet.Message.{
  GpgNetMessage, stop, rejected, threw, waiting, parse, parse_one, parse_loop, to_binary,
  put_chunks, put_chunk, read_counted, read_chunks, read_chunk, chunk_value,
}
use ice_adapter.GpgNet.RoundTrip.{IsWireMessage}
use ice_adapter.GpgNet.Handler.{on_read}
use ice_adapter.GpgNet.Members.{IsSorted}
use ice_adapter.GpgNet.Server.Refines.{
  ServerEvent, connects, disconnects, removes, broadcasts, serve, seat_of, seat_run, serve_refines,
}
use ice_adapter.GpgNet.Fragments.{
  SameEffect, parse-Stopped, Stopped, rejected_forever, on_read_whole,
}
use ice_adapter.GpgNet.Delivery.{to_binaries, fragments_deliver}
use ice_adapter.GpgNet.Sound.{Decoded, parse_one_sound}
use ice_adapter.GpgNet.Skipped.{skipped_chunk_starves}
use ice_adapter.GpgNet.Server.{GpgNetServer}

abbrev state_message : GpgNetMessage sample_lib
state_message = record { header = codes "GameState"; chunks = text (codes "Lobby") ∷ [] }

abbrev pub numbers_message : GpgNetMessage sample_lib
numbers_message = record { header = codes "N"; chunks = int (pos 7) ∷ int (negsuc 0) ∷ [] }

abbrev state_bytes : Bytes
state_bytes =
    9 ∷ 0 ∷ 0 ∷ 0 ∷ []
    ++ codes "GameState"
    ++ (1 ∷ 0 ∷ 0 ∷ 0 ∷ 1 ∷ 5 ∷ 0 ∷ 0 ∷ 0 ∷ [])
    ++ codes "Lobby"

abbrev pub numbers_bytes : Bytes
numbers_bytes =
    1 ∷ 0 ∷ 0 ∷ 0 ∷ 78 ∷ 2 ∷ 0 ∷ 0 ∷ 0 ∷ 0 ∷ 7 ∷ 0 ∷ 0 ∷ 0 ∷ 0 ∷ 255 ∷ 255 ∷ 255 ∷ 255 ∷ []

-- One value of each kind that `toBinary` leaves out, with one that it writes.
abbrev skipping_message : GpgNetMessage sample_lib
skipping_message = record { header = codes "N"; chunks = nothing ∷ int (pos 7) ∷ [] }

-- A chunk of type 2.
abbrev unknown_bytes : Bytes
unknown_bytes = 1 ∷ 0 ∷ 0 ∷ 0 ∷ 78 ∷ 1 ∷ 0 ∷ 0 ∷ 0 ∷ 2 ∷ 7 ∷ 0 ∷ 0 ∷ 0 ∷ []

abbrev pub two_games : GpgNetServer
two_games = record { connected = 3 ∷ 8 ∷ []; posted = []; written = [] }

state_message-wire : IsWireMessage sample_lib sample_laws state_message
state_message-wire = (omega arith, omega arith, (inr (codes "Lobby", omega arith, refl), tt))

pub numbers_message-wire : IsWireMessage sample_lib sample_laws numbers_message
numbers_message-wire = (
  omega arith,
  omega arith,
  (inl (pos 7, omega arith, refl), (inl (negsuc 0, omega arith, refl), tt)),
)

both_encoded :
    to_binaries sample_lib (numbers_message ∷ state_message ∷ [])
    ≡ some (numbers_bytes ++ state_bytes)
unfolding to_binary put_chunks put_chunk put_int32 int32_of pattern_of
both_encoded = refl

numbers_parsed : parse_one sample_lib numbers_bytes ≡ ok (numbers_message, [])
unfolding parse_one read_header_length read_string read_int32 read_counted read_chunks read_chunk
    read_byte chunk_value get_int32 int32_of
numbers_parsed = refl

unknown_rejected : (parse sample_lib unknown_bytes).halt ≡ rejected
unfolding parse parse_loop parse_one read_header_length read_string read_int32 read_counted
    read_chunks read_chunk read_byte chunk_value get_int32 int32_of stop
unknown_rejected = refl

numbers_bytes-IsByte : All IsByte numbers_bytes
numbers_bytes-IsByte = ground arith

not_threw : (parse sample_lib ([] ++ (unknown_bytes ++ concat (numbers_bytes ∷ [])))).halt ≢ threw
unfolding parse parse_loop parse_one read_header_length read_string read_int32 read_counted
    read_chunks read_chunk read_byte chunk_value get_int32 int32_of stop
not_threw e = ground arith

on_read_whole_example :
    SameEffect sample_lib
      (on_read sample_lib [] (unknown_bytes ∷ numbers_bytes ∷ []))
      (parse sample_lib ([] ++ (unknown_bytes ++ concat (numbers_bytes ∷ []))))
on_read_whole_example =
    on_read_whole sample_lib [] unknown_bytes (numbers_bytes ∷ []) (omega arith) (omega arith, tt)
      not_threw

fragments_deliver_example :
    ((on_read sample_lib [] ((1 ∷ 0 ∷ []) ∷ drop 2 numbers_bytes ∷ state_bytes ∷ [])).delivered
      ≡ numbers_message ∷ state_message ∷ [])
    × ((on_read sample_lib [] ((1 ∷ 0 ∷ []) ∷ drop 2 numbers_bytes ∷ state_bytes ∷ [])).buffer ≡ [])
fragments_deliver_example =
    fragments_deliver sample_lib sample_laws (numbers_message ∷ state_message ∷ [])
      (numbers_bytes ++ state_bytes) (1 ∷ 0 ∷ []) (drop 2 numbers_bytes ∷ state_bytes ∷ [])
      (numbers_message-wire, (state_message-wire, tt)) both_encoded (omega arith)
      (omega arith, (omega arith, tt)) refl

parse_one_sound_example : Decoded sample_lib sample_laws numbers_bytes [] numbers_message
parse_one_sound_example =
    parse_one_sound sample_lib sample_laws numbers_bytes [] numbers_message numbers_bytes-IsByte
      numbers_parsed

parse-Stopped_example : Stopped sample_lib (parse sample_lib unknown_bytes)
parse-Stopped_example = parse-Stopped sample_lib unknown_bytes

rejected_forever_example :
    parse sample_lib ((parse sample_lib unknown_bytes).buffer ++ numbers_bytes)
    ≡ stop sample_lib ((parse sample_lib unknown_bytes).buffer ++ numbers_bytes) rejected
rejected_forever_example = rejected_forever sample_lib unknown_bytes numbers_bytes unknown_rejected

skipped_chunk_starves_example :
    (body : Bytes) × (put_chunks sample_lib (int (pos 7) ∷ []) ≡ some body)
    × (bytes : Bytes) × (bytes ≡ put_int32 (pos 1) ++ (codes "N" ++ (put_int32 (pos 2) ++ body)))
    × (to_binary sample_lib skipping_message ≡ some bytes)
    × (parse sample_lib bytes ≡ stop sample_lib bytes waiting)
skipped_chunk_starves_example =
    skipped_chunk_starves sample_lib sample_laws skipping_message (omega arith) (omega arith)
      (inl refl, (inr (inl (pos 7, omega arith, refl)), tt)) (omega arith)

-- A game connects, gets a message, and leaves; the second message comes before the server removes it,
-- and the third one after that.
abbrev server_events : List (ServerEvent sample_lib)
server_events =
    connects 4
    ∷ (broadcasts numbers_message
        ∷ (disconnects 4
            ∷ (broadcasts numbers_message ∷ (removes 4 ∷ (broadcasts numbers_message ∷ [])))))

abbrev empty_server : GpgNetServer
empty_server = record { connected = []; posted = []; written = [] }

serve_refines_example :
    (seat_of sample_lib 4 (serve sample_lib server_events empty_server)
      ≡ seat_run sample_lib 4 server_events (seat_of sample_lib 4 empty_server))
    × IsSorted (serve sample_lib server_events empty_server).connected
serve_refines_example = serve_refines sample_lib 4 server_events empty_server tt
