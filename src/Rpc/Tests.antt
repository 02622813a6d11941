-- ===== src/Rpc/Tests.antt =====
-- The theorems on the client's byte stream at concrete texts.
use ice_adapter.Base.{◌≡◌, refl, Bytes, true, List, [], ◌∷◌}
use ice_adapter.Json.Sample.{Sample, sample_lib, sample_laws, text}
use ice_adapter.Rpc.Framing.{scan, see, is_null, read_messages}
use ice_adapter.Rpc.Split.{read_messages_finishes}
use ice_adapter.Rpc.Stream.{AreMessages, stream, all_delivered, stream_delivered}

-- `{"a":"}"}` and `{"b":{}}`, without their first braces.
abbrev pub first_text : Bytes
first_text = 34 ∷ 97 ∷ 34 ∷ 58 ∷ 34 ∷ 125 ∷ 34 ∷ 125 ∷ []

abbrev pub second_text : Bytes
second_text = 34 ∷ 98 ∷ 34 ∷ 58 ∷ 123 ∷ 125 ∷ 125 ∷ []

abbrev pub two_messages : List (Bytes × Sample)
two_messages = (first_text, text (123 ∷ first_text)) ∷ (second_text, text (123 ∷ second_text)) ∷ []

pub two_messages-AreMessages : AreMessages sample_lib sample_laws two_messages
unfolding scan see is_null
two_messages-AreMessages = (((refl, refl), refl), (((refl, refl), refl), tt))

read_messages_finishes_example : (read_messages sample_lib (123 ∷ 34 ∷ [])).finished ≡ true
read_messages_finishes_example = read_messages_finishes sample_lib sample_laws (123 ∷ 34 ∷ [])

stream_delivered_example :
    read_messages sample_lib (stream sample_lib sample_laws two_messages)
    ≡ all_delivered sample_lib sample_laws two_messages
stream_delivered_example =
    stream_delivered sample_lib sample_laws two_messages two_messages-AreMessages
