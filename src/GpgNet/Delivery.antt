-- ===== src/GpgNet/Delivery.antt =====
-- Messages sent one after the other by `toBinary`, and read at the other end of the stream.
use ice_adapter.Base.{
  ◌≡◌, refl, ap, sym, ◌∙◌, Bytes, List, [], ◌∷◌, ◌++◌, Option, some, All, append_assoc, append-nil,
  concat, arith,
}
use ice_adapter.Json.{JsonLib, JsonLaws}
use ice_adapter.GpgNet.Message.{
  GpgNetMessage, to_binary, Parsed, parse, stop, deliver, parse_one, ◌>>?◌, waiting,
}
use ice_adapter.GpgNet.Reader.{read_header_length}
use ice_adapter.GpgNet.RoundTrip.{IsWireMessage, message_trip}
use ice_adapter.GpgNet.Stream.{parse_lem}
use ice_adapter.GpgNet.Handler.{on_read}
use ice_adapter.GpgNet.Fragments.{NonEmpty, on_read_whole}

module _ (J : JsonLib) where
  -- The bytes of several messages on one connection.
  abbrev pub to_binaries : List (GpgNetMessage J) → Option Bytes
  to_binaries [] = some []
  to_binaries (m ∷ ms) = to_binary J m >>? λ a. to_binaries ms >>? λ b. some (a ++ b)

  abbrev pub prepend : List (GpgNetMessage J) → Parsed J → Parsed J
  prepend ms p = record p { delivered = ms ++ p.delivered }

  pub parse-nil : parse J [] ≡ stop J [] waiting
  unfolding parse_one read_header_length
  parse-nil = parse_lem J []

module _ (J : JsonLib) (laws : JsonLaws J) where
  abbrev pub StreamTrip : List (GpgNetMessage J) → Bytes → Type 0
  StreamTrip ms bytes =
      (to_binaries J ms ≡ some bytes)
      × ((r : Bytes) → parse J (bytes ++ r) ≡ prepend J ms (parse J r))

  -- Messages that the protocol can carry are encoded one after the other, and `parse` delivers
  -- them in that order from any buffer that these bytes begin, and goes on with what follows.
  pub stream_trip :
      (ms : List (GpgNetMessage J))
      → All (IsWireMessage J laws) ms
      → (bytes : Bytes) × StreamTrip ms bytes
  unfolding deliver
  stream_trip [] h = ([], (refl, λ r. refl))
  stream_trip (m ∷ ms) (h, hs) =
      let (a, (ea, ra)) = message_trip J laws m h in
      let (b, (eb, rb)) = stream_trip ms hs in
      (
        a ++ b,
        (
          rw (ea, eb),
          λ r.
              rw (append_assoc a b r, parse_lem J (a ++ (b ++ r)), ra (b ++ r))
                (ap (deliver J m) (rb r)),
        ),
      )

  whole_stream :
      (ms : List (GpgNetMessage J)) (b bytes : Bytes)
      → b ≡ bytes ++ []
      → ((r : Bytes) → parse J (bytes ++ r) ≡ prepend J ms (parse J r))
      → parse J b ≡ prepend J ms (stop J [] waiting)
  whole_stream ms b bytes e trip = ap (parse J) e ∙ trip [] ∙ ap (prepend J ms) (parse-nil J)

  -- A connection that receives the encodings of messages, cut into fragments in any way, emits
  -- exactly these messages in order, and its buffer is empty afterwards.
  pub fragments_deliver :
      (ms : List (GpgNetMessage J)) (bytes f : Bytes) (fs : List Bytes)
      → All (IsWireMessage J laws) ms
      → to_binaries J ms ≡ some bytes
      → NonEmpty f
      → All NonEmpty fs
      → f ++ concat fs ≡ bytes
      → ((on_read J [] (f ∷ fs)).delivered ≡ ms) × ((on_read J [] (f ∷ fs)).buffer ≡ [])
  unfolding stop
  fragments_deliver ms bytes f fs h e n ns cut =
      let (bytes', (e', trip)) = stream_trip ms h in
      let agree : bytes ≡ bytes' = ground arith in
      let whole =
        whole_stream ms (f ++ concat fs) bytes' (cut ∙ agree ∙ sym (append-nil bytes')) trip in
      let same = on_read_whole J [] f fs n ns (λ t. cc (ap (λ p. p.halt) whole)) in
      (same.0 ∙ ap (λ p. p.delivered) whole ∙ append-nil ms, same.1 ∙ ap (λ p. p.buffer) whole)
