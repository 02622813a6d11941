-- ===== src/Rpc/Delivered.antt =====
-- JsonRpc.cpp and JsonRpcServer.cpp together: what each client of the server gets for a call.
use ice_adapter.Base.{
  ℕ, ◌≡◌, refl, sym, ap, ◌∙◌, subst, inl, inr, Bytes, Bool, true, false, not, ◌&&◌, List, [], ◌∷◌,
  ◌++◌, none, some, append-nil, append_assoc, All, Bool-cases, ◌==◌, if◌then◌else◌,
}
use ice_adapter.Json.{JsonLib, JsonLaws, ObjectLaws, is_array}
use ice_adapter.GpgNet.Members.{contains, IsSorted, received_by}
use ice_adapter.Rpc.Node.{Service, Called, returned, Node, is_empty, request_of, send_request}
use ice_adapter.Rpc.Dispatch.{send_all, params_of, process_json_message}
use ice_adapter.Rpc.Responses.{CarriesId, Replies}
use ice_adapter.Rpc.Answers.{IsCall, replied, request_answered}
use ice_adapter.Rpc.Server.{JsonRpcServer, Net, send_message, server_link}
use ice_adapter.Rpc.Sends.{NeverZero}
use ice_adapter.Rpc.Copies.{copy, IsReliable, received_by-send_message}

if_same {ℓ} : {A : Type ℓ} → (b : Bool) (x : A) → (if b then x else x) ≡ x
if_same true x = refl
if_same false x = refl

module _ (J : JsonLib) (net : Net) (S : Service J) (K : Type 0) where
  open J use {Value, write, value_type}

  -- A request that `sendRequest` sends, and does not refuse.
  abbrev pub is_sendable : Bytes → Value → Bool
  is_sendable method params = is_array (value_type params) && not (is_empty method)

  abbrev pub notice : Bytes → Value → List Bytes
  notice method params =
      copy (write (request_of J (server_link net) S K method params)) (is_sendable method params)

  -- The texts of the requests that a callback sends.
  abbrev pub notices : List (Bytes × Value) → List Bytes
  notices [] = []
  notices ((method, params) ∷ rs) = notice method params ++ notices rs

  abbrev sent_on : Bool → Bytes → JsonRpcServer → JsonRpcServer
  sent_on true message s = (send_message net message none s).1
  sent_on false message s = s

  send_request_link :
      (method : Bytes) (params : Value) (n : Node J (server_link net) S K)
      → (send_request J (server_link net) S K method params none none n).link
        ≡ sent_on
            (is_sendable method params)
            (write (request_of J (server_link net) S K method params))
            n.link
  unfolding send_request
  send_request_link method params n = elim (Bool-cases (is_array (value_type params))) [
    | inr a ↦ rw a refl
    | inl a ↦ elim (Bool-cases (is_empty method)) [
      | inl e ↦ rw (a, e) refl
      | inr e ↦
          let text = write (request_of J (server_link net) S K method params) in
          let l = (send_message net text none n.link).1 in
          rw (a, e)
            (ap (λ m. m.link)
              (if_same (send_message net text none n.link).0 (record n { link = l })))
    ]
  ]

  abbrev GetsMore : ℕ → JsonRpcServer → JsonRpcServer → List Bytes → Type 0
  GetsMore h s t texts =
      (received_by h t.written
        ≡ received_by h s.written ++ (if contains h s.connected_sockets then texts else []))
      × (t.connected_sockets ≡ s.connected_sockets)

  if_none : (xs : List Bytes) (b : Bool) → xs ≡ xs ++ (if b then [] else [])
  if_none xs true = sym (append-nil xs)
  if_none xs false = sym (append-nil xs)

  copy-meant : (text : Bytes) (b : Bool) → copy text (b && true) ≡ (if b then text ∷ [] else [])
  copy-meant text true = refl
  copy-meant text false = refl

  sent_on-GetsMore :
      (h : ℕ) (b : Bool) (text : Bytes) (s : JsonRpcServer)
      → IsReliable net s
      → GetsMore h s (sent_on b text s) (copy text b)
  sent_on-GetsMore h true text s o =
      let (got, same) = received_by-send_message net text none h s o in
      (
        got
            ∙ ap (λ l. received_by h s.written ++ l)
                (copy-meant text (contains h s.connected_sockets)),
        same,
      )
  sent_on-GetsMore h false text s o =
      (if_none (received_by h s.written) (contains h s.connected_sockets), refl)

  if-append :
      (b : Bool) (xs ys zs : List Bytes)
      → (xs ++ (if b then ys else [])) ++ (if b then zs else [])
        ≡ xs ++ (if b then ys ++ zs else [])
  if-append true xs ys zs = append_assoc xs ys zs
  if-append false xs ys zs = append-nil (xs ++ [])

  GetsMore-trans :
      (h : ℕ) (s t u : JsonRpcServer) (xs ys : List Bytes)
      → GetsMore h s t xs
      → GetsMore h t u ys
      → GetsMore h s u (xs ++ ys)
  GetsMore-trans h s t u xs ys (got, same) (got', same') = (
    got'
        ∙ ap (λ l. l ++ (if contains h t.connected_sockets then ys else [])) got
        ∙ ap
            (λ c.
              (received_by h s.written ++ (if contains h s.connected_sockets then xs else []))
              ++ (if contains h c then ys else []))
            same
        ∙ if-append (contains h s.connected_sockets) (received_by h s.written) xs ys,
    same' ∙ same,
  )

  -- What a client gets of the requests that a callback sends.
  send_all-GetsMore :
      (h : ℕ) (sent : List (Bytes × Value)) (n : Node J (server_link net) S K)
      → IsReliable net n.link
      → GetsMore h n.link (send_all J (server_link net) S K sent n).link (notices sent)
  unfolding send_all
  send_all-GetsMore h [] n o =
      (if_none (received_by h n.link.written) (contains h n.link.connected_sockets), refl)
  send_all-GetsMore h ((method, params) ∷ rs) n o =
      let n1 = send_request J (server_link net) S K method params none none n in
      let text = write (request_of J (server_link net) S K method params) in
      let step : GetsMore h n.link n1.link (notice method params) =
        rw (send_request_link method params n)
          (sent_on-GetsMore h (is_sendable method params) text n.link o) in
      let stays : IsReliable net n1.link =
        subst (λ c. IsSorted c × All (NeverZero net) c) (sym step.1) o in
      GetsMore-trans h n.link n1.link (send_all J (server_link net) S K rs n1).link
        (notice method params) (notices rs) step (send_all-GetsMore h rs n1 stays)

  module _ (laws : JsonLaws J) (objects : ObjectLaws J) where
    reply_link :
        (h : ℕ) (response : Value) (socket : ℕ) (n n1 : Node J (server_link net) S K)
        (texts : List Bytes)
        → IsReliable net n.link
        → GetsMore h n.link n1.link texts
        → received_by h
            (replied J laws objects (server_link net) S K response socket n1).link.written
          ≡ received_by h n.link.written
            ++ ((if contains h n.link.connected_sockets then texts else [])
                ++ copy (write response) (contains h n.link.connected_sockets && (h == socket)))
    reply_link h response socket n n1 texts o (got, same) =
        let stays = subst (λ c. IsSorted c × All (NeverZero net) c) (sym same) o in
        let last = copy (write response) (contains h n.link.connected_sockets && (h == socket)) in
        (received_by-send_message net (write response) (some socket) h n1.link stays).0
        ∙ ap
            (λ c.
              received_by h n1.link.written
              ++ copy (write response) (contains h c && (h == socket)))
            same
        ∙ ap (λ l. l ++ last) got
        ∙ append_assoc (received_by h n.link.written)
            (if contains h n.link.connected_sockets then texts else []) last

    -- A call with an id whose callback returns with `r` in the result and `e` in the error, at a server
    -- whose clients are sorted and whose `Send` to them never returns 0. Every connected client gets
    -- the requests that the callback sends, in order; the caller, if it is connected, then gets one
    -- response, with the id of the call and exactly one of a result and an error; and no client gets
    -- anything else.
    pub call_delivered :
        (h : ℕ) (v x name : Value) (method : Bytes) (socket : ℕ) (n : Node J (server_link net) S K)
        (cb : Value → S.State → Called Value × List (Bytes × Value) × S.State) (r e : Value)
        (sent : List (Bytes × Value)) (s : S.State)
        → IsCall J laws objects (server_link net) S K v x name method
        → S.callback method ≡ some cb
        → cb (params_of J (server_link net) S K v) n.service ≡ (returned r e, sent, s)
        → IsReliable net n.link
        → (response : Value) × CarriesId J laws objects response x
          × Replies J laws objects response r e
          × (received_by h (process_json_message J (server_link net) S K v socket n).link.written
              ≡ received_by h n.link.written
                ++ ((if contains h n.link.connected_sockets then notices sent else [])
                    ++ copy
                        (write response)
                        (contains h n.link.connected_sockets && (h == socket))))
    call_delivered h v x name method socket n cb r e sent s call registered runs o =
        let (response, carries, replies, done) =
          request_answered J laws objects (server_link net) S K v x name method socket n cb r e sent
            s call registered runs in
        let n0 = record n { service = s } in
        (
          response,
          carries,
          replies,
          ap (λ m. received_by h m.link.written) done
              ∙ reply_link h response socket n (send_all J (server_link net) S K sent n0)
                  (notices sent) o (send_all-GetsMore h sent n0 o),
        )
