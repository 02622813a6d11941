-- ===== src/Rpc/Awaits.antt =====
-- JsonRpc.cpp `sendRequest`: the request that is sent, and the callback that waits for its response.
use ice_adapter.Base.{
  ℕ, ◌≡◌, refl, ap, sym, ◌∙◌, inl, ℤ, pos, ℤ_eq, Bytes, true, false, List, Option, none, some,
  arith, if◌then◌else◌, codes, str_eq,
}
use ice_adapter.Base.IntMap.{find}
use ice_adapter.Base.IntMap.Laws.{find-assign}
use ice_adapter.Json.{JsonLib, JsonLaws, ObjectLaws, HoldsMembers, is_array}
use ice_adapter.Rpc.Node.{Link, Service, Node, is_empty, request_of, send_request}
use ice_adapter.Rpc.Responses.{version, version_holds, holds_set, member_same, member_other}
use ice_adapter.Rpc.Pending.{
  Event, run, IsNew, find-BelowId, run-IsOrderly, IsNew-IsOrderly, send_request_lem,
}

module _ (J : JsonLib) (laws : JsonLaws J) (objects : ObjectLaws J) where
  open J use {Value, set_member, member, of_int, of_string}

  -- A request of this method with these parameters and this id.
  abbrev pub Carries : Bytes → Value → ℤ → Value → Type 0
  Carries method params id request =
      (member request (codes "jsonrpc") ≡ some (of_string (codes "2.0")))
      × (member request (codes "method") ≡ some (of_string method))
      × (member request (codes "params") ≡ some params)
      × (member request (codes "id") ≡ some (of_int id))

  set_members-Carries :
      (method : Bytes) (params : Value) (id : ℤ)
      → let named = set_member (version J laws objects) (codes "method") (of_string method) in
        Carries method params id
          (set_member (set_member named (codes "params") params) (codes "id") (of_int id))
  unfolding str_eq
  set_members-Carries method params id =
      let start = version J laws objects in
      let start_holds = version_holds J laws objects in
      let named = set_member start (codes "method") (of_string method) in
      let named_holds : HoldsMembers J named =
        holds_set J laws objects start (codes "method") (of_string method) start_holds in
      let full = set_member named (codes "params") params in
      let full_holds : HoldsMembers J full =
        holds_set J laws objects named (codes "params") params named_holds in
      let same = member_same J laws objects in
      let other = member_other J laws objects in
      (
        other full (codes "id") (codes "jsonrpc") (of_int id) full_holds refl
            ∙ other named (codes "params") (codes "jsonrpc") params named_holds refl
            ∙ other start (codes "method") (codes "jsonrpc") (of_string method) start_holds refl
            ∙ same J.null (codes "jsonrpc") (of_string (codes "2.0")) (inl laws.type-null) refl,
        other full (codes "id") (codes "method") (of_int id) full_holds refl
            ∙ other named (codes "params") (codes "method") params named_holds refl
            ∙ same start (codes "method") (of_string method) start_holds refl,
        other full (codes "id") (codes "params") (of_int id) full_holds refl
            ∙ same named (codes "params") params named_holds refl,
        same full (codes "id") (of_int id) full_holds refl,
      )

  module _ (L : Link) (S : Service J) (K : Type 0) where
    send_request-link :
        (method : Bytes) (params : Value) (socket : Option ℕ) (k : K) (n : Node J L S K)
        → is_array (J.value_type params) ≡ true
        → is_empty method ≡ false
        → let request =
            set_member
              (request_of J L S K method params)
              (codes "id")
              (of_int (pos n.current_id)) in
          (send_request J L S K method params socket (some k) n).link
          ≡ (L.send_message (J.write request) socket n.link).1
    unfolding send_request
    send_request-link method params socket k n a e = ground arith

    -- After any history of a node that starts with no request waiting, the node sends a request with a
    -- callback, whose parameters are an array and whose method is not empty. The text of one JSON
    -- object is handed over to be sent: it has the method and the parameters, and as its id the
    -- number that the node counts. Under this id no other request waits, and the callback waits under
    -- it afterwards. Every other waiting request still waits.
    pub request_awaits :
        (es : List (Event J L S K)) (start : Node J L S K) (method : Bytes) (params : Value)
        (socket : Option ℕ) (k : K) (i : ℤ)
        → IsNew J L S K start
        → is_array (J.value_type params) ≡ true
        → is_empty method ≡ false
        → let n = run J L S K es start in
          let n1 = send_request J L S K method params socket (some k) n in
          (find (pos n.current_id) n.current_requests ≡ none)
          × (find i n1.current_requests
              ≡ (if ℤ_eq (pos n.current_id) i then some k else find i n.current_requests))
          × (request : Value) × Carries method params (pos n.current_id) request
          × (n1.link ≡ (L.send_message (J.write request) socket n.link).1)
    request_awaits es start method params socket k i new a e =
        let n = run J L S K es start in
        let o = run-IsOrderly J L S K es start (IsNew-IsOrderly J L S K start new) in
        (
          find-BelowId J L S K n.current_id n.current_requests o.1,
          ap (find i) (sym (send_request_lem J L S K method params socket k n a e).0)
              ∙ find-assign (pos n.current_id) i k n.current_requests,
          set_member (request_of J L S K method params) (codes "id") (of_int (pos n.current_id)),
          set_members-Carries method params (pos n.current_id),
          send_request-link method params socket k n a e,
        )
