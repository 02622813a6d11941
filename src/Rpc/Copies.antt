-- ===== src/Rpc/Copies.antt =====
-- JsonRpcServer.cpp `_sendMessage`: what each client of the server gets.
use ice_adapter.Base.{
  ℕ, ◌≡◌, refl, ap, ◌∙◌, Bytes, Bool, true, false, ◌&&◌, List, [], ◌∷◌, ◌++◌, Option, none, some,
  All, arith, ◌==◌, if◌then◌else◌,
}
use ice_adapter.GpgNet.Members.{
  contains, IsSorted, received_by, received_by-append, received_by-broadcast,
}
use ice_adapter.Rpc.Server.{JsonRpcServer, Net, is_meant, send_message}
use ice_adapter.Rpc.Sends.{meant, meant_all, meant_one, sends, NeverZero, send_message_delivers}

-- The message, for a client that is connected and meant.
abbrev pub copy : Bytes → Bool → List Bytes
copy message b = if b then message ∷ [] else []

copy-and_true :
    (message : Bytes) (b : Bool) → (if b then message ∷ [] else []) ≡ copy message (b && true)
copy-and_true message true = refl
copy-and_true message false = refl

copy-and_false : (message : Bytes) (b : Bool) → [] ≡ copy message (b && false)
copy-and_false message true = refl
copy-and_false message false = refl

copy_self :
    (message : Bytes) (k : ℕ) (here : Bool)
    → received_by k (sends message (if here then k ∷ [] else [])) ≡ copy message (here && true)
copy_self message k true = ground arith
copy_self message k false = refl

copy_one :
    (message : Bytes) (k h : ℕ) (ks : List ℕ) (same : Bool)
    → (h == k) ≡ same
    → (here : Bool) → contains k ks ≡ here
    → received_by h (sends message (if here then k ∷ [] else []))
      ≡ copy message (contains h ks && same)
copy_one message k h ks true e here c =
    let same : h ≡ k = ground arith in
    let at : contains h ks ≡ here = ap (λ j. contains j ks) same ∙ c in
    rw (at, same) (copy_self message k here)
copy_one message k h ks false e true c = rw e (copy-and_false message (contains h ks))
copy_one message k h ks false e false c = copy-and_false message (contains h ks)

received_by-meant :
    (message : Bytes) (socket : Option ℕ) (h : ℕ) (ks : List ℕ)
    → IsSorted ks
    → received_by h (sends message (meant socket ks))
      ≡ copy message (contains h ks && is_meant socket h)
received_by-meant message none h ks o =
    ap (λ l. received_by h (sends message l)) (meant_all ks)
    ∙ received_by-broadcast h message ks o
    ∙ copy-and_true message (contains h ks)
received_by-meant message (some k) h ks o =
    ap (λ l. received_by h (sends message l)) (meant_one k ks o)
    ∙ copy_one message k h ks (h == k) refl (contains k ks) refl

module _ (net : Net) where
  -- The clients are sorted and no `Send` to them returns 0.
  abbrev pub IsReliable : JsonRpcServer → Type 0
  IsReliable s = IsSorted s.connected_sockets × All (NeverZero net) s.connected_sockets

  pub received_by-send_message :
      (message : Bytes) (socket : Option ℕ) (h : ℕ) (s : JsonRpcServer)
      → IsReliable s
      → (received_by h (send_message net message socket s).1.written
          ≡ received_by h s.written
            ++ copy message (contains h s.connected_sockets && is_meant socket h))
        × ((send_message net message socket s).1.connected_sockets ≡ s.connected_sockets)
  received_by-send_message message socket h s o =
      rw (send_message_delivers net message socket s o.1) (
        received_by-append h s.written (sends message (meant socket s.connected_sockets))
            ∙ ap (λ l. received_by h s.written ++ l)
                (received_by-meant message socket h s.connected_sockets o.0),
        refl,
      )
