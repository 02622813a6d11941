-- ===== src/Testclient/Client/Hosting.antt =====
-- legacy_testclient/Testserver.cpp "hostGame", and what legacy_testclient/Testclient.cpp makes of it.
use ice_adapter.Base.{
  ℕ, suc, ◌≡◌, refl, ap, ◌∙◌, ℤ, pos, List, [], ◌∷◌, ◌++◌, some, codes, append_assoc,
}
use ice_adapter.Base.IntMap.{find, erase}
use ice_adapter.Base.IntMap.Keys.{find_put_self}
use ice_adapter.Json.{JsonLib, ArrayLaws}
use ice_adapter.Adapter.Game.{json_array}
use ice_adapter.Testclient.Client.{Testclient}
use ice_adapter.Testclient.Client.Callbacks.{send_to_ice_adapter}
use ice_adapter.Testserver.{Testserver, Sent, request}
use ice_adapter.Testserver.Callbacks.{refuse, on_host_game}
use ice_adapter.Testserver.Turns.{host_game_hosts}
use ice_adapter.Testserver.Valid.{IsValid}

module _ (J : JsonLib) (arrays : ArrayLaws J) (F : Type 0) (average : F → ℕ → ℕ → F) where
  open J use {Value, of_string, size}

  size_one : (x : Value) → size (json_array J (x ∷ [])) ≡ 1
  unfolding json_array
  size_one x =
      arrays.size-append J.empty_array x arrays.type-empty_array ∙ ap suc arrays.size-empty_array

  abbrev refusal : Value × Value
  refusal = refuse J (codes "Need 1 parameter: method (string), params (array)")

  one_refused :
      (x : Value) (c : Testclient J F average)
      → send_to_ice_adapter J F average (json_array J (x ∷ [])) c ≡ (refusal, c)
  unfolding send_to_ice_adapter
  one_refused x c = rw (size_one x, send_to_ice_adapter) refl

  -- A player that is logged in asks a server with valid maps to host. The server records that the player
  -- plays its own game and sends `sendToIceAdapter` to the player's socket, but with one parameter:
  -- every client refuses this message, changes nothing, and so asks nothing of its adapter.
  pub host_game_refused :
      (s : Testserver J) (params : Value) (k : ℕ) (p : ℤ)
      → IsValid J s
      → find (pos k) s.socket_players ≡ some p
      → let t = (on_host_game J params k s).1 in
        (find p t.players_games ≡ some p)
        × ((before after : List (Sent J)) × (m : Sent J) × (t.sent ≡ before ++ (m ∷ after))
            × (m.socket ≡ some k)
            × (m.method ≡ codes "sendToIceAdapter")
            × ((c : Testclient J F average)
                → send_to_ice_adapter J F average m.params c ≡ (refusal, c)))
  host_game_refused s params k p valid e =
      let (ms, ns, f) = host_game_hosts J s valid k params p e in
      let m = request J (some k) (codes "sendToIceAdapter") (of_string (codes "hostGame") ∷ []) in
      (
        ap (λ t. find p t.players_games) f ∙ find_put_self p p (erase p s.players_games),
        (
          s.sent ++ ms,
          ns,
          m,
          ap (λ t. t.sent) f ∙ append_assoc (s.sent ++ ms) (m ∷ []) ns,
          refl,
          refl,
          λ c. one_refused (of_string (codes "hostGame")) c,
        ),
      )
