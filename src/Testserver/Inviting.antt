-- ===== src/Testserver/Inviting.antt =====
-- Testserver.cpp "joinGame": what the players of a game are told.
use ice_adapter.Base.{
  ℕ, ◌≡◌, refl, sym, ap, ◌∙◌, ℤ, ℤ_eq, Bytes, Bool, true, false, List, [], ◌∷◌, Option, none, some,
  codes, ◌||◌, if◌then◌else◌,
}
use ice_adapter.Base.IntMap.{find}
use ice_adapter.Json.{JsonLib}
use ice_adapter.Testserver.{
  Testserver, Players, Sent, Exec, ◌>>=◌, log, socket_of, to_ice_adapter, for_each,
}
use ice_adapter.Testserver.Callbacks.{
  or_new, login_at, login_or_new, connect_to_peer, connect_fellow, announce,
}
use ice_adapter.Testserver.Games.{unless_same}
use ice_adapter.Testserver.Playing.{in_game}
use ice_adapter.Testserver.Quiet.{All-members}
use ice_adapter.Testserver.Saying.{
  Says, told, all_said, done-Says, tell-Says, socket-Says, login-Says, login_or_new-Says,
  for_each-Says,
}
use ice_adapter.Testserver.Valid.{IsValid}

-- What is found, as the value that is read with a default.
seen :
    {A : Type 0} (k : ℤ) (d v : A) (m : List (ℤ × A))
    → find k m ≡ some v
    → find k m ≡ some (or_new d (find k m))
seen k d v m e = e ∙ sym (ap (λ r. some (or_new d r)) e)

module _ (J : JsonLib) where
  abbrev pub socket_at : Testserver J → ℤ → Option ℕ
  socket_at s p = or_new none (find p s.player_sockets)

  abbrev pub login_of : Testserver J → ℤ → Bytes
  login_of s p = or_new [] (find p s.players_logins)

  -- The message that makes the adapter behind the socket connect to a player.
  abbrev pub connect_message : Option ℕ → Bytes → ℤ → Bool → Sent J
  connect_message socket login id offer =
      told J socket (codes "connectToPeer")
        (J.of_string login ∷ (J.of_int id ∷ (J.of_bool offer ∷ [])))

  abbrev pub join_message : ℕ → Bytes → ℤ → Sent J
  join_message k login id =
      told J (some k) (codes "joinGame") (J.of_string login ∷ (J.of_int id ∷ []))

  -- A fellow offers to the joining player, which does not offer to the fellow.
  abbrev pub welcome : ℕ → ℤ → ℤ → Testserver J → ℤ → List (Sent J)
  welcome k joining hosting s fellow =
      if ℤ_eq fellow joining || ℤ_eq fellow hosting
      then []
      else connect_message (socket_at s fellow) (login_of s joining) joining true
        ∷ (connect_message (some k) (login_of s fellow) fellow false ∷ [])

  -- The host is connected first.
  abbrev pub invitations : ℕ → ℤ → ℤ → Testserver J → Players → List (Sent J)
  invitations k joining hosting s players =
      connect_message (socket_at s hosting) (login_of s joining) joining true
      ∷ (join_message k (login_of s hosting) hosting
          ∷ all_said J (welcome k joining hosting s) players)

  unless-Says :
      (b : Bool) (m : Exec (Testserver J) (Unit {0})) (s : Testserver J) (ms : List (Sent J))
      → Says J m s ms
      → Says J (unless_same J b m) s (if b then [] else ms)
  unless-Says true m s ms e = done-Says J s
  unless-Says false m s ms e = e

  fellow-Says :
      (k : ℕ) (joining fellow : ℤ) (o : Option ℕ) (login name : Bytes) (t : Testserver J)
      → find joining t.players_logins ≡ some login
      → find fellow t.player_sockets ≡ some o
      → find fellow t.players_logins ≡ some name
      → Says J
          (connect_fellow J k joining fellow)
          t
          (connect_message o login joining true ∷ (connect_message (some k) name fellow false ∷ []))
  fellow-Says k joining fellow o login name t e f g =
      let back = λ (name : Bytes). connect_to_peer J (some k) name fellow false in
      let tell = λ (login : Bytes) (o : Option ℕ).
        connect_to_peer J o login joining true >>= λ _. login_at J fellow >>= back in
      let first = connect_message o login joining true in
      let second = connect_message (some k) name fellow false in
      login-Says J joining login (λ login. socket_of J fellow >>= tell login) t
        (first ∷ (second ∷ [])) e
        (socket-Says J fellow o (tell login) t (first ∷ (second ∷ [])) f (
          tell-Says J o (codes "connectToPeer")
            (J.of_string login ∷ (J.of_int joining ∷ (J.of_bool true ∷ [])))
            (λ _. login_at J fellow >>= back) t (second ∷ [])
            (login-Says J fellow name back (log J (first ∷ []) t) (second ∷ []) g refl)))

  module _ (s : Testserver J) (valid : IsValid J s) (k : ℕ) (joining hosting : ℤ)
      (players : Players) (found : find hosting s.games ≡ some players) where
    each-Says :
        (fellow : ℤ)
        → find joining players ≡ some tt
        → find fellow players ≡ some tt
        → (ls ms : List (Sent J))
        → Says J
            (unless_same J
              (ℤ_eq fellow joining || ℤ_eq fellow hosting)
              (connect_fellow J k joining fellow))
            (log J ms (log J ls s))
            (welcome k joining hosting s fellow)
    each-Says fellow inside there ls ms =
        let (q, login, connected, known) = in_game J s valid hosting joining players found inside in
        let (o, name, f, g) = in_game J s valid hosting fellow players found there in
        unless-Says (ℤ_eq fellow joining || ℤ_eq fellow hosting) (connect_fellow J k joining fellow)
          (log J ms (log J ls s)) _
          (fellow-Says k joining fellow (socket_at s fellow) (login_of s joining)
            (login_of s fellow) (log J ms (log J ls s))
            (seen joining [] login s.players_logins known) (seen fellow none o s.player_sockets f)
            (seen fellow [] name s.players_logins g))

    pub announce-Says :
        find joining players ≡ some tt
        → Says J (announce J k joining hosting players) s (invitations k joining hosting s players)
    announce-Says inside =
        let (q, login, connected, known) = in_game J s valid hosting joining players found inside in
        let (o, name, connected', known') =
          in_game J s valid hosting hosting players found
            (valid.host_inside hosting players found) in
        let each = λ (fellow : ℤ).
          unless_same J (ℤ_eq fellow joining || ℤ_eq fellow hosting)
            (connect_fellow J k joining fellow) in
        let greet = λ (name : Bytes).
          to_ice_adapter J (some k) (codes "joinGame")
            (J.of_string name ∷ (J.of_int hosting ∷ [])) in
        let rest = λ (name : Bytes). greet name >>= λ _. for_each J players each in
        let tell = λ (login : Bytes) (o : Option ℕ).
          connect_to_peer J o login joining true >>= λ _. login_or_new J hosting >>= rest in
        let first = connect_message (socket_at s hosting) (login_of s joining) joining true ∷ [] in
        let second = join_message k (login_of s hosting) hosting ∷ [] in
        let said = all_said J (welcome k joining hosting s) players in
        login-Says J joining (login_of s joining) (λ login. socket_of J hosting >>= tell login) s _
          (seen joining [] login s.players_logins known)
          (socket-Says J hosting (socket_at s hosting) (tell (login_of s joining)) s _
            (seen hosting none o s.player_sockets connected')
            (tell-Says J (socket_at s hosting) (codes "connectToPeer")
              (J.of_string (login_of s joining) ∷ (J.of_int joining ∷ (J.of_bool true ∷ [])))
              (λ _. login_or_new J hosting >>= rest) s _
              (login_or_new-Says J hosting (login_of s hosting) rest (log J first s) _
                (seen hosting [] name s.players_logins known')
                (tell-Says J (some k) (codes "joinGame")
                  (J.of_string (login_of s hosting) ∷ (J.of_int hosting ∷ []))
                  (λ _. for_each J players each) (log J first s) said
                  (for_each-Says J players each (welcome k joining hosting s) (log J first s) second
                    (All-members
                      (λ fellow.
                        (ns : List (Sent J))
                        → Says J (each fellow) (log J ns (log J first s))
                            (welcome k joining hosting s fellow))
                      players (λ fellow u there ns. each-Says fellow inside there first ns)))))))
