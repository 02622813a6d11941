-- ===== src/Testserver/Playing.antt =====
-- Testserver.cpp: the callbacks of players that host, join and leave games keep the invariant of the maps.
use ice_adapter.Base.{ℕ, ◌≡◌, ℤ, ℤ_eq, Bytes, true, false, List, [], ◌∷◌, Option, some, ◌||◌, codes}
use ice_adapter.Base.IntMap.{find}
use ice_adapter.Json.{JsonLib}
use ice_adapter.Testserver.{
  Testserver, Players, Sent, ◌>>=◌, log, socket_of, for_each, to_ice_adapter,
}
use ice_adapter.Testserver.Callbacks.{
  login_at, login_or_new, connect_to_peer, connect_fellow, announce,
}
use ice_adapter.Testserver.Games.{unless_same}
use ice_adapter.Testserver.Leaving.{unless-IsQuiet}
use ice_adapter.Testserver.Quiet.{
  All-members, IsQuiet, bind-Returns, adapter-IsQuiet, socket-IsQuiet, login-IsQuiet,
  login_or_new-IsQuiet, for_each-IsQuiet,
}
use ice_adapter.Testserver.Valid.{IsValid}

module _ (J : JsonLib) where
  -- A fellow of the joining player, when both have a login and a socket.
  fellow-IsQuiet :
      (socket : ℕ) (joining hosting fellow : ℤ) (o : Option ℕ) (login name : Bytes)
      (t : Testserver J)
      → find joining t.players_logins ≡ some login
      → find fellow t.player_sockets ≡ some o
      → find fellow t.players_logins ≡ some name
      → IsQuiet J
          (unless_same J
            (ℤ_eq fellow joining || ℤ_eq fellow hosting)
            (connect_fellow J socket joining fellow))
          t
  fellow-IsQuiet socket joining hosting fellow o login name t e f g =
      let back = λ (name : Bytes). connect_to_peer J (some socket) name fellow false in
      let tell = λ (login : Bytes) (o : Option ℕ).
        connect_to_peer J o login joining true >>= λ _. login_at J fellow >>= back in
      unless-IsQuiet J (ℤ_eq fellow joining || ℤ_eq fellow hosting)
        (connect_fellow J socket joining fellow) t
        (login-IsQuiet J joining login (λ login. socket_of J fellow >>= tell login) t e
          (socket-IsQuiet J fellow o (tell login) t f (
            bind-Returns J (connect_to_peer J o login joining true)
              (λ _. login_at J fellow >>= back) t t t
              (adapter-IsQuiet J o (codes "connectToPeer")
                (J.of_string login ∷ (J.of_int joining ∷ (J.of_bool true ∷ []))) t)
              (λ ns. login-IsQuiet J fellow name back (log J ns t) g (
                adapter-IsQuiet J (some socket) (codes "connectToPeer")
                  (J.of_string name ∷ (J.of_int fellow ∷ (J.of_bool false ∷ []))) (log J ns t))))))

  module _ (s : Testserver J) (valid : IsValid J s) where
    -- Who is in a game has a socket and a login.
    pub in_game :
        (game p : ℤ) (players : Players)
        → find game s.games ≡ some players
        → find p players ≡ some tt
        → (o : Option ℕ) × (login : Bytes) × (find p s.player_sockets ≡ some o)
          × (find p s.players_logins ≡ some login)
    in_game game p players e inside =
        let (o, f) = valid.player_connected game p players e inside in
        let (login, g) = valid.has_login p o f in (o, login, f, g)

    pub announce-IsQuiet :
        (socket : ℕ) (joining hosting : ℤ) (players : Players)
        → find hosting s.games ≡ some players
        → find joining players ≡ some tt
        → IsQuiet J (announce J socket joining hosting players) s
    announce-IsQuiet socket joining hosting players found inside =
        let (q, login, connected, known) = in_game hosting joining players found inside in
        let (o, name, connected', known') =
          in_game hosting hosting players found (valid.host_inside hosting players found) in
        let each = λ (fellow : ℤ).
          unless_same J (ℤ_eq fellow joining || ℤ_eq fellow hosting)
            (connect_fellow J socket joining fellow) in
        let greet = λ (name : Bytes).
          to_ice_adapter J (some socket) (codes "joinGame")
            (J.of_string name ∷ (J.of_int hosting ∷ [])) in
        let rest = λ (name : Bytes). greet name >>= λ _. for_each J players each in
        let tell = λ (login : Bytes) (o : Option ℕ).
          connect_to_peer J o login joining true >>= λ _. login_or_new J hosting >>= rest in
        login-IsQuiet J joining login (λ login. socket_of J hosting >>= tell login) s known
          (socket-IsQuiet J hosting o (tell login) s connected' (
            bind-Returns J (connect_to_peer J o login joining true)
              (λ _. login_or_new J hosting >>= rest) s s s
              (adapter-IsQuiet J o (codes "connectToPeer")
                (J.of_string login ∷ (J.of_int joining ∷ (J.of_bool true ∷ []))) s)
              (λ ms. login_or_new-IsQuiet J hosting name rest (log J ms s) known' (
                bind-Returns J (greet name) (λ _. for_each J players each) (log J ms s) (log J ms s)
                  (log J ms s)
                  (adapter-IsQuiet J (some socket) (codes "joinGame")
                    (J.of_string name ∷ (J.of_int hosting ∷ [])) (log J ms s))
                  (λ ns. for_each-IsQuiet J players each (log J ns (log J ms s)) (
                    All-members
                      (λ k.
                        (ls : List (Sent J))
                        → IsQuiet J (each k) (log J ls (log J ns (log J ms s))))
                      players
                      (λ k v there ls.
                        let (r, own, f, g) = in_game hosting k players found there in
                        fellow-IsQuiet socket joining hosting k r login own
                          (log J ls (log J ns (log J ms s))) known f g)))))))
