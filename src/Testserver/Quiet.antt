-- ===== src/Testserver/Quiet.antt =====
-- Testserver.cpp: steps that return, and change nothing but send requests.
use ice_adapter.Base.{
  ℕ, ◌≡◌, refl, sym, ap, ◌∙◌, subst, inl, inr, ℤ, ℤ_eq, ℤ_eq_refl, Bytes, List, [], ◌∷◌, ◌++◌,
  Option, none, some, All, codes, append-nil, append_assoc, Bool-cases,
}
use ice_adapter.Base.IntMap.{find}
use ice_adapter.Json.{JsonLib}
use ice_adapter.Testserver.{
  Testserver, Players, Sent, Exec, continue, ◌>>=◌, done, log, request, send_request, socket_of,
  socket_or_null, to_ice_adapter, for_each, gamelist_json, add_games, send_gamelist,
}
use ice_adapter.Adapter.Game.{json_array}
use ice_adapter.Testserver.Callbacks.{login_at, login_or_new, or_new, insert_new}

-- What holds of each key of a map holds of its entries.
module _ {A : Type 0} where
  find_later :
      (p q : ℤ) (u v : A) (m : List (ℤ × A))
      → find q m ≡ some v
      → (w : A) × (find q ((p, u) ∷ m) ≡ some w)
  unfolding find
  find_later p q u v m e = elim (Bool-cases (ℤ_eq p q)) [
    | inl same ↦ (u, rw same refl)
    | inr other ↦ (v, rw other e)
  ]

  pub All-members :
      (P : ℤ → Type 0) (m : List (ℤ × A))
      → ((k : ℤ) (v : A) → find k m ≡ some v → P k)
      → All (λ e. P e.0) m
  unfolding find
  All-members P [] h = tt
  All-members P ((p, u) ∷ m) h = (
    h p u (rw (ℤ_eq_refl p) refl),
    All-members P m (λ q v e. let (w, e') = find_later p q u v m e in h q w e'),
  )

module _ (J : JsonLib) where
  -- The step returns, in the state `t` but for the requests that it sends.
  unfoldable pub Returns : Exec (Testserver J) (Unit {0}) → Testserver J → Testserver J → Type 0
  Returns m s t = (ms : List (Sent J)) × (m s ≡ (some tt, log J ms t))

  -- The step returns, and only sends requests.
  abbrev pub IsQuiet : Exec (Testserver J) (Unit {0}) → Testserver J → Type 0
  IsQuiet m s = Returns m s s

  pub log_nothing : (s : Testserver J) → s ≡ log J [] s
  log_nothing s = ap (λ l. record s { sent = l }) (sym (append-nil s.sent))

  pub log_again :
      (s : Testserver J) (ms ns : List (Sent J)) → log J ns (log J ms s) ≡ log J (ms ++ ns) s
  log_again s ms ns = ap (λ l. record s { sent = l }) (append_assoc s.sent ms ns)

  pub pure-Returns :
      (m : Exec (Testserver J) (Unit {0})) (s t : Testserver J) → m s ≡ (some tt, t) → Returns m s t
  unfolding Returns
  pure-Returns m s t e = ([], e ∙ ap (λ u. (some tt, u)) (log_nothing t))

  pub read-Returns :
      (f : Testserver J → Exec (Testserver J) (Unit {0})) (s t : Testserver J)
      → Returns (f s) s t
      → Returns (λ u. f u u) s t
  unfolding Returns
  read-Returns f s t h = h

  pub bind-Returns :
      (m : Exec (Testserver J) (Unit {0})) (f : Unit {0} → Exec (Testserver J) (Unit {0}))
      (s t u : Testserver J)
      → Returns m s t
      → ((ms : List (Sent J)) → Returns (f tt) (log J ms t) (log J ms u))
      → Returns (m >>= f) s u
  unfolding Returns
  bind-Returns m f s t u (ms, e) more =
      let (ns, e') = more ms in
      (ms ++ ns, ap (λ r. continue r.0 f r.1) e ∙ e' ∙ ap (λ t. (some tt, t)) (log_again u ms ns))

  pub done-IsQuiet : (s : Testserver J) → IsQuiet done s
  done-IsQuiet s = pure-Returns done s s refl

  pub send-IsQuiet :
      (socket : Option ℕ) (method : Bytes) (params : List J.Value) (s : Testserver J)
      → IsQuiet (send_request J socket method params) s
  unfolding Returns
  send-IsQuiet socket method params s = (request J socket method params ∷ [], refl)

  pub adapter-IsQuiet :
      (socket : Option ℕ) (method : Bytes) (params : List J.Value) (s : Testserver J)
      → IsQuiet (to_ice_adapter J socket method params) s
  adapter-IsQuiet socket method params s =
      send-IsQuiet socket (codes "sendToIceAdapter")
        (J.of_string method ∷ (json_array J params ∷ [])) s

  -- A step that reads the socket of a connected player.
  pub socket-IsQuiet :
      (id : ℤ) (o : Option ℕ) (f : Option ℕ → Exec (Testserver J) (Unit {0})) (s : Testserver J)
      → find id s.player_sockets ≡ some o
      → IsQuiet (f o) s
      → IsQuiet (socket_of J id >>= f) s
  unfolding Returns
  socket-IsQuiet id o f s e (ms, k) =
      (ms, ap (λ x. let (r, t) = socket_or_null J id x s in continue r f t) e ∙ k)

  All-later :
      (ms : List (Sent J)) (ps : Players) (body : ℤ → Exec (Testserver J) (Unit {0}))
      (s : Testserver J)
      → All (λ e. (ns : List (Sent J)) → IsQuiet (body e.0) (log J ns s)) ps
      → All (λ e. (ns : List (Sent J)) → IsQuiet (body e.0) (log J ns (log J ms s))) ps
  All-later ms [] body s h = tt
  All-later ms ((p, u) ∷ ps) body s h = (
    λ ns. subst (IsQuiet (body p)) (sym (log_again s ms ns)) (h.0 (ms ++ ns)),
    All-later ms ps body s h.1,
  )

  pub for_each-IsQuiet :
      (ps : Players) (body : ℤ → Exec (Testserver J) (Unit {0})) (s : Testserver J)
      → All (λ e. (ms : List (Sent J)) → IsQuiet (body e.0) (log J ms s)) ps
      → IsQuiet (for_each J ps body) s
  unfolding for_each
  for_each-IsQuiet [] body s h = done-IsQuiet s
  for_each-IsQuiet ((p, u) ∷ ps) body s h =
      bind-Returns (body p) (λ _. for_each J ps body) s s s
        (subst (IsQuiet (body p)) (sym (log_nothing s)) (h.0 []))
        (λ ms. for_each-IsQuiet ps body (log J ms s) (All-later ms ps body s h.1))

  add_games-returns :
      (m : List (ℤ × Players)) (logins : List (ℤ × Bytes)) (v : J.Value)
      → All (λ e. (login : Bytes) × (find e.0 logins ≡ some login)) m
      → (w : J.Value) × (add_games J m logins v ≡ some w)
  unfolding add_games
  add_games-returns [] logins v h = (v, refl)
  add_games-returns ((host, players) ∷ m) logins v h =
      let (w, e) = add_games-returns m logins (J.set_member v h.0.0 (J.of_int host)) h.1 in
      (w, rw (h.0.1, add_games) e)

  -- Every host has a login.
  abbrev pub IsNamed : List (ℤ × Players) → List (ℤ × Bytes) → Type 0
  IsNamed games logins =
      (game : ℤ) (players : Players)
      → find game games ≡ some players
      → (login : Bytes) × (find game logins ≡ some login)

  pub gamelist_returns :
      (s : Testserver J)
      → IsNamed s.games s.players_logins
      → (v : J.Value) × (gamelist_json J s ≡ some v)
  unfolding gamelist_json
  gamelist_returns s h =
      add_games-returns s.games s.players_logins J.empty_object
        (All-members (λ k. (login : Bytes) × (find k s.players_logins ≡ some login)) s.games h)

  pub send_gamelist-IsQuiet :
      (s : Testserver J) → IsNamed s.games s.players_logins → IsQuiet (send_gamelist J) s
  unfolding Returns send_gamelist
  send_gamelist-IsQuiet s h =
      let (v, e) = gamelist_returns s h in
      (
        request J none (codes "onGamelist") (v ∷ []) ∷ [],
        ap (λ r. continue r (λ games. send_request J none (codes "onGamelist") (games ∷ [])) s) e,
      )

  -- A step that reads the login of a player.
  pub login-IsQuiet :
      (id : ℤ) (login : Bytes) (f : Bytes → Exec (Testserver J) (Unit {0})) (s : Testserver J)
      → find id s.players_logins ≡ some login
      → IsQuiet (f login) s
      → IsQuiet (login_at J id >>= f) s
  unfolding Returns
  login-IsQuiet id login f s e (ms, k) = (ms, ap (λ r. continue r f s) e ∙ k)

  pub login_or_new-IsQuiet :
      (id : ℤ) (login : Bytes) (f : Bytes → Exec (Testserver J) (Unit {0})) (s : Testserver J)
      → find id s.players_logins ≡ some login
      → IsQuiet (f login) s
      → IsQuiet (login_or_new J id >>= f) s
  unfolding Returns
  login_or_new-IsQuiet id login f s e (ms, k) = (
    ms,
    ap (λ r. f (or_new [] r) (record s { players_logins = insert_new r id [] s.players_logins })) e
        ∙ k,
  )
