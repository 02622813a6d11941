-- ===== src/Testserver/Saying.antt =====
-- Testserver.cpp: exactly what a step sends.
use ice_adapter.Base.{
  ℕ, ◌≡◌, refl, sym, ap, ◌∙◌, subst, ℤ, Bytes, List, [], ◌∷◌, ◌++◌, Option, some, All, codes,
}
use ice_adapter.Base.IntMap.{find}
use ice_adapter.Json.{JsonLib}
use ice_adapter.Adapter.Game.{json_array}
use ice_adapter.Testserver.{
  Testserver, Players, Sent, Exec, continue, ◌>>=◌, log, request, socket_of, socket_or_null,
  to_ice_adapter, for_each, done,
}
use ice_adapter.Testserver.Callbacks.{login_at, login_or_new, or_new, insert_new}
use ice_adapter.Testserver.Quiet.{log_nothing, log_again}

module _ (J : JsonLib) where
  -- The step returns, sends the requests in order, and changes nothing else.
  abbrev pub Says : Exec (Testserver J) (Unit {0}) → Testserver J → List (Sent J) → Type 0
  Says m s ms = m s ≡ (some tt, log J ms s)

  abbrev pub told : Option ℕ → Bytes → List J.Value → Sent J
  told socket method params =
      request J socket (codes "sendToIceAdapter") (J.of_string method ∷ (json_array J params ∷ []))

  pub done-Says : (s : Testserver J) → Says done s []
  done-Says s = ap (λ t. (some tt, t)) (log_nothing J s)

  pub bind-Says :
      (m : Exec (Testserver J) (Unit {0})) (f : Unit {0} → Exec (Testserver J) (Unit {0}))
      (s : Testserver J) (ms ns : List (Sent J))
      → Says m s ms
      → Says (f tt) (log J ms s) ns
      → Says (m >>= f) s (ms ++ ns)
  bind-Says m f s ms ns e e' =
      ap (λ r. continue r.0 f r.1) e ∙ e' ∙ ap (λ t. (some tt, t)) (log_again J s ms ns)

  pub tell-Says :
      (socket : Option ℕ) (method : Bytes) (params : List J.Value)
      (f : Unit {0} → Exec (Testserver J) (Unit {0})) (s : Testserver J) (ns : List (Sent J))
      → Says (f tt) (log J (told socket method params ∷ []) s) ns
      → Says (to_ice_adapter J socket method params >>= f) s (told socket method params ∷ ns)
  tell-Says socket method params f s ns e =
      bind-Says (to_ice_adapter J socket method params) f s (told socket method params ∷ []) ns refl
        e

  pub socket-Says :
      (id : ℤ) (o : Option ℕ) (f : Option ℕ → Exec (Testserver J) (Unit {0})) (s : Testserver J)
      (ms : List (Sent J))
      → find id s.player_sockets ≡ some o
      → Says (f o) s ms
      → Says (socket_of J id >>= f) s ms
  socket-Says id o f s ms e k =
      ap (λ x. let (r, t) = socket_or_null J id x s in continue r f t) e ∙ k

  pub login-Says :
      (id : ℤ) (login : Bytes) (f : Bytes → Exec (Testserver J) (Unit {0})) (s : Testserver J)
      (ms : List (Sent J))
      → find id s.players_logins ≡ some login
      → Says (f login) s ms
      → Says (login_at J id >>= f) s ms
  login-Says id login f s ms e k = ap (λ r. continue r f s) e ∙ k

  pub login_or_new-Says :
      (id : ℤ) (login : Bytes) (f : Bytes → Exec (Testserver J) (Unit {0})) (s : Testserver J)
      (ms : List (Sent J))
      → find id s.players_logins ≡ some login
      → Says (f login) s ms
      → Says (login_or_new J id >>= f) s ms
  login_or_new-Says id login f s ms e k =
      ap (λ r. f (or_new [] r) (record s { players_logins = insert_new r id [] s.players_logins }))
        e
      ∙ k

  abbrev pub all_said : (ℤ → List (Sent J)) → Players → List (Sent J)
  all_said said [] = []
  all_said said ((p, u) ∷ ps) = said p ++ all_said said ps

  pub for_each-Says :
      (ps : Players) (body : ℤ → Exec (Testserver J) (Unit {0})) (said : ℤ → List (Sent J))
      (s : Testserver J) (ms : List (Sent J))
      → All (λ e. (ns : List (Sent J)) → Says (body e.0) (log J ns s) (said e.0)) ps
      → Says (for_each J ps body) (log J ms s) (all_said said ps)
  unfolding for_each
  for_each-Says [] body said s ms h = done-Says (log J ms s)
  for_each-Says ((p, u) ∷ ps) body said s ms h =
      bind-Says (body p) (λ _. for_each J ps body) (log J ms s) (said p) (all_said said ps) (h.0 ms)
        (subst (λ t. Says (for_each J ps body) t (all_said said ps))
          (sym (log_again J s ms (said p))) (for_each-Says ps body said s (ms ++ said p) h.1))
