-- ===== src/Adapter/PartialList.antt =====
-- IceAdapter.cpp `setIceServers` on a list with an element that cannot be read.
use ice_adapter.Base.{
  ℕ, suc, ◌+◌, ◌-◌, ◌<◌, ◌≡◌, ap, sym, ◌∙◌, true, false, List, [], ◌∷◌, ◌++◌, none, some, arith,
  append_assoc, append-nil,
}
use ice_adapter.Json.{JsonLib, is_object}
use ice_adapter.Relay.State.{IceServer, threw}
use ice_adapter.Adapter.State.{IceAdapter}
use ice_adapter.Adapter.Servers.{Collected, with_server, ice_server_of, collect, set_servers}

module _ (J : JsonLib) (v : J.Value) where
  open J use {value_type, size, at}

  -- The servers of the first elements of the list, in the elements' order: an object that can be read
  -- gives its server, and an element that is no object gives none.
  pub data FirstServers : ℕ → List IceServer → Type 0 where
    no_elements : FirstServers 0 []
    read_element :
        (n : ℕ) (servers : List IceServer) (s : IceServer)
        → FirstServers n servers
        → is_object (value_type (at v n)) ≡ true
        → ice_server_of J (at v n) ≡ some s
        → FirstServers (suc n) (servers ++ (s ∷ []))
    skipped_element :
        (n : ℕ) (servers : List IceServer)
        → FirstServers n servers
        → is_object (value_type (at v n)) ≡ false
        → FirstServers (suc n) servers

  -- An object that is no ICE server.
  abbrev pub IsUnreadable : ℕ → Type 0
  IsUnreadable n = (is_object (value_type (at v n)) ≡ true) × (ice_server_of J (at v n) ≡ none)

  abbrev behind_servers : List IceServer → Collected → Collected
  behind_servers servers c = record c { servers = servers ++ c.servers }

  collect_read :
      (n k : ℕ) (s : IceServer)
      → is_object (value_type (at v n)) ≡ true
      → ice_server_of J (at v n) ≡ some s
      → collect J (suc k) n v ≡ with_server s (collect J k (suc n) v)
  unfolding collect
  collect_read n k s object reads = rw (object, reads)

  collect_skipped :
      (n k : ℕ)
      → is_object (value_type (at v n)) ≡ false
      → collect J (suc k) n v ≡ collect J k (suc n) v
  unfolding collect
  collect_skipped n k no_object = rw no_object

  collect_unreadable :
      (n k : ℕ) → IsUnreadable n → collect J (suc k) n v ≡ record { servers = []; failed = true }
  unfolding collect
  collect_unreadable n k (object, unreadable) = rw (object, unreadable)

  move_suc : (n k : ℕ) → suc n + k ≡ n + suc k
  move_suc n k = omega arith

  add_zero : (k : ℕ) → 0 + k ≡ k
  add_zero k = omega arith

  -- Once the first elements are read, the loop goes on with the others, behind their servers.
  collect-FirstServers :
      (n k : ℕ) (servers : List IceServer)
      → FirstServers n servers
      → collect J (n + k) 0 v ≡ behind_servers servers (collect J k n v)
  collect-FirstServers _ k _ no_elements = ap (λ i. collect J i 0 v) (add_zero k)
  collect-FirstServers _ k _ (read_element n servers s first object reads) =
      let rest = collect J k (suc n) v in
      ap (λ i. collect J i 0 v) (move_suc n k)
      ∙ collect-FirstServers n (suc k) servers first
      ∙ ap (behind_servers servers) (collect_read n k s object reads)
      ∙ ap (λ ss. record rest { servers = ss }) (sym (append_assoc servers (s ∷ []) rest.servers))
  collect-FirstServers _ k _ (skipped_element n servers first no_object) =
      ap (λ i. collect J i 0 v) (move_suc n k)
      ∙ collect-FirstServers n (suc k) servers first
      ∙ ap (behind_servers servers) (collect_skipped n k no_object)

  -- If every element before one can be read or is no object, and this one is an object that is no ICE
  -- server, `setIceServers` throws: whatever stands behind it, the adapter's list is that of the
  -- servers before, in their order and without the list that it had, and nothing else has changed: the
  -- relays keep the list that they had.
  pub set_servers_throws :
      (n : ℕ) (servers : List IceServer) (a : IceAdapter J)
      → n < size v
      → FirstServers n servers
      → IsUnreadable n
      → set_servers J v a ≡ (threw, record a { ice_servers = servers })
  unfolding set_servers
  set_servers_throws n servers a fits first unreadable =
      let left : ℕ = size v - suc n in
      let sizes : size v ≡ n + suc left = omega (arith, fits) in
      let kept : collect J (size v) 0 v ≡ record { servers = servers; failed = true } =
        ap (λ i. collect J i 0 v) sizes
        ∙ collect-FirstServers n (suc left) servers first
        ∙ ap (behind_servers servers) (collect_unreadable n left unreadable)
        ∙ ap (λ ss. record { servers = ss; failed = true }) (append-nil servers) in
      rw kept
