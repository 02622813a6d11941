-- ===== src/Adapter/Servers.antt =====
-- IceAdapter.cpp `setIceServers`: the list is read from JSON and handed to every relay.
use ice_adapter.Base.{
  ℕ, zero, suc, ℤ, Bytes, Bool, true, false, List, [], ◌∷◌, Option, none, some, codes,
  if◌then◌else◌,
}
use ice_adapter.Json.{JsonLib, is_array, is_object}
use ice_adapter.GpgNet.Message.{◌>>?◌}
use ice_adapter.Relay.State.{IceServer, PeerRelay, ok, threw}
use ice_adapter.Relay.Close.{set_ice_servers}
use ice_adapter.Relay.Connection.{text_of}
use ice_adapter.Adapter.State.{Exec}

-- What the loop has stored when it ends, and whether it ends by an exception.
pub record Collected : Type 0 where
  pub servers : List IceServer
  pub failed : Bool

abbrev pub with_server : IceServer → Collected → Collected
with_server s c = record c { servers = s ∷ c.servers }

module _ (J : JsonLib) where
  open J use {Value, value_type, as_string, size, at, member}

  -- The strings of an array, from an index on; the first argument counts the elements left.
  unfoldable pub strings : ℕ → ℕ → Value → Option (List Bytes)
  strings zero i v = some []
  strings (suc n) i v = as_string (at v i) >>? λ s. strings n (suc i) v >>? λ ss. some (s ∷ ss)

  -- `serverJson["urls"]`, if it is an array.
  unfoldable pub urls_of : Value → Option (List Bytes)
  unfolding strings
  urls_of v = if is_array (value_type v) then strings (size v) 0 v else some []

  unfoldable pub ice_server_of : Value → Option IceServer
  unfolding urls_of
  ice_server_of v = text_of J v (codes "url") >>? λ uri. member v (codes "urls") >>? λ urls_value.
      urls_of urls_value >>? λ urls. text_of J v (codes "credential") >>? λ password.
      text_of J v (codes "username") >>? λ username.
      some (record { uri = uri; urls = urls; username = username; password = password })

  -- Elements that are no objects are skipped.
  unfoldable pub collect : ℕ → ℕ → Value → Collected
  collect zero i v = record { servers = []; failed = false }
  collect (suc n) i v =
      let rest = collect n (suc i) v in
      if is_object (value_type (at v i))
      then elim (ice_server_of (at v i)) [
        | none ↦ record { servers = []; failed = true }
        | some s ↦ with_server s rest
      ]
      else rest

  unfoldable pub set_all : List IceServer → List (ℤ × PeerRelay J) → List (ℤ × PeerRelay J)
  set_all servers [] = []
  set_all servers ((k, r) ∷ m) = (k, set_ice_servers J servers r) ∷ set_all servers m

  -- `setIceServers`.
  unfoldable pub set_servers : Value → Exec J (Unit {0})
  set_servers servers a =
      let c = collect (size servers) 0 servers in
      let stored = record a { ice_servers = c.servers } in
      if c.failed
      then (threw, stored)
      else (ok tt, record stored { relays = set_all c.servers a.relays })
