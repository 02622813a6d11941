-- ===== src/Testclient/Client/Pinging.antt =====
-- legacy_testclient/Testclient.cpp: a peer that is connected is pinged, in whatever order it is told of.
use ice_adapter.Base.{
  ℕ, ◌≡◌, refl, sym, subst, inl, inr, ℤ, ℤ_eq, ℤ_eq_refl, Bool, true, false, List, Option, none,
  some, if◌then◌else◌, ◌==◌,
}
use ice_adapter.Base.IntMap.{find, assign, erase}
use ice_adapter.Base.IntMap.Keys.{find_put, erase_sub}
use ice_adapter.Base.IntMap.Laws.{IsAscending}
use ice_adapter.Json.{JsonLib}
use ice_adapter.Testclient.Client.{Testclient}
use ice_adapter.Testclient.Client.Callbacks.{start_found}
use ice_adapter.Testclient.Pingtracker.{
  Pingtracker, PingPacket, start, on_ping_packet, answered, ping, pong,
}

module _ (J : JsonLib) (F : Type 0) (average : F → ℕ → ℕ → F) where
  abbrev Client : Type 0
  Client = Testclient J F average

  abbrev Trackers : Type 0
  Trackers = List (ℤ × Pingtracker F average)

  -- The trackers of the peers that are ready are active.
  abbrev pub AreActive : List (ℤ × Unit {0}) → Trackers → Type 0
  AreActive ready m =
      (peer : ℤ) (t : Pingtracker F average)
      → find peer ready ≡ some tt
      → find peer m ≡ some t
      → t.is_active ≡ true

  abbrev pub IsPinging : Client → Type 0
  IsPinging c =
      IsAscending c.peers_ready
      × IsAscending c.pingtrackers
      × AreActive c.peers_ready c.pingtrackers

  pub start_active : (t : Pingtracker F average) → (start F average t).is_active ≡ true
  unfolding start
  start_active t = refl

  pub put_active :
      (peer : ℤ) (t : Pingtracker F average) (ready : List (ℤ × Unit {0})) (m : Trackers)
      → (find peer ready ≡ some tt → t.is_active ≡ true)
      → AreActive ready m
      → AreActive ready (assign peer t m)
  put_active peer t ready m own h other u is_ready found = elim (find_put peer other t u m found) [
    | inl (same, new) ↦
        subst (λ (x : Pingtracker F average). x.is_active ≡ true) new
          (own (subst (λ k. find k ready ≡ some tt) (sym same) is_ready))
    | inr (differs, before) ↦ h other u is_ready before
  ]

  -- `onConnected` for a peer.
  pub ready_active :
      (peer : ℤ) (r : Option (Pingtracker F average)) (ready : List (ℤ × Unit {0})) (m : Trackers)
      → find peer m ≡ r
      → AreActive ready m
      → AreActive (assign peer tt ready) (start_found J F average peer r m)
  ready_active peer none ready m e h other u is_ready found =
      elim (find_put peer other tt tt ready is_ready) [
        | inl (same, new) ↦ absurd (let f = subst (λ k. find k m ≡ none) same e in cc)
        | inr (differs, before) ↦ h other u before found
      ]
  ready_active peer (some t) ready m e h other u is_ready found =
      elim (find_put peer other (start F average t) u m found) [
        | inl (same, new) ↦
            subst (λ (x : Pingtracker F average). x.is_active ≡ true) new (start_active t)
        | inr (differs, there) ↦ elim (find_put peer other tt tt ready is_ready) [
          | inl (same, new) ↦ absurd (
              let f = subst (λ k. ℤ_eq peer k ≡ false) (sym same) differs in
              let g = ℤ_eq_refl peer in cc)
          | inr (differs', before) ↦ h other u before there
        ]
      ]

  pub erase_active :
      (peer : ℤ) (ready : List (ℤ × Unit {0})) (m : Trackers)
      → IsAscending ready
      → IsAscending m
      → AreActive ready m
      → AreActive (erase peer ready) (erase peer m)
  erase_active peer ready m o p h other u is_ready found =
      h other u (erase_sub peer other tt ready o is_ready).1 (erase_sub peer other u m p found).1

  -- A packet leaves a tracker as active as it is.
  answered_active :
      (now : ℕ) (id : ℤ) (o : Option ℕ) (t : Pingtracker F average)
      → (answered F average now id o t).is_active ≡ t.is_active
  answered_active now id none t = refl
  answered_active now id (some sent) t = refl

  active-if :
      (b : Bool) (t u v : Pingtracker F average)
      → t.is_active ≡ v.is_active
      → u.is_active ≡ v.is_active
      → (if b then t else u).is_active ≡ v.is_active
  active-if true t u v e f = e
  active-if false t u v e f = f

  pub packet_active :
      (now : ℕ) (p : PingPacket) (t : Pingtracker F average)
      → (on_ping_packet F average now p t).is_active ≡ t.is_active
  unfolding on_ping_packet
  packet_active now p t =
      active-if (p.type == ping) _ _ t refl
        (active-if (p.type == pong) _ _ t (answered_active now _ _ t) refl)
