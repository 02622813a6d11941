-- ===== src/Adapter/Synced.antt =====
-- IceAdapter.cpp: every relay has the adapter's ICE servers and lobby port, and is kept under its
-- remote player's id.
use ice_adapter.Base.{◌≡◌, refl, inl, inr, ℤ, List, [], ◌∷◌, ◌++◌, All, Bool-cases, subst₃}
use ice_adapter.Json.{JsonLib}
use ice_adapter.GpgNet.Server.{has_connected_client, GpgNetServer}
use ice_adapter.Relay.State.{IceServer, PeerRelay, Run, ok, exited, threw, null_pointer}
use ice_adapter.Adapter.State.{IceAdapter, IceAdapterGameTask, Exec, continue, bind}
use ice_adapter.Adapter.Tasks.{
  TaskRun, blocked, failed, done, execute_task, execute_tasks, try_execute_game_tasks,
  queue_game_task,
}

module _ (J : JsonLib) where
  abbrev pub InSync : List IceServer → ℤ → ℤ × PeerRelay J → Type 0
  InSync servers port e =
      (e.1.ice_server_list ≡ servers) × (e.1.remote_player_id ≡ e.0) × (e.1.game_udp_port ≡ port)

  abbrev pub IsSynced : IceAdapter J → Type 0
  IsSynced a = All (InSync a.ice_servers a.lobby_port) a.relays

  -- What the execution of tasks leaves alone.
  abbrev pub SameConfig : IceAdapter J → IceAdapter J → Type 0
  SameConfig a b =
      (a.relays ≡ b.relays) × (a.ice_servers ≡ b.ice_servers) × (a.lobby_port ≡ b.lobby_port)

  execute_tasks-SameConfig :
      (ts : List IceAdapterGameTask) (a : IceAdapter J) → SameConfig a (execute_tasks J ts a).1
  unfolding execute_tasks
  execute_tasks-SameConfig [] a = (refl, refl, refl)
  execute_tasks-SameConfig (t ∷ ts) a =
      by_run (execute_task J t a) refl
        λ s. execute_tasks-SameConfig ts (record a { gpgnet_server = s; game_tasks = ts })
    where
      by_run :
          (r : TaskRun)
          → execute_task J t a ≡ r
          → ((s : GpgNetServer)
              → SameConfig a
                  (execute_tasks J ts (record a { gpgnet_server = s; game_tasks = ts })).1)
          → SameConfig a (execute_tasks J (t ∷ ts) a).1
      by_run blocked e ih = rw (e, execute_tasks) (refl, refl, refl)
      by_run failed e ih = rw (e, execute_tasks) (refl, refl, refl)
      by_run (done s) e ih = rw (e, execute_tasks) (ih s)

  pub try_execute-SameConfig : (a : IceAdapter J) → SameConfig a (try_execute_game_tasks J a).1
  unfolding try_execute_game_tasks
  try_execute-SameConfig a = elim (Bool-cases (has_connected_client a.gpgnet_server)) [
    | inl e ↦ rw e (execute_tasks-SameConfig a.game_tasks a)
    | inr e ↦ rw e (refl, refl, refl)
  ]

  pub queue-SameConfig :
      (t : IceAdapterGameTask) (a : IceAdapter J) → SameConfig a (queue_game_task J t a).1
  unfolding queue_game_task
  queue-SameConfig t a = try_execute-SameConfig (record a { game_tasks = a.game_tasks ++ (t ∷ []) })

  pub IsSynced-SameConfig : (a b : IceAdapter J) → SameConfig a b → IsSynced a → IsSynced b
  IsSynced-SameConfig a b (r, s, p) h =
      subst₃ (λ relays servers port. All (InSync servers port) relays) r s p h

  -- A call keeps the relays in step with the adapter, however it ends.
  abbrev pub KeepsSync {ℓ} : {A : Type ℓ} → Exec J A → Type 0
  KeepsSync m = (a : IceAdapter J) → IsSynced a → IsSynced (m a).1

  pub KeepsSync-bind {ℓ κ} :
      {A : Type ℓ} {B : Type κ} (m : Exec J A) (f : A → Exec J B)
      → KeepsSync m
      → ((x : A) → KeepsSync (f x))
      → KeepsSync (bind J m f)
  KeepsSync-bind {A = A} m f km kf a h = go (m a).0 (m a).1 (km a h)
    where
      go : (r : Run A) (b : IceAdapter J) → IsSynced b → IsSynced (continue J r f b).1
      go (ok x) b k = kf x b k
      go exited b k = k
      go threw b k = k
      go null_pointer b k = k

  pub KeepsSync-queue : (t : IceAdapterGameTask) → KeepsSync (queue_game_task J t)
  KeepsSync-queue t a h = IsSynced-SameConfig a (queue_game_task J t a).1 (queue-SameConfig t a) h
