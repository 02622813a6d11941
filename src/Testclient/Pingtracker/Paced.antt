-- ===== src/Testclient/Pingtracker/Paced.antt =====
-- legacy_testclient/Pingtracker.cpp: how many pings wait.
use ice_adapter.Base.{
  ℕ, ◌+◌, ◌*◌, ◌≤◌, refl, inl, inr, ℤ, pos, ℤ_eq, Bool, true, false, List, [], ◌∷◌, ◌++◌, Option,
  none, some, All, All-append, ltb, if◌then◌else◌, length, arith, Bool-cases, ◌==◌, int32_of,
}
use ice_adapter.Base.IntMap.{find, erase}
use ice_adapter.Base.IntMap.Laws.{All-erase}
use ice_adapter.Testclient.Pingtracker.{
  PingPacket, Pingtracker, create, start, on_ping_timer, on_ping_packet, answered, update, expire,
  ping, pong,
}
use ice_adapter.Testclient.Pingtracker.Counts.{
  Event, Clocked, passes, starts, pings, updates, receives, step, run, IsInOrder, run-IsInOrder,
  step-IsInOrder,
}
use ice_adapter.Testclient.Pingtracker.Waiting.{
  AllFrom, assign-AllBelow, AllRecent, All-expire, expire-AllRecent,
}

-- The pings that wait were sent at least 95 milliseconds apart.
abbrev pub IsSpaced : List (ℤ × ℕ) → Type 0
IsSpaced [] = Unit {0}
IsSpaced ((i, t) ∷ m) = AllFrom (t + 95) m × IsSpaced m

-- The pings were sent some time ago.
abbrev pub AllBefore : ℕ → ℕ → List (ℤ × ℕ) → Type 0
AllBefore gap now m = All (λ e. e.1 + gap ≤ now) m

erase-IsSpaced : (k : ℤ) (m : List (ℤ × ℕ)) → IsSpaced m → IsSpaced (erase k m)
unfolding erase
erase-IsSpaced k [] h = tt
erase-IsSpaced k ((j, t) ∷ m) h = elim (Bool-cases (ℤ_eq j k)) [
  | inl e ↦ rw (e, erase) h.1
  | inr e ↦ rw (e, erase) (All-erase (λ e. t + 95 ≤ e.1) k m h.0, erase-IsSpaced k m h.1)
]

expire-IsSpaced : (now : ℕ) (m : List (ℤ × ℕ)) → IsSpaced m → IsSpaced (expire now m).0
unfolding expire
expire-IsSpaced now [] h = tt
expire-IsSpaced now ((i, t) ∷ m) h = elim (Bool-cases (ltb (t + 5000) now)) [
  | inl e ↦ rw (e, expire) (expire-IsSpaced now m h.1)
  | inr e ↦ rw (e, expire) h
]

append-IsSpaced :
    (i : ℤ) (gap now : ℕ) (m : List (ℤ × ℕ))
    → 95 ≤ gap
    → IsSpaced m
    → AllBefore gap now m
    → IsSpaced (m ++ ((i, now) ∷ []))
append-IsSpaced i gap now [] l h u = (tt, tt)
append-IsSpaced i gap now ((j, t) ∷ m) l h u = (
  All-append (λ e. t + 95 ≤ e.1) m ((i, now) ∷ []) h.0 (omega (arith, l, u.0), tt),
  append-IsSpaced i gap now m l h.1 u.1,
)

AllBefore-now : (gap now : ℕ) (m : List (ℤ × ℕ)) → AllBefore gap now m → AllBefore 0 now m
AllBefore-now gap now [] h = tt
AllBefore-now gap now ((i, t) ∷ m) h = (omega (arith, h.0), AllBefore-now gap now m h.1)

AllBefore-later :
    (gap now d : ℕ) (m : List (ℤ × ℕ)) → AllBefore gap now m → AllBefore (gap + d) (now + d) m
AllBefore-later gap now d [] h = tt
AllBefore-later gap now d ((i, t) ∷ m) h = (omega (arith, h.0), AllBefore-later gap now d m h.1)

-- From the first ping that waits on, each takes its 95 milliseconds.
spaced_fit :
    (now t : ℕ) (i : ℤ) (m : List (ℤ × ℕ))
    → t ≤ now
    → IsSpaced ((i, t) ∷ m)
    → AllBefore 0 now m
    → t + 95 * length m ≤ now
spaced_fit now t i [] l h u = omega (arith, l)
spaced_fit now t i ((j, s) ∷ m) l h u =
    let rest = spaced_fit now s j m (omega (arith, u.0)) h.1 u.1 in omega (arith, rest, h.0.0)

spaced_few :
    (now : ℕ) (m : List (ℤ × ℕ)) → IsSpaced m → AllBefore 0 now m → AllRecent now m → length m ≤ 53
spaced_few now [] h u r = omega arith
spaced_few now ((i, t) ∷ m) h u r =
    omega (arith, spaced_fit now t i m (omega (arith, u.0)) h u.1, r.0)

module _ (F : Type 0) (average : F → ℕ → ℕ → F) where
  -- The ping timer fires at least 95 milliseconds after it last did, which was so long before.
  abbrev pub IsPaced : ℕ → List (Event F average) → Type 0
  IsPaced gap [] = Unit {0}
  IsPaced gap (passes d ∷ es) = IsPaced (gap + d) es
  IsPaced gap (starts ∷ es) = IsPaced gap es
  IsPaced gap (pings ∷ es) = (95 ≤ gap) × IsPaced 0 es
  IsPaced gap (updates ∷ es) = IsPaced gap es
  IsPaced gap (receives p ∷ es) = IsPaced gap es

  abbrev StaySpaced : ℕ → ℕ → Pingtracker F average → Type 0
  StaySpaced gap now t = IsSpaced t.pending_pings × AllBefore gap now t.pending_pings

  ping-AreSpaced :
      (gap now : ℕ) (t : Pingtracker F average)
      → 95 ≤ gap
      → IsInOrder F average now t
      → StaySpaced gap now t
      → StaySpaced 0 now (on_ping_timer F average now t)
  unfolding on_ping_timer
  ping-AreSpaced gap now t l order (spaced, before) =
      rw (assign-AllBelow t.current_ping_id now t.pending_pings order.1) (
        append-IsSpaced (pos t.current_ping_id) gap now t.pending_pings l spaced before,
        All-append (λ e. e.1 + 0 ≤ now) t.pending_pings ((pos t.current_ping_id, now) ∷ [])
            (AllBefore-now gap now t.pending_pings before) (omega arith, tt),
      )

  answered-StaySpaced :
      (gap now : ℕ) (id : ℤ) (o : Option ℕ) (t : Pingtracker F average)
      → StaySpaced gap now t
      → StaySpaced gap now (answered F average now id o t)
  answered-StaySpaced gap now id none t h = h
  answered-StaySpaced gap now id (some sent) t (spaced, before) = (
    erase-IsSpaced id t.pending_pings spaced,
    All-erase (λ e. e.1 + gap ≤ now) id t.pending_pings before,
  )

  packet-StaySpaced :
      (gap now : ℕ) (p : PingPacket) (t : Pingtracker F average)
      → StaySpaced gap now t
      → StaySpaced gap now (on_ping_packet F average now p t)
  unfolding on_ping_packet
  packet-StaySpaced gap now p t h = elim (Bool-cases (p.type == ping)) [
    | inl e ↦ rw (e, on_ping_packet) h
    | inr e ↦ elim (Bool-cases (p.type == pong)) [
      | inl k ↦
          rw (e, k, on_ping_packet)
            (answered-StaySpaced gap now (int32_of p.ping_id)
              (find (int32_of p.ping_id) t.pending_pings) t h)
      | inr k ↦ rw (e, k, on_ping_packet) h
    ]
  ]

  update-StaySpaced :
      (gap now : ℕ) (t : Pingtracker F average)
      → StaySpaced gap now t
      → StaySpaced gap now (update F average now t)
  unfolding update
  update-StaySpaced gap now t (spaced, before) = (
    expire-IsSpaced now t.pending_pings spaced,
    All-expire (λ e. e.1 + gap ≤ now) now t.pending_pings before,
  )

  StaySpaced-if :
      (b : Bool) (gap now : ℕ) (t u : Pingtracker F average)
      → StaySpaced 0 now t
      → StaySpaced gap now u
      → StaySpaced 0 now (if b then t else u)
  StaySpaced-if true gap now t u h k = h
  StaySpaced-if false gap now t u h (spaced, before) =
      (spaced, AllBefore-now gap now u.pending_pings before)

  run-AreSpaced :
      (es : List (Event F average)) (gap : ℕ) (c : Clocked F average)
      → IsPaced gap es
      → IsInOrder F average c.now c.tracker
      → StaySpaced gap c.now c.tracker
      → StaySpaced 0 (run F average es c).now (run F average es c).tracker
  unfolding start
  run-AreSpaced [] gap c paced order (spaced, before) =
      (spaced, AllBefore-now gap c.now c.tracker.pending_pings before)
  run-AreSpaced (passes d ∷ es) gap c paced order (spaced, before) =
      run-AreSpaced es (gap + d) (step F average (passes d) c) paced
        (step-IsInOrder F average (passes d) c order)
        (spaced, AllBefore-later gap c.now d c.tracker.pending_pings before)
  run-AreSpaced (starts ∷ es) gap c paced order h =
      run-AreSpaced es gap (step F average starts c) paced (step-IsInOrder F average starts c order)
        h
  run-AreSpaced (pings ∷ es) gap c paced order h =
      run-AreSpaced es 0 (step F average pings c) paced.1 (step-IsInOrder F average pings c order) (
        StaySpaced-if c.tracker.is_active gap c.now (on_ping_timer F average c.now c.tracker)
          c.tracker (ping-AreSpaced gap c.now c.tracker paced.0 order h) h)
  run-AreSpaced (updates ∷ es) gap c paced order h =
      run-AreSpaced es gap (step F average updates c) paced
        (step-IsInOrder F average updates c order) (update-StaySpaced gap c.now c.tracker h)
  run-AreSpaced (receives p ∷ es) gap c paced order h =
      run-AreSpaced es gap (step F average (receives p) c) paced
        (step-IsInOrder F average (receives p) c order) (packet-StaySpaced gap c.now p c.tracker h)

  -- Where the ping timer of a new tracker fires at least 95 milliseconds after it last did, as a coarse
  -- timer of 100 milliseconds does: at most 53 pings wait after an update, so that its warning for more
  -- than 60 is never given.
  pub few_pings_wait :
      (es : List (Event F average)) (gap now : ℕ) (zero_ping : F) (local_peer_id remote_peer_id : ℤ)
      → IsPaced gap es
      → let c = run F average es (record {
        now = now;
        tracker = create F average zero_ping local_peer_id remote_peer_id;
      }) in
        length (update F average c.now c.tracker).pending_pings ≤ 53
  unfolding update
  few_pings_wait es gap now zero_ping local_peer_id remote_peer_id paced =
      let start_clock : Clocked F average = record {
        now = now;
        tracker = create F average zero_ping local_peer_id remote_peer_id;
      } in
      let c = run F average es start_clock in
      let (spaced, before) = run-AreSpaced es gap start_clock paced (refl, tt, tt, tt) (tt, tt) in
      let (counted, below, timely, until) =
        run-IsInOrder F average es start_clock (refl, tt, tt, tt) in
      let m = c.tracker.pending_pings in
      spaced_few c.now (expire c.now m).0 (expire-IsSpaced c.now m spaced)
        (All-expire (λ e. e.1 + 0 ≤ c.now) c.now m before) (expire-AllRecent c.now m timely)
