-- ===== src/Media/Logic/Cleanup.antt =====
-- What becomes of the sessions of a connection that is lost.
use sync_rtc.Prelude.{
  ℕ, ◌≡◌, ◌≢◌, refl, sym, ap, subst, ◌∙◌, ◌⊎◌, inl, inr, Bool, true, false, not, ◌&&◌, Option, none,
  some, List, [], ◌∷◌, ◌==◌, if◌then◌else◌, arith, Bool-cases,
}
use sync_rtc.Prelude.Assoc.{Assoc, lookup, lookup-assign, lookup-erase}
use sync_rtc.Prelude.Distinct.{contains}
use sync_rtc.Media.MediaSession.{MediaSession, remove_outgoing_tracks}
use sync_rtc.Media.Room.{
  MediaRoom, MediaPeer, session_of, peer_session, remove_peer, removed, has_instance,
  sessions_for_connection, add_for_connection,
}
use sync_rtc.Media.Room.Consistency.{session_of-removed}
use sync_rtc.Media.Logic.{
  MediaServer, or_gone, put_room, remove_sessions, disconnect_in, handle_signal_disconnected,
}
use sync_rtc.Media.Logic.Rooms.{GoodOrGone}
use sync_rtc.Media.Logic.Invariant.{IsSound}

-- A session of the member `u` with this instance stands in the list.
abbrev Listed : ℕ → ℕ → List MediaSession → Type 0
Listed u id [] = ⊥
Listed u id (x ∷ xs) = ((x.uid ≡ u) × (x.instance_id ≡ id)) ⊎ Listed u id xs

-- The members with a session on the connection are among those of the list.
abbrev OnlyIn : ℕ → List MediaSession → MediaRoom → Type 0
OnlyIn c ss room =
    (u : ℕ) (s : MediaSession)
    → session_of u room ≡ some s
    → s.connection ≡ c
    → Listed u s.instance_id ss

module _ (c u : ℕ) (s : MediaSession) (own : s.uid ≡ u) (on : s.connection ≡ c) where
  snapshot_step :
      (k : ℕ) (o next : Option MediaSession) (rest : List MediaSession)
      → (next ≡ some s → Listed u s.instance_id rest)
      → (if k == u then o else next) ≡ some s
      → Listed u s.instance_id (add_for_connection c o rest)
  snapshot_step k none next rest ih h = elim (Bool-cases (k == u)) [
    | inl t ↦ absurd (ground arith)
    | inr t ↦ ih (ground arith)
  ]
  snapshot_step k (some y) next rest ih h = elim (Bool-cases (k == u)) [
    | inl t ↦
        let e : y ≡ s = ground arith in
        let here : (y.connection == c) ≡ true = ground (arith, e, on) in
        rw here (inl (ground (arith, e, own), ground (arith, e)))
    | inr t ↦ elim (Bool-cases (y.connection == c)) [
      | inl a ↦ rw a (inr (ih (ground arith)))
      | inr a ↦ rw a (ih (ground arith))
    ]
  ]

  snapshot :
      (m : Assoc MediaPeer)
      → peer_session (lookup u m) ≡ some s
      → Listed u s.instance_id (sessions_for_connection c m)
  unfolding lookup sessions_for_connection
  snapshot [] h = absurd (ground arith)
  snapshot ((k, peer) ∷ m) h =
      snapshot_step k peer.session (peer_session (lookup u m)) (sessions_for_connection c m)
        (snapshot m) (sym (chosen k peer m) ∙ h)
    where
      chosen :
          (k : ℕ) (peer : MediaPeer) (m : Assoc MediaPeer)
          → peer_session (if k == u then some peer else lookup u m)
            ≡ (if k == u then peer.session else peer_session (lookup u m))
      chosen k peer m = ground arith

module _ (c : ℕ) (x : MediaSession) (xs : List MediaSession) (room : MediaRoom)
    (only : OnlyIn c (x ∷ xs) room) where
  -- A member that is left after the removal was there, under the same instance and connection.
  left_over :
      (u : ℕ) (s : MediaSession)
      → session_of u (removed x.uid room) ≡ some s
      → (t : MediaSession) × (session_of u room ≡ some t)
        × (t.instance_id ≡ s.instance_id)
        × (t.connection ≡ s.connection)
        × (x.uid ≢ u)
  unfolding remove_outgoing_tracks
  left_over u s h = go (session_of u room) refl
    where
      go :
          (o : Option MediaSession)
          → session_of u room ≡ o
          → (t : MediaSession) × (session_of u room ≡ some t)
            × (t.instance_id ≡ s.instance_id)
            × (t.connection ≡ s.connection)
            × (x.uid ≢ u)
      go none e = absurd (ground (arith, e, session_of-removed x.uid u room))
      go (some t) e = (
        t,
        e,
        ground (arith, e, session_of-removed x.uid u room),
        ground (arith, e, session_of-removed x.uid u room),
        ground (arith, e, session_of-removed x.uid u room),
      )

  removed-OnlyIn : OnlyIn c xs (removed x.uid room)
  removed-OnlyIn u s h on =
      let (t, e, i, o, d) = left_over u s h in
      elim (only u t e (o ∙ on)) [
        | inl (same, _) ↦ absurd (d same)
        | inr l ↦ subst (λ id. Listed u id xs) i l
      ]

  kept-OnlyIn : (has_instance x.instance_id (session_of x.uid room)) ≡ false → OnlyIn c xs room
  kept-OnlyIn stale u s h on = elim (only u s h on) [
    | inl (same, id) ↦ absurd (ground (arith, ap (λ w. session_of w room) same ∙ h))
    | inr l ↦ l
  ]

  remove-OnlyIn : OnlyIn c xs (remove_peer x.uid x.instance_id room)
  unfolding remove_peer
  remove-OnlyIn =
      go (not (x.instance_id == 0) && not (has_instance x.instance_id (session_of x.uid room))) refl
    where
      go :
          (b : Bool)
          → (not (x.instance_id == 0) && not (has_instance x.instance_id (session_of x.uid room)))
            ≡ b
          → OnlyIn c xs (if b then room else removed x.uid room)
      go true e = kept-OnlyIn (ground arith)
      go false e = removed-OnlyIn

remove_sessions-OnlyIn :
    (c : ℕ) (ss : List MediaSession) (room : MediaRoom)
    → OnlyIn c ss room
    → OnlyIn c [] (remove_sessions ss room)
unfolding remove_sessions
remove_sessions-OnlyIn c [] room only = only
remove_sessions-OnlyIn c (x ∷ xs) room only =
    remove_sessions-OnlyIn c xs _ (remove-OnlyIn c x xs room only)

-- No member of the meeting has a session on the connection.
abbrev pub IsRid : ℕ → ℕ → MediaServer → Type 0
IsRid m c srv =
    (room : MediaRoom) (u : ℕ) (s : MediaSession)
    → lookup m srv.rooms ≡ some room
    → session_of u room ≡ some s
    → s.connection ≢ c

-- Once the worker of a meeting has handled the loss of a stopped connection, no member of the
-- meeting has a session on it.
pub disconnected-IsRid :
    (m c : ℕ) (srv : MediaServer)
    → IsSound srv
    → contains srv.stopped c ≡ true
    → IsRid m c (handle_signal_disconnected m c srv)
unfolding handle_signal_disconnected
disconnected-IsRid m c srv v gone = rw gone (go (lookup m srv.rooms) refl (v.good m))
  where
    stands : (after room : MediaRoom) → or_gone after ≡ some room → after ≡ room
    stands after room h = ground (arith, h)

    put :
        (o : Option MediaRoom)
        → ((room : MediaRoom) → o ≡ some room → OnlyIn c [] room)
        → IsRid m c (put_room m o srv)
    put none none_left room u s h k on = absurd (ground (arith, lookup-erase m m srv.rooms))
    put (some r) none_left room u s h k on =
        none_left r refl u s (ground (arith, lookup-assign m m r srv.rooms)) on

    go :
        (o : Option MediaRoom)
        → lookup m srv.rooms ≡ o
        → GoodOrGone o
        → IsRid m c (disconnect_in m c o srv)
    go none e g = λ room u s h k on. absurd (ground (arith, e, h))
    go (some r) e g =
        let after : MediaRoom = remove_sessions (sessions_for_connection c r.peers) r in
        let clean : OnlyIn c [] after =
          remove_sessions-OnlyIn c (sessions_for_connection c r.peers) r
            (λ u s h on. snapshot c u s (g.consistent.filed u s h) on r.peers h) in
        put (or_gone after) (λ room h. subst (OnlyIn c []) (stands after room h) clean)
