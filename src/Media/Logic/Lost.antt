-- ===== src/Media/Logic/Lost.antt =====
-- A connection that has stopped gets no session any more.
use sync_rtc.Prelude.{
  ℕ, ◌≡◌, ◌≢◌, refl, sym, ap, subst, ◌∙◌, inl, inr, Bool, true, false, Option, none, some, List, [],
  ◌∷◌, ◌==◌, if◌then◌else◌, arith, Bool-cases,
}
use sync_rtc.Prelude.Assoc.{lookup, lookup-assign, lookup-erase}
use sync_rtc.Prelude.Distinct.{contains}
use sync_rtc.Media.MediaSession.{MediaType, MediaSession, new_media_session}
use sync_rtc.Media.Room.{MediaRoom, session_of, sessions_for_connection}
use sync_rtc.Media.Room.Registration.{Binding, register_publisher_track}
use sync_rtc.Media.Room.Membership.{
  NoneJoined, NoneJoined-refl, NoneJoined-trans, remove_peer-NoneJoined,
  register_publisher_track-NoneJoined,
}
use sync_rtc.Media.Logic.{
  MediaServer, MediaSignal, OfferAnswer, MediaEvent, offer, answer, candidate, leave, track_ready,
  disconnected, stops, remove_session, put_room, belongs, room_or_new, admit, made, make_session,
  offer_session, handle_offer, on_session, in_room, handle_member, apply_answer, apply_candidate,
  apply_leave, is_ready, after_registration, ready_in, handle_publisher_track_ready,
  remove_sessions, disconnect_in, handle_signal_disconnected, unless_stopped, handle_room_event,
}
use sync_rtc.Media.Logic.Rooms.{
  GoodOrGone, initial_answer-SameButFlags, remote_answer-SameButFlags, Admitted, admit-Admitted,
  session_of-add_peer,
}
use sync_rtc.Media.Logic.Invariant.{IsSound, room_or_new-IsConsistent}
use sync_rtc.Media.Logic.Cleanup.{IsRid}
use sync_rtc.Media.Logic.Rid.{
  RidRoom, RidOrGone, NoneJoined-RidRoom, or_gone-RidOrGone, remove_session-RidOrGone,
  apply-RidOrGone, add_peer-RidRoom, new_room-RidRoom,
}

some_injective : (a b : MediaServer) → some a ≡ some b → a ≡ b
some_injective a b h = ground (arith, h)

module _ (c : ℕ) where
  -- What holds of one meeting.
  module _ (m : ℕ) where
    abbrev Rid : MediaServer → Type 0
    Rid srv = (RidOrGone c) (lookup m srv.rooms)

    come_out : (a b : MediaServer) → some a ≡ some b → Rid a → Rid b
    come_out a b h rid = subst Rid (some_injective a b h) rid

    put_room-Rid :
        (k : ℕ) (o : Option MediaRoom) (srv : MediaServer)
        → (k ≡ m → (RidOrGone c) o)
        → Rid srv
        → Rid (put_room k o srv)
    put_room-Rid k none srv new rid = elim (Bool-cases (k == m)) [
      | inl t ↦ rw (lookup-erase k m srv.rooms, t) tt
      | inr t ↦ rw (lookup-erase k m srv.rooms, t) rid
    ]
    put_room-Rid k (some room) srv new rid = elim (Bool-cases (k == m)) [
      | inl t ↦ rw (lookup-assign k m room srv.rooms, t) (new (ground arith))
      | inr t ↦ rw (lookup-assign k m room srv.rooms, t) rid
    ]

    module _ (connection : ℕ) (q : MediaSignal) (a : OfferAnswer) (srv : MediaServer)
        (v : IsSound srv) (rid : Rid srv) (other : connection ≢ c) where
      here : q.meeting_id ≡ m → (RidOrGone c) (lookup q.meeting_id srv.rooms)
      here e = subst (λ k. (RidOrGone c) (lookup k srv.rooms)) (sym e) rid

      room_or_new-RidRoom :
          (o : Option MediaRoom) → (RidOrGone c) o → (RidRoom c) (room_or_new q.meeting_id o)
      room_or_new-RidRoom none r = (new_room-RidRoom c) q.meeting_id
      room_or_new-RidRoom (some room) r = r

      admit-RidRoom :
          (o : Option MediaSession) (room : MediaRoom)
          → (RidRoom c) room
          → (RidRoom c) (admit connection q o room).0
      unfolding admit
      admit-RidRoom none room r = r
      admit-RidRoom (some s) room r = elim (Bool-cases (belongs connection q.signal_id s)) [
        | inl t ↦ rw t r
        | inr t ↦ rw t ((NoneJoined-RidRoom c) room _ (remove_peer-NoneJoined q.uid 0 room) r)
      ]

      make_session-Rid :
          (room : MediaRoom)
          → (q.meeting_id ≡ m → (RidRoom c) room)
          → Rid (make_session connection q a room srv)
      unfolding new_media_session
      make_session-Rid room r =
          let s = made connection q srv.next_session_id in
          elim (Bool-cases a.constructs) [
            | inl t ↦ rw t (
                put_room-Rid q.meeting_id _ _
                  (λ e.
                    (apply-RidOrGone c) a.applies s _ _ (initial_answer-SameButFlags s)
                      (session_of-add_peer q.uid s room)
                      ((add_peer-RidRoom c) q.uid s room other (r e)))
                  rid)
            | inr t ↦ rw t (
                put_room-Rid q.meeting_id _ _ (λ e. (remove_session-RidOrGone c) none room (r e))
                  rid)
          ]

      offer_session-Rid :
          (x : MediaRoom × Option MediaSession)
          → Admitted q.uid x
          → (q.meeting_id ≡ m → (RidRoom c) x.0)
          → Rid (offer_session connection q a x srv)
      offer_session-Rid (room, none) h r = make_session-Rid room r
      offer_session-Rid (room, some s) h r =
          put_room-Rid q.meeting_id _ srv
            (λ e. (apply-RidOrGone c) a.applies s _ room (initial_answer-SameButFlags s) h.1 (r e))
            rid

      handle_offer-Rid : Rid (handle_offer connection q a srv)
      unfolding handle_offer
      handle_offer-Rid =
          let room = room_or_new q.meeting_id (lookup q.meeting_id srv.rooms) in
          offer_session-Rid (admit connection q (session_of q.uid room) room)
            (admit-Admitted connection q (session_of q.uid room) room refl (
              room_or_new-IsConsistent connection q a srv v (lookup q.meeting_id srv.rooms)
                (v.good q.meeting_id)))
            (λ e.
              admit-RidRoom (session_of q.uid room) room
                (room_or_new-RidRoom (lookup q.meeting_id srv.rooms) (here e)))

    module _ (connection : ℕ) (q : MediaSignal) (srv : MediaServer) (v : IsSound srv)
        (rid : Rid srv) where
      handle_member-Rid :
          (f : MediaSession → MediaRoom → Option MediaRoom)
          → ((s : MediaSession) (room : MediaRoom)
              → session_of s.uid room ≡ some s
              → (RidRoom c) room
              → (RidOrGone c) (f s room))
          → Rid (handle_member connection q f srv)
      unfolding handle_member
      handle_member-Rid f keep = go (lookup q.meeting_id srv.rooms) refl (v.good q.meeting_id)
        where
          go :
              (o : Option MediaRoom)
              → lookup q.meeting_id srv.rooms ≡ o
              → GoodOrGone o
              → Rid (in_room connection q f o srv)
          go none e g = rid
          go (some room) e g = member (session_of q.uid room) refl
            where
              member :
                  (o : Option MediaSession)
                  → session_of q.uid room ≡ o
                  → Rid (on_session connection q f o room srv)
              member none h = rid
              member (some s) h = elim (Bool-cases (belongs connection q.signal_id s)) [
                | inl t ↦ rw t (
                    put_room-Rid q.meeting_id _ srv
                      (λ k.
                        keep s room (ap (λ u. session_of u room) (g.consistent.filed q.uid s h) ∙ h)
                          (subst (RidOrGone c) e
                            (subst (λ j. (RidOrGone c) (lookup j srv.rooms)) (sym k) rid)))
                      rid)
                | inr t ↦ rw t rid
              ]

    ready_in-Rid :
        (k uid session_id : ℕ) (media : MediaType) (add_throws : Binding → Bool)
        (offer_throws : ℕ → Bool) (o : Option MediaRoom) (srv srv' : MediaServer)
        → GoodOrGone o
        → (k ≡ m → (RidOrGone c) o)
        → Rid srv
        → ready_in k uid session_id media add_throws offer_throws o srv ≡ some srv'
        → Rid srv'
    ready_in-Rid k uid session_id media add_throws offer_throws none srv srv' g new rid h =
        come_out srv srv' h rid
    ready_in-Rid k uid session_id media add_throws offer_throws (some room) srv srv' g new rid h =
        branch (is_ready session_id srv.stopped (session_of uid room)) h
      where
        registered :
            (o : Option MediaRoom)
            → register_publisher_track add_throws offer_throws uid media room ≡ o
            → after_registration k o srv ≡ some srv'
            → Rid srv'
        registered none e h = absurd (ground arith)
        registered (some room') e h = come_out _ srv' h (
            put_room-Rid k (remove_session none room') srv
              (λ j. (remove_session-RidOrGone c) none room' (
                (NoneJoined-RidRoom c) room room'
                  (register_publisher_track-NoneJoined add_throws offer_throws uid media room room'
                    g.consistent.filed e)
                  (new j)))
              rid)

        branch :
            (b : Bool)
            → (if b
                then after_registration k
                    (register_publisher_track add_throws offer_throws uid media room)
                    srv
                else some srv)
              ≡ some srv'
            → Rid srv'
        branch true h = registered _ refl h
        branch false h = come_out srv srv' h rid

    remove_sessions-NoneJoined :
        (ss : List MediaSession) (room : MediaRoom) → NoneJoined room (remove_sessions ss room)
    unfolding remove_sessions
    remove_sessions-NoneJoined [] room = NoneJoined-refl room
    remove_sessions-NoneJoined (s ∷ ss) room =
        NoneJoined-trans room _ _ (remove_peer-NoneJoined s.uid s.instance_id room)
          (remove_sessions-NoneJoined ss _)

    disconnected-Rid :
        (k d : ℕ) (srv : MediaServer) → Rid srv → Rid (handle_signal_disconnected k d srv)
    unfolding handle_signal_disconnected
    disconnected-Rid k d srv rid = elim (Bool-cases (contains srv.stopped d)) [
      | inl t ↦ rw t (go (lookup k srv.rooms) refl)
      | inr t ↦ rw t rid
    ]
      where
        go : (o : Option MediaRoom) → lookup k srv.rooms ≡ o → Rid (disconnect_in k d o srv)
        go none e = rid
        go (some room) e =
            put_room-Rid k _ srv
              (λ j. (or_gone-RidOrGone c) _ (
                (NoneJoined-RidRoom c) room _
                  (remove_sessions-NoneJoined (sessions_for_connection d room.peers) room)
                  (subst (RidOrGone c) e
                    (subst (λ i. (RidOrGone c) (lookup i srv.rooms)) (sym j) rid))))
              rid

    unless_stopped-Rid :
        (d : ℕ) (f : MediaServer → MediaServer) (srv srv' : MediaServer)
        → contains srv.stopped c ≡ true
        → Rid srv
        → (d ≢ c → Rid (f srv))
        → unless_stopped d f srv ≡ some srv'
        → Rid srv'
    unless_stopped-Rid d f srv srv' gone rid next h = go (contains srv.stopped d) refl h
      where
        go :
            (b : Bool)
            → contains srv.stopped d ≡ b
            → some (if b then srv else f srv) ≡ some srv'
            → Rid srv'
        go true t h = come_out srv srv' h rid
        go false t h = come_out (f srv) srv' h (next (λ e. ground (arith, e, gone, t)))

    event-Rid :
        (e : MediaEvent) (srv srv' : MediaServer)
        → IsSound srv
        → contains srv.stopped c ≡ true
        → Rid srv
        → handle_room_event e srv ≡ some srv'
        → Rid srv'
    unfolding handle_room_event handle_publisher_track_ready
    event-Rid (offer d q a) srv srv' v gone rid h =
        unless_stopped-Rid d (handle_offer d q a) srv srv' gone rid
          (λ other. handle_offer-Rid d q a srv v rid other) h
    event-Rid (answer d q applies) srv srv' v gone rid h =
        unless_stopped-Rid d (handle_member d q (apply_answer applies)) srv srv' gone rid
          (λ other.
            handle_member-Rid d q srv v rid (apply_answer applies) (λ s room e r.
              (apply-RidOrGone c) applies s _ room (remote_answer-SameButFlags s) e r))
          h
    event-Rid (candidate d q true) srv srv' v gone rid h =
        unless_stopped-Rid d (handle_member d q (apply_candidate true)) srv srv' gone rid
          (λ other. handle_member-Rid d q srv v rid (apply_candidate true) (λ s room e r. r)) h
    event-Rid (candidate d q false) srv srv' v gone rid h =
        unless_stopped-Rid d (handle_member d q (apply_candidate false)) srv srv' gone rid
          (λ other.
            handle_member-Rid d q srv v rid (apply_candidate false)
              (λ s room e r. (remove_session-RidOrGone c) (some s) room r))
          h
    event-Rid (leave d q) srv srv' v gone rid h =
        unless_stopped-Rid d (handle_member d q apply_leave) srv srv' gone rid
          (λ other.
            handle_member-Rid d q srv v rid apply_leave
              (λ s room e r. (remove_session-RidOrGone c) (some s) room r))
          h
    event-Rid (track_ready k uid session_id media add_throws offer_throws) srv srv' v gone rid h =
        ready_in-Rid k uid session_id media add_throws offer_throws (lookup k srv.rooms) srv srv'
          (v.good k) (λ j. subst (λ i. (RidOrGone c) (lookup i srv.rooms)) (sym j) rid) rid h
    event-Rid (disconnected k d) srv srv' v gone rid h =
        come_out _ srv' h (disconnected-Rid k d srv rid)
    event-Rid (stops d) srv srv' v gone rid h =
        come_out (record srv { stopped = d ∷ srv.stopped }) srv' h rid

RidOrGone-IsRid : (c m : ℕ) (srv : MediaServer) → RidOrGone c (lookup m srv.rooms) → IsRid m c srv
RidOrGone-IsRid c m srv r room u s e h = subst (RidOrGone c) e r u s h

IsRid-RidOrGone : (c m : ℕ) (srv : MediaServer) → IsRid m c srv → RidOrGone c (lookup m srv.rooms)
IsRid-RidOrGone c m srv r = go (lookup m srv.rooms) refl
  where
    go : (o : Option MediaRoom) → lookup m srv.rooms ≡ o → RidOrGone c o
    go none e = tt
    go (some room) e = λ u s h. r room u s e h

-- Once a connection has stopped and a meeting is rid of it, no event, a late offer on that
-- connection included, puts a session on it into the meeting again.
pub handle_room_event-IsRid :
    (m c : ℕ) (e : MediaEvent) (srv srv' : MediaServer)
    → IsSound srv
    → contains srv.stopped c ≡ true
    → IsRid m c srv
    → handle_room_event e srv ≡ some srv'
    → IsRid m c srv'
handle_room_event-IsRid m c e srv srv' v gone rid h =
    RidOrGone-IsRid c m srv' (event-Rid c m e srv srv' v gone (IsRid-RidOrGone c m srv rid) h)
