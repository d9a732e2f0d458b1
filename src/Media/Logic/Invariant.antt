-- ===== src/Media/Logic/Invariant.antt =====
-- Every room of a MediaServer is consistent and has a member, after every event.
use sync_rtc.Prelude.{
  ℕ, suc, ◌+◌, ◌^◌, ◌<◌, ◌≡◌, refl, ap, ◌∙◌, inl, inr, Bool, true, false, Option, none, some, List,
  [], ◌∷◌, ◌==◌, Bool-cases,
}
use sync_rtc.Prelude.Assoc.{lookup, lookup-assign, lookup-erase}
use sync_rtc.Prelude.Distinct.{contains}
use sync_rtc.Media.MediaSession.{MediaType, MediaSession, new_media_session}
use sync_rtc.Media.Room.{MediaRoom, session_of, sessions_for_connection}
use sync_rtc.Media.Room.Registration.{Binding}
use sync_rtc.Media.Room.Consistency.{IsConsistent, remove_peer-IsConsistent}
use sync_rtc.Media.Room.Publishing.{register_publisher_track-IsConsistent}
use sync_rtc.Media.Room.Forwarding.{new_room-IsConsistent, add_peer-IsConsistent}
use sync_rtc.Media.Logic.{
  MediaServer, MediaSignal, OfferAnswer, MediaEvent, offer, answer, candidate, leave, track_ready,
  disconnected, stops, remove_session, put_room, belongs, room_or_new, admit, made, make_session,
  offer_session, handle_offer, on_session, in_room, handle_member, apply_answer, apply_candidate,
  apply_leave, is_ready, ready_in, handle_publisher_track_ready, remove_sessions, disconnect_in,
  handle_signal_disconnected, unless_stopped, handle_room_event,
}
use sync_rtc.Media.Logic.Rooms.{
  IsGood, GoodOrGone, or_gone-GoodOrGone, remove_session-GoodOrGone, apply_offer-GoodOrGone,
  apply_answer-GoodOrGone, Admitted, admit-Admitted, session_of-add_peer,
}

pub record IsSound (srv : MediaServer) : Type 0 where
  pub good : (m : ℕ) → GoodOrGone (lookup m srv.rooms)

put_room-IsSound :
    (m : ℕ) (o : Option MediaRoom) (srv : MediaServer)
    → GoodOrGone o
    → IsSound srv
    → IsSound (put_room m o srv)
put_room-IsSound m none srv g v = record {
  good = λ k. elim (Bool-cases (m == k)) [
    | inl t ↦ rw (lookup-erase m k srv.rooms, t) tt
    | inr t ↦ rw (lookup-erase m k srv.rooms, t) (v.good k)
  ];
}
put_room-IsSound m (some room) srv g v = record {
  good = λ k. elim (Bool-cases (m == k)) [
    | inl t ↦ rw (lookup-assign m k room srv.rooms, t) g
    | inr t ↦ rw (lookup-assign m k room srv.rooms, t) (v.good k)
  ];
}

module _ (connection : ℕ) (q : MediaSignal) (a : OfferAnswer) (srv : MediaServer)
    (v : IsSound srv) where
  advanced : IsSound (record srv { next_session_id = suc srv.next_session_id })
  advanced = record { good = v.good }

  make_session-IsSound :
      (room : MediaRoom)
      → IsConsistent room
      → session_of q.uid room ≡ none
      → IsSound (make_session connection q a room srv)
  unfolding new_media_session
  make_session-IsSound room c fresh =
      let s = made connection q srv.next_session_id in
      elim (Bool-cases a.constructs) [
        | inl t ↦ rw t (
            put_room-IsSound q.meeting_id _ _
              (apply_offer-GoodOrGone a.applies s _ (session_of-add_peer q.uid s room)
                (add_peer-IsConsistent room q.uid s c fresh refl refl refl))
              advanced)
        | inr t ↦
            rw t
              (put_room-IsSound q.meeting_id _ _ (remove_session-GoodOrGone none room c) advanced)
      ]

  offer_session-IsSound :
      (x : MediaRoom × Option MediaSession)
      → Admitted q.uid x
      → IsSound (offer_session connection q a x srv)
  offer_session-IsSound (room, none) h = make_session-IsSound room h.0 h.1
  offer_session-IsSound (room, some s) h =
      put_room-IsSound q.meeting_id _ srv (apply_offer-GoodOrGone a.applies s room h.1 h.0) v

  pub room_or_new-IsConsistent :
      (o : Option MediaRoom) → GoodOrGone o → IsConsistent (room_or_new q.meeting_id o)
  room_or_new-IsConsistent none g = new_room-IsConsistent q.meeting_id
  room_or_new-IsConsistent (some room) g = g.consistent

  handle_offer-IsSound : IsSound (handle_offer connection q a srv)
  unfolding handle_offer
  handle_offer-IsSound =
      let room = room_or_new q.meeting_id (lookup q.meeting_id srv.rooms) in
      offer_session-IsSound (admit connection q (session_of q.uid room) room) (
        admit-Admitted connection q (session_of q.uid room) room refl
          (room_or_new-IsConsistent (lookup q.meeting_id srv.rooms) (v.good q.meeting_id)))

module _ (connection : ℕ) (q : MediaSignal) (srv : MediaServer) (v : IsSound srv) where
  handle_member-IsSound :
      (f : MediaSession → MediaRoom → Option MediaRoom)
      → ((s : MediaSession) (room : MediaRoom)
          → session_of s.uid room ≡ some s
          → IsGood room
          → GoodOrGone (f s room))
      → IsSound (handle_member connection q f srv)
  unfolding handle_member
  handle_member-IsSound f keep = go (lookup q.meeting_id srv.rooms) (v.good q.meeting_id)
    where
      member :
          (room : MediaRoom) (o : Option MediaSession)
          → IsGood room
          → session_of q.uid room ≡ o
          → IsSound (on_session connection q f o room srv)
      member room none g e = v
      member room (some s) g e = elim (Bool-cases (belongs connection q.signal_id s)) [
        | inl t ↦ rw t (
            put_room-IsSound q.meeting_id _ srv
              (keep s room (ap (λ u. session_of u room) (g.consistent.filed q.uid s e) ∙ e) g) v)
        | inr t ↦ rw t v
      ]

      go : (o : Option MediaRoom) → GoodOrGone o → IsSound (in_room connection q f o srv)
      go none g = v
      go (some room) g = member room (session_of q.uid room) g refl

-- The counter of SSRCs of every room has a value left.
abbrev pub HasSsrc : MediaServer → Type 0
HasSsrc srv =
    (m : ℕ) (room : MediaRoom) → lookup m srv.rooms ≡ some room → room.next_ssrc + 1 < 2 ^ 32

module _ (m uid session_id : ℕ) (media : MediaType) (add_throws : Binding → Bool)
    (offer_throws : ℕ → Bool) (srv : MediaServer) (v : IsSound srv) where
  ready_in-IsSound :
      (o : Option MediaRoom)
      → GoodOrGone o
      → ((room : MediaRoom) → o ≡ some room → room.next_ssrc + 1 < 2 ^ 32)
      → (srv' : MediaServer) × (ready_in m uid session_id media add_throws offer_throws o srv
          ≡ some srv')
        × IsSound srv'
  ready_in-IsSound none g left = (srv, refl, v)
  ready_in-IsSound (some room) g left =
      let (room', e, c) =
        register_publisher_track-IsConsistent add_throws offer_throws uid media room g.consistent
          (left room refl) in
      elim (Bool-cases (is_ready session_id srv.stopped (session_of uid room))) [
        | inl t ↦ (
          put_room m (remove_session none room') srv,
          rw (t, e) refl,
          put_room-IsSound m _ srv (remove_session-GoodOrGone none room' c) v,
        )
        | inr t ↦ (srv, rw t refl, v)
      ]

remove_sessions-IsConsistent :
    (ss : List MediaSession) (room : MediaRoom)
    → IsConsistent room
    → IsConsistent (remove_sessions ss room)
unfolding remove_sessions
remove_sessions-IsConsistent [] room v = v
remove_sessions-IsConsistent (s ∷ ss) room v =
    remove_sessions-IsConsistent ss _ (remove_peer-IsConsistent s.uid s.instance_id room v)

disconnect_in-IsSound :
    (m connection : ℕ) (o : Option MediaRoom) (srv : MediaServer)
    → GoodOrGone o
    → IsSound srv
    → IsSound (disconnect_in m connection o srv)
disconnect_in-IsSound m connection none srv g v = v
disconnect_in-IsSound m connection (some room) srv g v =
    put_room-IsSound m _ srv
      (or_gone-GoodOrGone _ (
        remove_sessions-IsConsistent (sessions_for_connection connection room.peers) room
          g.consistent))
      v

unless_stopped-IsSound :
    (connection : ℕ) (f : MediaServer → MediaServer) (srv : MediaServer)
    → IsSound srv
    → IsSound (f srv)
    → (srv' : MediaServer) × (unless_stopped connection f srv ≡ some srv') × IsSound srv'
unless_stopped-IsSound connection f srv v w = elim (Bool-cases (contains srv.stopped connection)) [
  | inl t ↦ (srv, rw t refl, v)
  | inr t ↦ (f srv, rw t refl, w)
]

disconnected-IsSound :
    (m connection : ℕ) (srv : MediaServer)
    → IsSound srv
    → IsSound (handle_signal_disconnected m connection srv)
unfolding handle_signal_disconnected
disconnected-IsSound m connection srv v = elim (Bool-cases (contains srv.stopped connection)) [
  | inl t ↦ rw t (disconnect_in-IsSound m connection (lookup m srv.rooms) srv (v.good m) v)
  | inr t ↦ rw t v
]

-- Every event leaves a MediaServer whose rooms are all consistent and inhabited in such a state
-- again and faults in no room, as long as no room has used up its SSRCs; whatever the WebRTC
-- library refuses, and whichever connections have stopped.
pub handle_room_event-IsSound :
    (e : MediaEvent) (srv : MediaServer)
    → IsSound srv
    → HasSsrc srv
    → (srv' : MediaServer) × (handle_room_event e srv ≡ some srv') × IsSound srv'
unfolding handle_room_event handle_publisher_track_ready
handle_room_event-IsSound (offer connection q a) srv v left =
    unless_stopped-IsSound connection (handle_offer connection q a) srv v
      (handle_offer-IsSound connection q a srv v)
handle_room_event-IsSound (answer connection q applies) srv v left =
    unless_stopped-IsSound connection (handle_member connection q (apply_answer applies)) srv v (
      handle_member-IsSound connection q srv v (apply_answer applies)
        (λ s room e g. apply_answer-GoodOrGone applies s room e g.consistent))
handle_room_event-IsSound (candidate connection q true) srv v left =
    unless_stopped-IsSound connection (handle_member connection q (apply_candidate true)) srv v
      (handle_member-IsSound connection q srv v (apply_candidate true) (λ s room e g. g))
handle_room_event-IsSound (candidate connection q false) srv v left =
    unless_stopped-IsSound connection (handle_member connection q (apply_candidate false)) srv v (
      handle_member-IsSound connection q srv v (apply_candidate false)
        (λ s room e g. remove_session-GoodOrGone (some s) room g.consistent))
handle_room_event-IsSound (leave connection q) srv v left =
    unless_stopped-IsSound connection (handle_member connection q apply_leave) srv v (
      handle_member-IsSound connection q srv v apply_leave
        (λ s room e g. remove_session-GoodOrGone (some s) room g.consistent))
handle_room_event-IsSound (track_ready m uid session_id media add_throws offer_throws) srv v left =
    ready_in-IsSound m uid session_id media add_throws offer_throws srv v (lookup m srv.rooms)
      (v.good m) (left m)
handle_room_event-IsSound (disconnected m connection) srv v left =
    (_, refl, disconnected-IsSound m connection srv v)
handle_room_event-IsSound (stops connection) srv v left = (_, refl, record { good = v.good })
