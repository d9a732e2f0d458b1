-- ===== src/Media/Logic.antt =====
-- LogicSystem of MediaServer (MediaServer/src/service/LogicSystem.cpp): the events of the rooms, each
-- handled by the worker of its room, here in one order. A connection is known by a number that no
-- other connection has, since the sources compare connection objects; `stopped` lists those whose
-- IsStopped is true or that are destroyed. What the WebRTC library answers stands in the events.
pub mod Requests
pub mod Rooms
pub mod Invariant
pub mod Cleanup
pub mod Rid
pub mod Lost
use sync_rtc.Prelude.{
  ℕ, suc, ◌+◌, Bool, true, false, not, ◌||◌, ◌&&◌, Option, none, some, List, [], ◌∷◌, ◌++◌, ◌==◌,
  if◌then◌else◌, Bytes,
}
use sync_rtc.Prelude.Assoc.{Assoc, lookup, assign, erase}
use sync_rtc.Prelude.Distinct.{contains}
use sync_rtc.Media.MediaSession.{
  MediaType, MediaSession, new_media_session, initial_answer, remote_answer,
}
use sync_rtc.Media.Room.{
  MediaRoom, MediaPeer, new_room, session_of, add_peer, peer_count, remove_peer, put_session,
  sessions_for_connection,
}
use sync_rtc.Media.Room.Registration.{Binding, register_publisher_track}

pub record MediaServer : Type 0 where
  pub rooms : Assoc MediaRoom
  -- the counter of MediaSession.cpp
  -- counts on where the 64 bits of the source wrap around
  pub next_session_id : ℕ
  pub stopped : List ℕ

pub record MediaSignal : Type 0 where
  pub signal_id : ℕ
  pub meeting_id : ℕ
  pub uid : ℕ

-- How far SetRemoteOffer and the construction before it come.
pub record OfferAnswer : Type 0 where
  pub constructs : Bool
  pub applies : Bool

pub data MediaEvent : Type 0 where
  offer : ℕ → MediaSignal → OfferAnswer → MediaEvent
  -- whether SetRemoteAnswer, AddRemoteCandidate goes through
  answer : ℕ → MediaSignal → Bool → MediaEvent
  candidate : ℕ → MediaSignal → Bool → MediaEvent
  leave : ℕ → MediaSignal → MediaEvent
  -- what addTrack and setLocalDescription throw for
  track_ready : ℕ → ℕ → ℕ → MediaType → (Binding → Bool) → (ℕ → Bool) → MediaEvent
  disconnected : ℕ → ℕ → MediaEvent
  -- a connection stops
  stops : ℕ → MediaEvent

-- RemoveSession; none is a room that is dropped since it is empty.
abbrev pub or_gone : MediaRoom → Option MediaRoom
or_gone room = if peer_count room == 0 then none else some room

unfoldable pub remove_session : Option MediaSession → MediaRoom → Option MediaRoom
unfolding remove_peer peer_count
remove_session none room = or_gone room
remove_session (some s) room = or_gone (remove_peer s.uid s.instance_id room)

-- m_rooms with the room as it is after the event
abbrev pub put_room : ℕ → Option MediaRoom → MediaServer → MediaServer
put_room meeting_id none srv = record srv { rooms = erase meeting_id srv.rooms }
put_room meeting_id (some room) srv = record srv { rooms = assign meeting_id room srv.rooms }

-- The session is that of the signal and of its connection.
abbrev pub belongs : ℕ → ℕ → MediaSession → Bool
belongs connection signal_id s = s.signal_id == signal_id && s.connection == connection

abbrev pub room_or_new : ℕ → Option MediaRoom → MediaRoom
room_or_new meeting_id none = new_room meeting_id
room_or_new meeting_id (some room) = room

-- The room before a session is made: a session of another negotiation or connection is removed.
unfoldable pub admit :
    ℕ → MediaSignal → Option MediaSession → MediaRoom → MediaRoom × Option MediaSession
unfolding remove_peer
admit connection q none room = (room, none)
admit connection q (some s) room =
    if belongs connection q.signal_id s then (room, some s) else (remove_peer q.uid 0 room, none)

abbrev pub apply_offer : Bool → MediaSession → MediaRoom → Option MediaRoom
apply_offer applies s room =
    if applies
    then some (put_session s.uid (initial_answer s).0 room)
    else remove_session (some s) room

abbrev pub made : ℕ → MediaSignal → ℕ → MediaSession
made connection q id = new_media_session q.uid id q.signal_id connection

abbrev pub make_session : ℕ → MediaSignal → OfferAnswer → MediaRoom → MediaServer → MediaServer
make_session connection q a room srv =
    let next = record srv { next_session_id = suc srv.next_session_id } in
    let s = made connection q srv.next_session_id in
    if a.constructs
    then put_room q.meeting_id
        (apply_offer a.applies s (add_peer (record { peer_uid = q.uid; session = some s }) room))
        next
    else put_room q.meeting_id (remove_session none room) next

abbrev pub offer_session :
    ℕ → MediaSignal → OfferAnswer → MediaRoom × Option MediaSession → MediaServer → MediaServer
offer_session connection q a (room, some s) srv =
    put_room q.meeting_id (apply_offer a.applies s room) srv
offer_session connection q a (room, none) srv = make_session connection q a room srv

unfoldable pub handle_offer : ℕ → MediaSignal → OfferAnswer → MediaServer → MediaServer
unfolding admit add_peer remove_session initial_answer new_media_session new_room
handle_offer connection q a srv =
    let room = room_or_new q.meeting_id (lookup q.meeting_id srv.rooms) in
    offer_session connection q a (admit connection q (session_of q.uid room) room) srv

-- The update of the session of an answer, a candidate or a leave, in a room that is there.
abbrev pub on_session :
    ℕ
    → MediaSignal
    → (MediaSession → MediaRoom → Option MediaRoom)
    → Option MediaSession
    → MediaRoom
    → MediaServer
    → MediaServer
on_session connection q f none room srv = srv
on_session connection q f (some s) room srv =
    if belongs connection q.signal_id s then put_room q.meeting_id (f s room) srv else srv

abbrev pub in_room :
    ℕ
    → MediaSignal
    → (MediaSession → MediaRoom → Option MediaRoom)
    → Option MediaRoom
    → MediaServer
    → MediaServer
in_room connection q f none srv = srv
in_room connection q f (some room) srv = on_session connection q f (session_of q.uid room) room srv

unfoldable pub handle_member :
    ℕ → MediaSignal → (MediaSession → MediaRoom → Option MediaRoom) → MediaServer → MediaServer
handle_member connection q f srv = in_room connection q f (lookup q.meeting_id srv.rooms) srv

abbrev pub apply_answer : Bool → MediaSession → MediaRoom → Option MediaRoom
apply_answer applies s room =
    if applies
    then some (put_session s.uid (remote_answer s).0 room)
    else remove_session (some s) room

abbrev pub apply_candidate : Bool → MediaSession → MediaRoom → Option MediaRoom
apply_candidate applies s room = if applies then some room else remove_session (some s) room

abbrev pub apply_leave : MediaSession → MediaRoom → Option MediaRoom
apply_leave s room = remove_session (some s) room

-- Whether a ready track is that of the member's session, whose connection works.
abbrev pub is_ready : ℕ → List ℕ → Option MediaSession → Bool
is_ready session_id stopped none = false
is_ready session_id stopped (some s) =
    s.instance_id == session_id && not (contains stopped s.connection)

abbrev pub after_registration : ℕ → Option MediaRoom → MediaServer → Option MediaServer
after_registration meeting_id none srv = none
after_registration meeting_id (some room) srv =
    some (put_room meeting_id (remove_session none room) srv)

abbrev pub ready_in :
    ℕ
    → ℕ
    → ℕ
    → MediaType
    → (Binding → Bool)
    → (ℕ → Bool)
    → Option MediaRoom
    → MediaServer
    → Option MediaServer
ready_in meeting_id uid session_id media add_throws offer_throws none srv = some srv
ready_in meeting_id uid session_id media add_throws offer_throws (some room) srv =
    if is_ready session_id srv.stopped (session_of uid room)
    then after_registration meeting_id
        (register_publisher_track add_throws offer_throws uid media room) srv
    else some srv

-- none is a fault of RegisterPublisherTrack.
unfoldable pub handle_publisher_track_ready :
    ℕ → ℕ → ℕ → MediaType → (Binding → Bool) → (ℕ → Bool) → MediaServer → Option MediaServer
unfolding remove_session register_publisher_track
handle_publisher_track_ready meeting_id uid session_id media add_throws offer_throws srv =
    ready_in meeting_id uid session_id media add_throws offer_throws (lookup meeting_id srv.rooms)
      srv

-- The loop over the sessions of a lost connection. A room that it empties has no session left.
unfoldable pub remove_sessions : List MediaSession → MediaRoom → MediaRoom
unfolding remove_peer
remove_sessions [] room = room
remove_sessions (s ∷ ss) room = remove_sessions ss (remove_peer s.uid s.instance_id room)

abbrev pub disconnect_in : ℕ → ℕ → Option MediaRoom → MediaServer → MediaServer
disconnect_in meeting_id connection none srv = srv
disconnect_in meeting_id connection (some room) srv =
    put_room meeting_id
      (or_gone (remove_sessions (sessions_for_connection connection room.peers) room)) srv

unfoldable pub handle_signal_disconnected : ℕ → ℕ → MediaServer → MediaServer
unfolding remove_sessions sessions_for_connection peer_count
handle_signal_disconnected meeting_id connection srv =
    if contains srv.stopped connection
    then disconnect_in meeting_id connection (lookup meeting_id srv.rooms) srv
    else srv

-- HandleLocalMediaSignal: whether the description or candidate that the library made for a session
-- is handed to its connection.
abbrev pub is_current : ℕ → ℕ → ℕ → List ℕ → Option MediaSession → Bool
is_current connection session_id signal_id stopped none = false
is_current connection session_id signal_id stopped (some s) =
    s.instance_id == session_id
    && (s.signal_id == signal_id
        && (not (contains stopped connection) && s.connection == connection))

abbrev pub current_in : ℕ → ℕ → MediaSignal → List ℕ → Option MediaRoom → Bool
current_in connection session_id q stopped none = false
current_in connection session_id q stopped (some room) =
    is_current connection session_id q.signal_id stopped (session_of q.uid room)

unfoldable pub handle_local_media_signal : ℕ → ℕ → MediaSignal → MediaServer → Bool
handle_local_media_signal connection session_id q srv =
    current_in connection session_id q srv.stopped (lookup q.meeting_id srv.rooms)

-- HandleSignal: nothing for a connection that has stopped
abbrev pub unless_stopped : ℕ → (MediaServer → MediaServer) → MediaServer → Option MediaServer
unless_stopped connection f srv = some (if contains srv.stopped connection then srv else f srv)

unfoldable pub handle_room_event : MediaEvent → MediaServer → Option MediaServer
unfolding handle_offer handle_member handle_publisher_track_ready handle_signal_disconnected
    remote_answer
handle_room_event (offer connection q a) srv =
    unless_stopped connection (handle_offer connection q a) srv
handle_room_event (answer connection q applies) srv =
    unless_stopped connection (handle_member connection q (apply_answer applies)) srv
handle_room_event (candidate connection q applies) srv =
    unless_stopped connection (handle_member connection q (apply_candidate applies)) srv
handle_room_event (leave connection q) srv =
    unless_stopped connection (handle_member connection q apply_leave) srv
handle_room_event (track_ready meeting_id uid session_id media add_throws offer_throws) srv =
    handle_publisher_track_ready meeting_id uid session_id media add_throws offer_throws srv
handle_room_event (disconnected meeting_id connection) srv =
    some (handle_signal_disconnected meeting_id connection srv)
handle_room_event (stops connection) srv = some (record srv { stopped = connection ∷ srv.stopped })
