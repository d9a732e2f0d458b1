-- ===== src/Realtime/Meetings/Attachment.antt =====
-- The sessions of a room against the meeting that each of them is in, under every handler.
pub mod Sessions
pub mod Joined
pub mod Parted
use sync_rtc.Prelude.{ℕ, Bool, Option, none, some, List, [], ◌∷◌, Bytes}
use sync_rtc.Prelude.Json.{Json}
use sync_rtc.Prelude.Assoc.{lookup, erase}
use sync_rtc.Realtime.Meetings.{Connection, World, Done}
use sync_rtc.Realtime.Meetings.Join.{JoinAnswers, join_meeting}
use sync_rtc.Realtime.Meetings.Leaving.{
  HostAnswers, start_meeting, LeaveAnswers, leave_meeting, CleanupAnswers, end_meeting,
}
use sync_rtc.Realtime.Meetings.Reconnection.{
  LossAnswers, disconnect, ExpiryAnswers, expire_member, nothing,
}
use sync_rtc.Realtime.Meetings.Attachment.Sessions.{Attached}
use sync_rtc.Realtime.Meetings.Attachment.Joined.{IsAttached, join_meeting-IsAttached}
use sync_rtc.Realtime.Meetings.Attachment.Parted.{
  start_meeting-IsAttached, leave_meeting-IsAttached, end_meeting-IsAttached, disconnect-IsAttached,
  expire_member-IsAttached, vanish-IsAttached,
}

-- An operation of the queue of a meeting, on behalf of a session where it has one; or the end of a
-- session object.
pub data MeetingEvent : Type 0 where
  joins : Bool → Option Json → JoinAnswers → ℕ → MeetingEvent
  starts : Option Json → HostAnswers → ℕ → MeetingEvent
  leaves : Option Json → LeaveAnswers → ℕ → MeetingEvent
  ends : Option Json → CleanupAnswers → HostAnswers → ℕ → MeetingEvent
  loses : LossAnswers → ℕ → MeetingEvent
  expires : Bytes → ExpiryAnswers → MeetingEvent
  vanishes : ℕ → MeetingEvent

abbrev pub for_session : (Connection → World → Done) → Option Connection → World → Done
for_session f none w = nothing w
for_session f (some c) w = f c w

unfoldable pub handle_event : MeetingEvent → World → Done
handle_event (joins resuming root a s) w =
    for_session (join_meeting resuming root a s) (lookup s w.connections) w
handle_event (starts root a s) w = for_session (start_meeting root a) (lookup s w.connections) w
handle_event (leaves root a s) w = for_session (leave_meeting root a s) (lookup s w.connections) w
handle_event (ends root b a s) w = for_session (end_meeting root b a) (lookup s w.connections) w
handle_event (loses a s) w = for_session (disconnect a s) (lookup s w.connections) w
handle_event (expires entry a) w = expire_member entry a w
handle_event (vanishes s) w = nothing (record w { connections = erase s w.connections })

unfoldable pub handle_events : List MeetingEvent → World → World
unfolding handle_event
handle_events [] w = w
handle_events (e ∷ es) w = handle_events es (handle_event e w).world

handle_event-IsAttached :
    (e : MeetingEvent) (w : World) → IsAttached w → IsAttached (handle_event e w).world
unfolding handle_event
handle_event-IsAttached (joins resuming root a s) w v = go (lookup s w.connections)
  where
    go :
        (o : Option Connection)
        → IsAttached (for_session (join_meeting resuming root a s) o w).world
    go none = v
    go (some c) = join_meeting-IsAttached resuming root a s c w v
handle_event-IsAttached (starts root a s) w v = go (lookup s w.connections)
  where
    go : (o : Option Connection) → IsAttached (for_session (start_meeting root a) o w).world
    go none = v
    go (some c) = start_meeting-IsAttached root a c w v
handle_event-IsAttached (leaves root a s) w v = go (lookup s w.connections)
  where
    go : (o : Option Connection) → IsAttached (for_session (leave_meeting root a s) o w).world
    go none = v
    go (some c) = leave_meeting-IsAttached root a s c w v
handle_event-IsAttached (ends root b a s) w v = go (lookup s w.connections)
  where
    go : (o : Option Connection) → IsAttached (for_session (end_meeting root b a) o w).world
    go none = v
    go (some c) = end_meeting-IsAttached root b a c w v
handle_event-IsAttached (loses a s) w v = go (lookup s w.connections)
  where
    go : (o : Option Connection) → IsAttached (for_session (disconnect a s) o w).world
    go none = v
    go (some c) = disconnect-IsAttached a s c w v
handle_event-IsAttached (expires entry a) w v = expire_member-IsAttached entry a w v
handle_event-IsAttached (vanishes s) w v = vanish-IsAttached s w v

-- Under every sequence of requests to join, resume, start, leave and end a meeting, of lost
-- connections, of expired members and of session objects that go away, whatever storage and clocks
-- answer, a room holds each session once, and every session that it sends to is in the meeting of
-- the room or has been asked to close.
pub handle_events-IsAttached :
    (es : List MeetingEvent) (w : World) → IsAttached w → IsAttached (handle_events es w)
unfolding handle_events
handle_events-IsAttached [] w v = v
handle_events-IsAttached (e ∷ es) w v =
    handle_events-IsAttached es (handle_event e w).world (handle_event-IsAttached e w v)
