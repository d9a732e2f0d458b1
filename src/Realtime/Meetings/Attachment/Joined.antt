-- ===== src/Realtime/Meetings/Attachment/Joined.antt =====
-- Joining and resuming, and the broadcasts.
use sync_rtc.Prelude.{
  ℕ, ◌≡◌, refl, ap, sym, ◌∙◌, subst, Bool, true, false, Option, none, some, List, [], ◌∷◌, ◌++◌,
  arith, Bytes,
}
use sync_rtc.Prelude.Json.{Json, Fields}
use sync_rtc.Prelude.Assoc.{Assoc, lookup, assign}
use sync_rtc.Realtime.Meetings.{
  Connection, Room, MeetingInfo, World, Checked, passes, fails, object, Notice, StoreCommand,
  keep_sessions, broadcast, change, set_meeting_id, request_close, release_media,
}
use sync_rtc.Realtime.Meetings.Join.{
  JoinAnswers, Named, name_request, Admission, admit, write_join, check_meeting, attach, detach,
  previous_session, enter, stays, announce, complete, written, admitted, named, answered,
  join_meeting, new_membership, announcements, member_values, request_id_of,
}
use sync_rtc.Realtime.Meetings.Attachment.Sessions.{
  Attached, keep-Attached, keep_out, close-Attached, put_out-Attached, enter-Attached, move,
}

abbrev pub IsAttached : World → Type 0
IsAttached w = Attached w.room.id w.connections w.room.sessions

pub broadcast-IsAttached :
    (p : Connection → Bool) (n : Notice) (w : World) → IsAttached w → IsAttached (broadcast p n w).0
unfolding broadcast
broadcast-IsAttached p n w v = keep-Attached (λ s c. true) w.connections _ _ _ v

announce-IsAttached :
    (uid : ℕ) (ns : List Notice) (w : World) → IsAttached w → IsAttached (announce uid ns w).0
unfolding announce broadcast
announce-IsAttached uid [] w v = v
announce-IsAttached uid (n ∷ ns) w v =
    announce-IsAttached uid ns _ (keep-Attached (λ s c. true) w.connections _ _ _ v)

detach-IsAttached : (o : Option ℕ) (w : World) → IsAttached w → IsAttached (detach o w).0
unfolding detach release_media set_meeting_id request_close
detach-IsAttached none w v = v
detach-IsAttached (some p) w v = put_out-Attached p w.room.id w.connections w.room.sessions v

same_room : (o : Option ℕ) (w : World) → (detach o w).0.room ≡ w.room
unfolding detach release_media set_meeting_id request_close
same_room none w = refl
same_room (some p) w = refl

enter-IsAttached :
    (s m : ℕ) (d : Admission) (w : World)
    → m ≡ w.room.id
    → IsAttached w
    → IsAttached (enter s d (set_meeting_id s m w))
unfolding enter set_meeting_id
enter-IsAttached s m d w same v =
    subst
      (λ (k : ℕ).
        Attached w.room.id (after k)
          (keep_sessions (stays s d) (after k) w.room.sessions ++ s ∷ []))
      (sym same)
      (enter-Attached s w.room.id w.connections
        (keep_sessions (stays s d) (after w.room.id) w.room.sessions)
        (keep_out (stays s d) (after w.room.id) w.room.sessions s (λ c. ground arith))
        (keep-Attached (stays s d) (after w.room.id) w.room.id w.connections w.room.sessions v))
  where
    after : ℕ → Assoc Connection
    after k = change (move k) s (lookup s w.connections) w.connections

attach-IsAttached :
    (s : ℕ) (d : Admission) (token : Bytes) (w : World)
    → d.info.meeting_id ≡ w.room.id
    → IsAttached w
    → IsAttached (attach s d token w).0
unfolding attach
attach-IsAttached s d token w same v =
    let u = (detach (previous_session d.uid s w) w).0 in
    enter-IsAttached s d.info.meeting_id d
      (record u {
        room = record u.room { members = assign d.uid (new_membership d token s w) u.room.members };
      })
      (same ∙ sym (ap (λ (r : Room). r.id) (same_room (previous_session d.uid s w) w)))
      (detach-IsAttached (previous_session d.uid s w) w v)

named_meeting :
    (resuming : Bool) (root : Option Json) (a : JoinAnswers) (c : Connection) (id : ℕ) {n : Named}
    → name_request resuming root a c id ≡ passes n
    → n.meeting.meeting_id ≡ id
unfolding name_request check_meeting
named_meeting resuming root a c id {n} e = go (object root) a.info refl refl
  where
    go :
        (o : Option Fields) (i : Option MeetingInfo)
        → object root ≡ o
        → a.info ≡ i
        → n.meeting.meeting_id ≡ id
    go none i f g = absurd (ground (arith, f, e))
    go (some fs) none f g = absurd (ground (arith, f, g, e))
    go (some fs) (some info) f g = ground (arith, f, g, e)

admitted_meeting :
    (resuming : Bool) (n : Named) (a : JoinAnswers) (c : Connection) (room : Room) {d : Admission}
    → admit resuming n a c room ≡ passes d
    → d.info ≡ n.meeting
unfolding admit
admitted_meeting resuming n a c room e = ground (arith, e)

complete-IsAttached :
    (s : ℕ) (request_id : Option Bytes) (d : Admission) (a : JoinAnswers) (token : Bytes)
    (cs : List StoreCommand) (members : List Bytes) (w : World)
    → d.info.meeting_id ≡ w.room.id
    → IsAttached w
    → IsAttached (complete s request_id d a token cs members w).world
unfolding complete
complete-IsAttached s request_id d a token cs members w same v =
    announce-IsAttached d.uid (announcements d (member_values d.uid a members)) _
      (attach-IsAttached s d token w same v)

named-IsAttached :
    (resuming : Bool) (root : Option Json) (a : JoinAnswers) (s : ℕ) (c : Connection) (w : World)
    (n : Checked Named)
    → name_request resuming root a c w.room.id ≡ n
    → IsAttached w
    → IsAttached (named s resuming a c w n).world
named-IsAttached resuming root a s c w (fails x) e v = v
named-IsAttached resuming root a s c w (passes n) e v = admitting (admit resuming n a c w.room) refl
  where
    writing :
        (d : Admission) (o : List StoreCommand × Checked (List Bytes))
        → d.info ≡ n.meeting
        → IsAttached (written s (request_id_of n.request) d a c.auth_token w o).world
    writing d (cs, fails x) g = v
    writing d (cs, passes members) g =
        complete-IsAttached s (request_id_of n.request) d a c.auth_token cs members w
          (ap (λ (i : MeetingInfo). i.meeting_id) g ∙ named_meeting resuming root a c w.room.id e) v

    admitting :
        (d : Checked Admission)
        → admit resuming n a c w.room ≡ d
        → IsAttached (admitted s resuming (request_id_of n.request) a c.auth_token w d).world
    admitting (fails x) g = v
    admitting (passes d) g =
        writing d (write_join resuming d a) (admitted_meeting resuming n a c w.room g)

pub join_meeting-IsAttached :
    (resuming : Bool) (root : Option Json) (a : JoinAnswers) (s : ℕ) (c : Connection) (w : World)
    → IsAttached w
    → IsAttached (join_meeting resuming root a s c w).world
unfolding join_meeting request_close
join_meeting-IsAttached resuming root a s c w v = go a.sent
  where
    n : Checked Named
    n = name_request resuming root a c w.room.id

    inner : IsAttached (named s resuming a c w n).world
    inner = named-IsAttached resuming root a s c w n refl v

    go : (b : Bool) → IsAttached (answered s b (named s resuming a c w n)).world
    go true = inner
    go false = close-Attached s _ _ _ inner
