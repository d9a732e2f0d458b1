-- ===== src/Realtime/Meetings/Attachment/Parted.antt =====
-- Starting, leaving and ending a meeting, lost connections and expired members.
use sync_rtc.Prelude.{
  ℕ, zero, suc, ◌+◌, ◌*◌, not, ltb, codes, ◌≡◌, refl, Bool, true, false, Option, none, some, List,
  [], ◌∷◌, ◌==◌, if◌then◌else◌, arith, Bytes, Bool-cases, inl, inr, is_empty, ℤ, pos, negsuc,
}
use sync_rtc.Realtime.Presence.{release_user}
use sync_rtc.Realtime.Session.{second}
use sync_rtc.Prelude.Json.{Json, same_bytes}
use sync_rtc.Prelude.Assoc.{lookup, erase, lookup-erase}
use sync_rtc.Prelude.Distinct.{contains}
use sync_rtc.Realtime.Meetings.{
  Connection, Membership, MeetingInfo, user_key, positive, leading_int, removes_member,
  removes_deadline, World, Checked, passes, fails, Notice, StoreCommand, keep_sessions, broadcast,
  anyone, all_but, store, set_meeting_id, release_media, set_sessions, member_left,
  member_timeout_left, meeting_started,
}
use sync_rtc.Realtime.Meetings.Leaving.{
  HostAnswers, check_host, started, start_meeting, without_member, LeaveAnswers, leave_attempts,
  check_leave, leaving, left, part, forget, leave_meeting, CleanupAnswers, ended_by, end_meeting,
  not_session, is_scheduled, is_in_progress, closed_down, left_late, is_ended,
}
use sync_rtc.Realtime.Meetings.Reconnection.{
  LossAnswers, lose, disconnect, drop_session, start_grace, tell_lost, belongs_to, ExpiryAnswers,
  expelled, remove_expired, at_deadline, expire_user, expire_member, grace_seconds, mark_lost,
  lost_alone, only_writes, nothing, int_or_zero, or_whole, after_colon, still_waits,
}
use sync_rtc.Realtime.Meetings.Attachment.Sessions.{
  keep-Attached, keep_out, keep_subset, change-Attached, move,
}
use sync_rtc.Realtime.Meetings.Attachment.Joined.{IsAttached, broadcast-IsAttached}

started-IsAttached :
    (a : HostAnswers) (w : World) (o : Checked (ℕ × ℕ))
    → IsAttached w
    → IsAttached (started a w o).world
started-IsAttached a w (fails e) v = v
started-IsAttached a w (passes (m, uid)) v = elim (Bool-cases a.updated) [
  | inl b ↦ rw b (broadcast-IsAttached anyone meeting_started w v)
  | inr b ↦ rw b v
]

pub start_meeting-IsAttached :
    (root : Option Json) (a : HostAnswers) (c : Connection) (w : World)
    → IsAttached w
    → IsAttached (start_meeting root a c w).world
unfolding start_meeting
start_meeting-IsAttached root a c w v = started-IsAttached a w (check_host is_scheduled root a c) v

-- A session that the room does not send to any more
abbrev IsOut : ℕ → World → Type 0
IsOut s w = IsAttached w × (contains w.room.sessions s ≡ false)

set_sessions-IsOut :
    (s : ℕ) (w : World)
    → IsAttached w
    → IsOut s (set_sessions (keep_sessions (not_session s) w.connections w.room.sessions) w)
set_sessions-IsOut s w v = (
  keep-Attached (not_session s) w.connections w.room.id w.connections w.room.sessions v,
  keep_out (not_session s) w.connections w.room.sessions s (λ c. ground arith),
)

broadcast-IsOut :
    (s : ℕ) (p : Connection → Bool) (n : Notice) (w : World)
    → IsOut s w
    → IsOut s (broadcast p n w).0
unfolding broadcast
broadcast-IsOut s p n w (v, out) = (
  keep-Attached (λ s c. true) w.connections w.room.id w.connections w.room.sessions v,
  ground (arith, out, keep_subset (λ s c. true) w.connections w.room.sessions s),
)

drop_session-IsAttached : (s : ℕ) (w : World) → IsOut s w → IsAttached (drop_session s w).0
unfolding drop_session release_media set_meeting_id
drop_session-IsAttached s w (v, out) =
    change-Attached (move 0) s w.room.id w.connections w.room.sessions out v

empty-IsOut : (s : ℕ) (w : World) → is_empty w.room.sessions ≡ true → IsAttached w → IsOut s w
unfolding contains
empty-IsOut s w e v = (v, go w.room.sessions e)
  where
    go : (ss : List ℕ) → is_empty ss ≡ true → contains ss s ≡ false
    go [] e = refl
    go (x ∷ ss) e = cc

tell_lost-IsOut :
    (s uid : ℕ) (n : Option Notice) (w : World) → IsOut s w → IsOut s (tell_lost uid n w).0
unfolding tell_lost
tell_lost-IsOut s uid none w v = v
tell_lost-IsOut s uid (some n) w v = broadcast-IsOut s (all_but uid) n w v

start_grace-IsOut :
    (s t uid deadline : ℕ) (o : Option Membership) (w : World)
    → IsOut s w
    → IsOut s (start_grace uid t deadline o w)
start_grace-IsOut s t uid deadline none w v = v
start_grace-IsOut s t uid deadline (some m) w v = elim (Bool-cases (belongs_to t m.session)) [
  | inl b ↦ rw b v
  | inr b ↦ rw b v
]

lose-IsAttached :
    (a : LossAnswers) (s : ℕ) (c : Connection) (w : World)
    → IsAttached w
    → IsAttached (lose a s c w).world
unfolding lose
lose-IsAttached a s c w v =
    let uid = user_key c.user_id in
    let kept = set_sessions (keep_sessions (not_session s) w.connections w.room.sessions) w in
    let marked =
      start_grace uid s (a.steady_now + grace_seconds * second) (lookup uid w.room.members) kept in
    let notice = (mark_lost (lost_alone s uid w) (positive c.user_id) a).1 in
    drop_session-IsAttached s (tell_lost uid notice marked).0 (
      tell_lost-IsOut s uid notice marked (
        start_grace-IsOut s s uid (a.steady_now + grace_seconds * second)
          (lookup uid w.room.members) kept (set_sessions-IsOut s w v)))

pub disconnect-IsAttached :
    (a : LossAnswers) (s : ℕ) (c : Connection) (w : World)
    → IsAttached w
    → IsAttached (disconnect a s c w).world
unfolding disconnect
disconnect-IsAttached a s c w v = elim (Bool-cases (c.meeting_id == 0)) [
  | inl z ↦ rw z v
  | inr z ↦ rw z (elim (Bool-cases (is_empty w.room.sessions)) [
    | inl e ↦ rw e (drop_session-IsAttached s w (empty-IsOut s w e v))
    | inr e ↦ rw e (lose-IsAttached a s c w v)
  ])
]

part-IsOut : (s uid count : ℕ) (w : World) → IsAttached w → IsOut s (part s uid count w).0
unfolding part
part-IsOut s uid count w v = elim (Bool-cases (is_empty w.room.sessions)) [
  | inl e ↦ rw e (empty-IsOut s w e v)
  | inr e ↦ rw e (
      broadcast-IsOut s (all_but uid) (member_left uid count)
        (set_sessions (keep_sessions (not_session s) w.connections w.room.sessions) w)
        (set_sessions-IsOut s w v))
]

forget-IsAttached : (s uid m : ℕ) (w : World) → IsOut s w → IsAttached (forget s uid m w).0
unfolding forget release_media set_meeting_id
forget-IsAttached s uid m w (v, out) =
    change-Attached (move 0) s w.room.id w.connections w.room.sessions out v

leaving-IsAttached :
    (s : ℕ) (c : Connection) (a : LeaveAnswers) (w : World) (o : Checked (ℕ × ℕ))
    → IsAttached w
    → IsAttached (leaving s c a w o).world
leaving-IsAttached s c a w (fails e) v = v
leaving-IsAttached s c a w (passes (m, uid)) v = elim (Bool-cases (c.meeting_id == m)) [
  | inl b ↦ rw b (parting (store (leave_attempts uid a)))
  | inr b ↦ rw b (late a.info)
]
  where
    parting : (o : List StoreCommand × Checked (Unit {0})) → IsAttached (left s uid m a w o).world
    parting (cs, fails e) = v
    parting (cs, passes x) =
        forget-IsAttached s uid m (part s uid a.count w).0 (part-IsOut s uid a.count w v)

    late : (o : Option MeetingInfo) → IsAttached (left_late o w).world
    late none = v
    late (some i) = elim (Bool-cases (is_ended i.status)) [ inl b ↦ rw b v | inr b ↦ rw b v ]

pub leave_meeting-IsAttached :
    (root : Option Json) (a : LeaveAnswers) (s : ℕ) (c : Connection) (w : World)
    → IsAttached w
    → IsAttached (leave_meeting root a s c w).world
unfolding leave_meeting
leave_meeting-IsAttached root a s c w v = leaving-IsAttached s c a w (check_leave root c) v

pub end_meeting-IsAttached :
    (root : Option Json) (b : CleanupAnswers) (a : HostAnswers) (c : Connection) (w : World)
    → IsAttached w
    → IsAttached (end_meeting root b a c w).world
unfolding end_meeting closed_down contains
end_meeting-IsAttached root b a c w v = go (check_host is_in_progress root a c)
  where
    go : (o : Checked (ℕ × ℕ)) → IsAttached (ended_by b a w o).world
    go (fails e) = v
    go (passes (m, uid)) = elim (Bool-cases a.updated) [
      | inl d ↦ rw d (record { distinct = tt; belongs = λ x c h e. absurd (ground (arith, h)) })
      | inr d ↦ rw d v
    ]

expelled-IsAttached :
    (uid : ℕ) (a : ExpiryAnswers) (w : World) → IsAttached w → IsAttached (expelled uid a w).world
unfolding expelled
expelled-IsAttached uid a w v =
    broadcast-IsAttached anyone (member_timeout_left uid a.count)
      (record (without_member uid w) { presence = release_user uid w.room.id w.presence }) v

remove_expired-IsAttached :
    (uid : ℕ) (a : ExpiryAnswers) (w : World)
    → IsAttached w
    → IsAttached (remove_expired uid a w).world
remove_expired-IsAttached uid a w v = go a.removed a.deadline_removed
  where
    go :
        (b d : Bool)
        → IsAttached
            (if not b
              then only_writes (removes_member uid ∷ []) w
              else if not d
              then only_writes (removes_member uid ∷ (removes_deadline uid ∷ [])) w
              else expelled uid a w).world
    go false d = v
    go true false = v
    go true true = expelled-IsAttached uid a w v

at_deadline-IsAttached :
    (uid : ℕ) (a : ExpiryAnswers) (o : Option ℤ) (w : World)
    → IsAttached w
    → IsAttached (at_deadline uid a o w).world
at_deadline-IsAttached uid a none w v = v
at_deadline-IsAttached uid a (some (negsuc d)) w v =
    elim (Bool-cases (same_bytes a.room_state (codes "reconnecting"))) [
      | inl b ↦ rw b (remove_expired-IsAttached uid a w v)
      | inr b ↦ rw b v
    ]
at_deadline-IsAttached uid a (some (pos d)) w v =
    choose (d == 0) (ltb a.now d) (same_bytes a.room_state (codes "reconnecting"))
  where
    choose :
        (z e r : Bool)
        → IsAttached
            (if z
              then only_writes (removes_deadline uid ∷ []) w
              else if e
              then nothing w
              else if r
              then remove_expired uid a w
              else only_writes (removes_deadline uid ∷ []) w).world
    choose true e r = v
    choose false true r = v
    choose false false true = remove_expired-IsAttached uid a w v
    choose false false false = v

pub expire_member-IsAttached :
    (entry : Bytes) (a : ExpiryAnswers) (w : World)
    → IsAttached w
    → IsAttached (expire_member entry a w).world
unfolding expire_member
expire_member-IsAttached entry a w v =
    go (int_or_zero (leading_int (or_whole entry (after_colon entry))))
  where
    waiting :
        (uid : ℕ) (b : Bool)
        → IsAttached (if b then nothing w else at_deadline uid a a.deadline w).world
    waiting uid true = v
    waiting uid false = at_deadline-IsAttached uid a a.deadline w v

    go : (n : ℤ) → IsAttached (expire_user (positive n) (user_key n) a w).world
    go (pos zero) = v
    go (pos (suc n)) = waiting (suc n) (still_waits (lookup (suc n) w.room.members) a.steady_now)
    go (negsuc n) = v

pub vanish-IsAttached :
    (s : ℕ) (w : World)
    → IsAttached w
    → IsAttached (record w { connections = erase s w.connections })
vanish-IsAttached s w v = record {
  distinct = v.distinct;
  belongs = λ x c h e. v.belongs x c h (ground (arith, e, lookup-erase s x w.connections));
}
