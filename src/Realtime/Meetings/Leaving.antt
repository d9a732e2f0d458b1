-- ===== src/Realtime/Meetings/Leaving.antt =====
-- Starting, leaving and ending a meeting (StartMeetingHandler, LeaveMeetingHandler and
-- EndMeetingHandler of RealtimeServer/src/service/LogicSystem.cpp), for a session that is there.
use sync_rtc.Prelude.{
  ℕ, Bool, true, false, not, ◌&&◌, Option, none, some, List, [], ◌∷◌, ◌++◌, ◌==◌, if◌then◌else◌, ℤ,
  Bytes, is_empty,
}
use sync_rtc.Prelude.Json.{Json}
use sync_rtc.Prelude.Assoc.{lookup, erase}
use sync_rtc.Realtime.Presence.{release_user, release_room_users}
use sync_rtc.Realtime.MediaSignals.{Leave}
use sync_rtc.Realtime.Meetings.{
  error_redis, error_mysql, error_meeting_not_found, error_meeting_status, error_meeting_access,
  error_token, MeetingStatus, scheduled, in_progress, ended, MeetingInfo, Connection, World,
  Checked, passes, fails, ◌>>=◌, ◌>>◌, ensure, found, positive, user_key, leading_int,
  read_meeting_id, StoreCommand, removes_member, starts_meeting, ends_meeting, sets_presence,
  sets_presence_meeting, deletes_state, removes_deadline, deletes_members, Attempt, store, Notice,
  member_left, meeting_started, meeting_ended, succeeded, ended_meeting, Done, refuse,
  set_meeting_id, release_media, keep_sessions, anyone, all_but, set_sessions, broadcast,
}

abbrev pub is_scheduled : MeetingStatus → Bool
is_scheduled scheduled = true
is_scheduled _ = false

abbrev pub is_in_progress : MeetingStatus → Bool
is_in_progress in_progress = true
is_in_progress _ = false

abbrev pub is_ended : MeetingStatus → Bool
is_ended ended = true
is_ended _ = false

-- GetMeetingInfoById, and the update that follows
pub record HostAnswers : Type 0 where
  pub info : Option MeetingInfo
  pub updated : Bool

-- The checks that starting and ending share, up to the update.
unfoldable pub check_host :
    (MeetingStatus → Bool) → Option Json → HostAnswers → Connection → Checked (ℕ × ℕ)
unfolding read_meeting_id
check_host in_status root a c = do
  meeting_id ← read_meeting_id root
  uid ← found (positive c.user_id) error_token
  info ← found a.info error_meeting_not_found
  ensure (info.creator_user_id == uid) error_meeting_access
  ensure (in_status info.status) error_meeting_status
  passes (meeting_id, uid)

abbrev pub started : HostAnswers → World → Checked (ℕ × ℕ) → Done
started a w (fails e) = refuse e none [] w
started a w (passes (meeting_id, uid)) =
    let cs = starts_meeting uid ∷ [] in
    if a.updated
    then record {
      world = (broadcast anyone meeting_started w).0;
      replies = succeeded ∷ [];
      notices = (broadcast anyone meeting_started w).1;
      commands = cs;
      leaves = [];
    }
    else refuse error_mysql none cs w

unfoldable pub start_meeting : Option Json → HostAnswers → Connection → World → Done
unfolding check_host broadcast
start_meeting root a c w = started a w (check_host is_scheduled root a c)

-- GetMeetingInfoById, the writes in their order, and SCard
pub record LeaveAnswers : Type 0 where
  pub info : Option MeetingInfo
  pub removed : Bool
  pub state_deleted : Bool
  pub deadline_removed : Bool
  pub status_set : Bool
  pub meeting_set : Bool
  pub count : ℕ

unfoldable pub leave_attempts : ℕ → LeaveAnswers → List Attempt
leave_attempts uid a =
    record { command = removes_member uid; answer = a.removed; undo = []; code = error_redis }
    ∷ (record {
      command = deletes_state uid;
      answer = a.state_deleted;
      undo = [];
      code = error_redis;
    }
        ∷ (record {
          command = removes_deadline uid;
          answer = a.deadline_removed;
          undo = [];
          code = error_redis;
        }
            ∷ (record {
              command = sets_presence uid false;
              answer = a.status_set;
              undo = [];
              code = error_redis;
            }
                ∷ (record {
                  command = sets_presence_meeting uid false;
                  answer = a.meeting_set;
                  undo = [];
                  code = error_redis;
                }
                    ∷ []))))

abbrev pub not_session : ℕ → ℕ → Connection → Bool
not_session s x c = not (x == s)

-- The local sessions are told, where there are any.
unfoldable pub part : ℕ → ℕ → ℕ → World → World × List (ℕ × Notice)
unfolding keep_sessions broadcast
part s uid count w =
    if is_empty w.room.sessions
    then (w, [])
    else broadcast (all_but uid) (member_left uid count)
        (set_sessions (keep_sessions (not_session s) w.connections w.room.sessions) w)

abbrev pub without_member : ℕ → World → World
without_member uid w = record w { room = record w.room { members = erase uid w.room.members } }

unfoldable pub forget : ℕ → ℕ → ℕ → World → World × List Leave
unfolding release_media release_user set_meeting_id
forget s uid meeting_id w =
    let (w', ls) = release_media s w in
    (
      set_meeting_id s 0
          (record (without_member uid w') { presence = release_user uid meeting_id w'.presence }),
      ls,
    )

abbrev pub parted : ℕ → ℕ → ℕ → List StoreCommand → LeaveAnswers → World → Done
parted s uid meeting_id cs a w =
    let (w', sent) = part s uid a.count w in
    let (w'', ls) = forget s uid meeting_id w' in
    record { world = w''; replies = succeeded ∷ []; notices = sent; commands = cs; leaves = ls }

abbrev pub left : ℕ → ℕ → ℕ → LeaveAnswers → World → List StoreCommand × Checked (Unit {0}) → Done
left s uid meeting_id a w (cs, fails e) = refuse e none cs w
left s uid meeting_id a w (cs, passes x) = parted s uid meeting_id cs a w

-- A meeting that has ended can still be left.
abbrev pub left_late : Option MeetingInfo → World → Done
left_late none w = refuse error_meeting_access none [] w
left_late (some info) w =
    if is_ended info.status
    then record { world = w; replies = succeeded ∷ []; notices = []; commands = []; leaves = [] }
    else refuse error_meeting_access none [] w

unfoldable pub check_leave : Option Json → Connection → Checked (ℕ × ℕ)
unfolding read_meeting_id
check_leave root c = do
  meeting_id ← read_meeting_id root
  uid ← found (positive c.user_id) error_token
  passes (meeting_id, uid)

abbrev pub leaving : ℕ → Connection → LeaveAnswers → World → Checked (ℕ × ℕ) → Done
leaving s c a w (fails e) = refuse e none [] w
leaving s c a w (passes (meeting_id, uid)) =
    if c.meeting_id == meeting_id
    then left s uid meeting_id a w (store (leave_attempts uid a))
    else left_late a.info w

unfoldable pub leave_meeting : Option Json → LeaveAnswers → ℕ → Connection → World → Done
unfolding check_leave store leave_attempts part forget
leave_meeting root a s c w = leaving s c a w (check_leave root c)

-- SMembers; Del, ZRem and the two HSets for a member; Del of the members
pub record CleanupAnswers : Type 0 where
  pub members : Option (List Bytes)
  pub state_deleted : Bytes → Bool
  pub deadline_removed : Bytes → Bool
  pub status_set : Bytes → Bool
  pub meeting_set : Bytes → Bool
  pub members_deleted : Bool

abbrev pub clean_member : CleanupAnswers → Bytes → Option ℤ → List StoreCommand × Bool
clean_member b text none = ([], false)
clean_member b text (some uid) = (
  deletes_state (user_key uid)
      ∷ (removes_deadline (user_key uid)
          ∷ (sets_presence (user_key uid) false
              ∷ (sets_presence_meeting (user_key uid) false ∷ []))),
  b.state_deleted text && (b.deadline_removed text && (b.status_set text && b.meeting_set text)),
)

unfoldable pub clean_members : CleanupAnswers → List Bytes → List StoreCommand × Bool
unfolding leading_int
clean_members b [] = ([], true)
clean_members b (t ∷ ts) =
    let (cs, done) = clean_member b t (leading_int t) in
    let (ds, rest) = clean_members b ts in (cs ++ ds, done && rest)

unfoldable pub clean_up : CleanupAnswers → Option (List Bytes) → List StoreCommand × Bool
unfolding clean_members
clean_up b none = ([], false)
clean_up b (some ms) =
    let (cs, done) = clean_members b ms in (cs ++ deletes_members ∷ [], b.members_deleted && done)

-- The loop over the sessions that are told of the end.
abbrev pub told_end : ℕ → Option Connection → World → World × List (ℕ × Notice) × List Leave
told_end s none w = (w, [], [])
told_end s (some c) w =
    let (w', ls) = release_media s w in (set_meeting_id s 0 w', (s, meeting_ended) ∷ [], ls)

unfoldable pub tell_end : List ℕ → World → World × List (ℕ × Notice) × List Leave
unfolding release_media set_meeting_id
tell_end [] w = (w, [], [])
tell_end (s ∷ ss) w =
    let (w', sent, ls) = told_end s (lookup s w.connections) w in
    let (w'', more, ks) = tell_end ss w' in (w'', sent ++ more, ls ++ ks)

abbrev pub without_members : ℕ → World → World
without_members meeting_id w = record w {
  room = record w.room { members = [] };
  presence = release_room_users meeting_id w.presence;
}

unfoldable pub closed_down : ℕ → ℕ → CleanupAnswers → World → Done
unfolding clean_up tell_end release_room_users
closed_down uid meeting_id b w =
    let (cs, clean) = clean_up b b.members in
    let (w', sent, ls) = tell_end w.room.sessions (without_members meeting_id w) in
    record {
      world = set_sessions [] w';
      replies = ended_meeting clean ∷ [];
      notices = sent;
      commands = ends_meeting uid ∷ cs;
      leaves = ls;
    }

abbrev pub ended_by : CleanupAnswers → HostAnswers → World → Checked (ℕ × ℕ) → Done
ended_by b a w (fails e) = refuse e none [] w
ended_by b a w (passes (meeting_id, uid)) =
    if a.updated
    then closed_down uid meeting_id b w
    else refuse error_mysql none (ends_meeting uid ∷ []) w

unfoldable pub end_meeting : Option Json → CleanupAnswers → HostAnswers → Connection → World → Done
unfolding check_host closed_down
end_meeting root b a c w = ended_by b a w (check_host is_in_progress root a c)
