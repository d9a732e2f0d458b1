-- ===== src/Realtime/Meetings/Join.antt =====
-- Joining and resuming a meeting (JoinMeeetingHandler of RealtimeServer/src/service/LogicSystem.cpp).
-- The text fields of a reply that come unchanged from MeetingInfo are not listed again.
mod Checks
unfoldable pub use Checks.{
  check_meeting, read_resume, may_resume, check_resume, check_password, check_place, name_request,
  admit,
}
pub use Checks.{JoinAnswers, ResumeRequest, Place, Admission, Named, is_over}
use sync_rtc.Prelude.{
  ℕ, ◌+◌, ◌%◌, ◌^◌, Bool, true, false, not, ◌&&◌, ◌||◌, Option, none, some, List, [], ◌∷◌, ◌++◌,
  ltb, leb, ◌==◌, if◌then◌else◌, ℤ, pos, negsuc, Bytes, codes, length, is_empty,
}
use sync_rtc.Prelude.Json.{Json, Fields, member, same_bytes}
use sync_rtc.Prelude.Assoc.{lookup, assign}
use sync_rtc.Realtime.MediaSignals.{Leave}
use sync_rtc.Realtime.Meetings.{
  ErrorCode, error_json, error_redis, error_mysql, error_network, error_password,
  error_meeting_not_found, error_meeting_status, error_meeting_full, error_meeting_access,
  error_token, MeetingStatus, ended, cancelled, MeetingInfo, Connection, Membership, Room, World,
  Checked, passes, fails, ◌>>=◌, ◌>>◌, ensure, found, object, string_value, positive, user_key,
  has_bytes, read_uint64_value, leading_number, to_text, StoreCommand, adds_member, removes_member,
  records_part, activates_member, sets_presence, sets_presence_meeting, sets_active, Attempt, store,
  MemberValue, JoinedReply, member_joined, member_reconnected, Notice, joined, Done, refuse, lock,
  set_meeting_id, request_close, release_media, keep_sessions, all_but, set_sessions, broadcast,
}

-- The writes, and what is undone where one fails.
abbrev pub attempt : StoreCommand → Bool → List StoreCommand → ErrorCode → Attempt
attempt c answer undo code = record { command = c; answer = answer; undo = undo; code = code }

unfoldable pub join_attempts : Bool → Admission → JoinAnswers → List Attempt
join_attempts resuming d a =
    let undo = if d.place.already then [] else removes_member d.uid ∷ [] in
    attempt (adds_member d.uid) a.added [] error_redis
    ∷ ((if resuming
          then []
          else attempt (records_part d.uid) a.recorded undo error_meeting_access ∷ [])
        ++ (attempt (sets_presence d.uid true) a.set_status undo error_redis
            ∷ (attempt (sets_presence_meeting d.uid true) a.set_meeting undo error_redis
                ∷ ((if d.place.already
                      then []
                      else attempt (sets_active d.uid true) a.set_active (removes_member d.uid ∷ [])
                          error_redis
                        ∷ [])
                    ++ (if d.place.reconnected
                        then attempt (activates_member d.uid) a.activated [] error_redis ∷ []
                        else [])))))

unfoldable pub write_join :
    Bool → Admission → JoinAnswers → List StoreCommand × Checked (List Bytes)
unfolding store join_attempts
write_join resuming d a =
    let (cs, r) = store (join_attempts resuming d a) in (cs, r >> found a.members_after error_redis)

-- The session that had the membership, where it is there and another one.
abbrev pub session_of : Option Membership → Option ℕ
session_of none = none
session_of (some m) = m.session

abbrev pub other_than : ℕ → Option ℕ → Option ℕ
other_than s none = none
other_than s (some p) = if p == s then none else some p

unfoldable pub previous_session : ℕ → ℕ → World → Option ℕ
previous_session uid s w = other_than s (lock (session_of (lookup uid w.room.members)) w)

unfoldable pub detach : Option ℕ → World → World × List Leave
unfolding release_media set_meeting_id request_close
detach none w = (w, [])
detach (some p) w =
    let (w', ls) = release_media p w in (request_close p (set_meeting_id p 0 w'), ls)

-- ++generation for a session other than the one of the membership, or where that one is gone
abbrev pub next_generation : ℕ → World → Membership → ℕ
next_generation s w m = elim (lock m.session w) [
  | none ↦ (m.generation + 1) % 2 ^ 64
  | some p ↦ if p == s then m.generation else (m.generation + 1) % 2 ^ 64
]

unfoldable pub new_membership : Admission → Bytes → ℕ → World → Membership
new_membership d token s w = elim d.resumed [
  | none ↦ record {
    ticket = d.ticket;
    auth_token = token;
    last_request = [];
    generation = 1;
    session = some s;
    deadline = 0;
  }
  | some (q, m) ↦ record m {
    last_request = q.request_id;
    generation = next_generation s w m;
    session = some s;
    deadline = 0;
  }
]

-- remove_if, then push_back
abbrev pub stays : ℕ → Admission → ℕ → Connection → Bool
stays s d x c = not (x == s || (d.place.reconnected && user_key c.user_id == d.uid))

unfoldable pub enter : ℕ → Admission → World → World
unfolding keep_sessions
enter s d w = set_sessions (keep_sessions (stays s d) w.connections w.room.sessions ++ s ∷ []) w

unfoldable pub attach : ℕ → Admission → Bytes → World → World × List Leave
unfolding previous_session detach new_membership set_meeting_id enter
attach s d token w =
    let (w', ls) = detach (previous_session d.uid s w) w in
    let m = new_membership d token s w in
    (
      enter s d (
          set_meeting_id s d.info.meeting_id
            (record w' { room = record w'.room { members = assign d.uid m w'.room.members } })),
      ls,
    )

-- The list of members of the reply; the name is none where the handler writes "Member ".
unfoldable pub member_value : ℕ → JoinAnswers → Bytes → MemberValue
unfolding leading_number to_text
member_value uid a text = elim (leading_number text) [
  | none ↦ record { user = text; is_self = false; room_state = codes "active"; name = none }
  | some n ↦ record {
    user = to_text n;
    is_self = n == uid;
    room_state = if is_empty (a.state_of text) then codes "active" else a.state_of text;
    name = a.name_of text;
  }
]

unfoldable pub member_values : ℕ → JoinAnswers → List Bytes → List MemberValue
unfolding member_value
member_values uid a [] = []
member_values uid a (t ∷ ts) = member_value uid a t ∷ member_values uid a ts

-- The entry of the user itself, the last one in the list.
unfoldable pub own_value : List MemberValue → Option MemberValue
own_value [] = none
own_value (v ∷ vs) = elim (own_value vs) [
  | some u ↦ some u
  | none ↦ if v.is_self then some v else none
]

-- What the other sessions are told: of a new member, or of one that is back.
abbrev pub newcomer : Bool → Option MemberValue → ℕ → List Notice
newcomer already none count = []
newcomer already (some v) count =
    if already then [] else member_joined (record v { is_self = false }) count ∷ []

abbrev pub announcements : Admission → List MemberValue → List Notice
announcements d vs =
    newcomer d.place.already (own_value vs) (length vs)
    ++ (if d.place.reconnected then member_reconnected d.uid ∷ [] else [])

unfoldable pub announce : ℕ → List Notice → World → World × List (ℕ × Notice)
unfolding broadcast
announce uid [] w = (w, [])
announce uid (n ∷ ns) w =
    let (w', sent) = broadcast (all_but uid) n w in
    let (w'', more) = announce uid ns w' in (w'', sent ++ more)

abbrev pub request_id_of : Option ResumeRequest → Option Bytes
request_id_of none = none
request_id_of (some q) = some q.request_id

unfoldable pub joined_reply :
    ℕ → Option Bytes → Admission → List MemberValue → Membership → JoinedReply
joined_reply uid request_id d vs m = record {
  request_id = request_id;
  resume_ticket = m.ticket;
  membership_generation = m.generation;
  info = d.info;
  is_host = d.info.creator_user_id == uid;
  member_list = vs;
}

unfoldable pub complete :
    ℕ
    → Option Bytes
    → Admission
    → JoinAnswers
    → Bytes
    → List StoreCommand
    → List Bytes
    → World
    → Done
unfolding new_membership attach member_values own_value announce joined_reply
complete s request_id d a token cs members w =
    let m = new_membership d token s w in
    let vs = member_values d.uid a members in
    let (w', ls) = attach s d token w in
    let (w'', sent) = announce d.uid (announcements d vs) w' in
    record {
      world = w'';
      replies = joined (joined_reply d.uid request_id d vs m) ∷ [];
      notices = sent;
      commands = cs;
      leaves = ls;
    }

abbrev pub written :
    ℕ
    → Option Bytes
    → Admission
    → JoinAnswers
    → Bytes
    → World
    → List StoreCommand × Checked (List Bytes)
    → Done
written s request_id d a token w (cs, fails e) = refuse e request_id cs w
written s request_id d a token w (cs, passes members) = complete s request_id d a token cs members w

abbrev pub admitted :
    ℕ → Bool → Option Bytes → JoinAnswers → Bytes → World → Checked Admission → Done
admitted s resuming request_id a token w (fails e) = refuse e request_id [] w
admitted s resuming request_id a token w (passes d) =
    written s request_id d a token w (write_join resuming d a)

abbrev pub named : ℕ → Bool → JoinAnswers → Connection → World → Checked Named → Done
named s resuming a c w (fails e) = refuse e none [] w
named s resuming a c w (passes n) =
    admitted s resuming (request_id_of n.request) a c.auth_token w (admit resuming n a c w.room)

-- The response that the session does not take closes it.
abbrev pub answered : ℕ → Bool → Done → Done
answered s true done = done
answered s false done = record done { world = request_close s done.world }

-- JoinMeeetingHandler for a session that is there
unfoldable pub join_meeting : Bool → Option Json → JoinAnswers → ℕ → Connection → World → Done
unfolding name_request admit write_join complete request_close
join_meeting resuming root a s c w =
    answered s a.sent (named s resuming a c w (name_request resuming root a c w.room.id))
