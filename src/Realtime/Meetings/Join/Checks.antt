-- ===== src/Realtime/Meetings/Join/Checks.antt =====
-- The checks of JoinMeeetingHandler (RealtimeServer/src/service/LogicSystem.cpp) before its first
-- write.
use sync_rtc.Prelude.{
  ℕ, Bool, true, false, not, ◌&&◌, ◌||◌, Option, none, some, List, [], ltb, leb, ◌==◌,
  if◌then◌else◌, ℤ, pos, negsuc, Bytes, codes, length, is_empty,
}
use sync_rtc.Prelude.Json.{Json, Fields, arr, obj, member, same_bytes}
use sync_rtc.Prelude.Assoc.{lookup}
use sync_rtc.Realtime.Meetings.{
  error_json, error_redis, error_mysql, error_network, error_password, error_meeting_not_found,
  error_meeting_status, error_meeting_full, error_meeting_access, error_token, MeetingStatus, ended,
  cancelled, MeetingInfo, Connection, Membership, Room, Checked, passes, fails, ◌>>=◌, ◌>>◌, ensure,
  found, object, string_value, positive, has_bytes, read_uint64_value, to_text,
}

-- What storage and the clocks answer to one request.
pub record JoinAnswers : Type 0 where
  -- GetMeetingInfoByCode, or GetMeetingInfoById with its storage_error
  pub info : Option MeetingInfo
  pub storage_error : Bool
  -- GetMeetingPasswordHash, and CheckMeetingPassword, which asks crypt
  pub password_hash : Option Bytes
  pub password_matches : Bytes → Bytes → Bool
  -- SMembers before and after
  pub members_before : Option (List Bytes)
  pub members_after : Option (List Bytes)
  -- HGet of room_state; of reconnect_deadline_at as std::stoll reads it
  pub room_state : Bytes
  pub reconnect_deadline : Option ℤ
  -- time and steady_clock::now
  pub now : ℕ
  pub steady_now : ℕ
  -- NewResumeTicket, none if it throws
  pub new_ticket : Option Bytes
  -- SAdd, UpdateMeetingPart, the HSets of the presence and of room_state, ActivateMember
  pub added : Bool
  pub recorded : Bool
  pub set_status : Bool
  pub set_meeting : Bool
  pub set_active : Bool
  pub activated : Bool
  -- HGet of room_state and GetUserDisplayNameById for the members of the reply
  pub state_of : Bytes → Bytes
  pub name_of : Bytes → Option Bytes
  -- the Send of the response
  pub sent : Bool

-- asString throws for a list and for an object.
abbrev has_text : Json → Bool
has_text (arr vs) = false
has_text (obj fs) = false
has_text _ = true

-- The checks before the first write, up to the meeting. A resume converts the meeting_code too, and
-- does not use it.
abbrev code_of : Bool → Fields → Checked Bytes
code_of true fields = ensure (has_text (member "meeting_code" fields)) error_network >> passes []
code_of false fields = do
  code ← found (string_value (member "meeting_code" fields)) error_json
  ensure (not (is_empty code)) error_json
  passes code

abbrev pub is_over : MeetingStatus → Bool
is_over ended = true
is_over cancelled = true
is_over _ = false

unfoldable pub check_meeting : ℕ → JoinAnswers → Checked MeetingInfo
check_meeting room_id a = do
  info ← found a.info (if a.storage_error then error_mysql else error_meeting_not_found)
  ensure (info.meeting_id == room_id) error_meeting_not_found
  ensure (not (is_over info.status)) error_meeting_status
  passes info

-- What a resume request brings: request_id, resume_ticket, membership_generation.
pub record ResumeRequest : Type 0 where
  pub request_id : Bytes
  pub resume_ticket : Bytes
  pub known_generation : ℕ

unfoldable pub read_resume : Fields → Checked ResumeRequest
unfolding read_uint64_value
read_resume fields = do
  request_id ← found (string_value (member "request_id" fields)) error_json
  ensure (not (is_empty request_id) && leb (length request_id) 64) error_json
  ticket ← found (string_value (member "resume_ticket" fields)) error_json
  known ← found (read_uint64_value (member "membership_generation" fields)) error_json
  passes (record { request_id = request_id; resume_ticket = ticket; known_generation = known })

-- The member that may be resumed by this request of a session with this token, at this time.
unfoldable pub may_resume : ResumeRequest → Bytes → ℕ → Membership → Bool
may_resume q token steady_now m =
    same_bytes m.ticket q.resume_ticket
    && (not (is_empty m.auth_token)
        && (same_bytes m.auth_token token
            && (not (not (m.deadline == 0) && leb m.deadline steady_now)
                && (q.known_generation == m.generation
                    || (ltb q.known_generation m.generation
                        && same_bytes m.last_request q.request_id)))))

unfoldable pub check_resume : ResumeRequest → Bytes → ℕ → Option Membership → Checked Membership
unfolding may_resume
check_resume q token steady_now none = fails error_meeting_access
check_resume q token steady_now (some m) =
    if may_resume q token steady_now m then passes m else fails error_meeting_access

unfoldable pub check_password : Fields → JoinAnswers → Bool → Checked (Unit {0})
check_password fields a false = passes tt
check_password fields a true = do
  password ← found (string_value (member "password" fields)) error_password
  hash ← found a.password_hash error_password
  ensure (a.password_matches password hash) error_password

-- The place of the user among the members that Redis holds: already there, and reconnecting.
pub record Place : Type 0 where
  pub already : Bool
  pub reconnected : Bool

abbrev is_past : Option ℤ → ℕ → Bool
is_past none now = true
is_past (some (pos d)) now = leb d now
is_past (some (negsuc d)) now = true

unfoldable pub check_place : Bool → ℕ → MeetingInfo → JoinAnswers → Checked Place
unfolding to_text
check_place resuming uid info a = do
  members ← found a.members_before error_redis
  let already = has_bytes members (to_text uid)
  ensure (already || ltb (length members) info.max_participants) error_meeting_full
  ensure (not (resuming && not already)) error_meeting_access
  ensure
      (resuming
        || (not already
            || (same_bytes a.room_state (codes "reconnecting")
                && not (is_past a.reconnect_deadline a.now))))
      error_meeting_access
  passes (record { already = already; reconnected = already })

-- What the checks agree on, before the first write.
pub record Admission : Type 0 where
  pub uid : ℕ
  pub info : MeetingInfo
  -- the request and the member of a resume
  pub resumed : Option (ResumeRequest × Membership)
  pub place : Place
  pub ticket : Bytes

-- A request that names its user and an open meeting; a resume request is complete.
pub record Named : Type 0 where
  pub fields : Fields
  pub user : ℕ
  pub meeting : MeetingInfo
  pub request : Option ResumeRequest

abbrev resume_request : Bool → Fields → Checked (Option ResumeRequest)
resume_request false fields = passes none
resume_request true fields = read_resume fields >>= λ q. passes (some q)

unfoldable pub name_request : Bool → Option Json → JoinAnswers → Connection → ℕ → Checked Named
unfolding check_meeting read_resume
name_request resuming root a c room_id = do
  fields ← found (object root) error_json
  _ ← code_of resuming fields
  uid ← found (positive c.user_id) error_token
  info ← check_meeting room_id a
  q ← resume_request resuming fields
  passes (record { fields = fields; user = uid; meeting = info; request = q })

abbrev resumed_member :
    Option ResumeRequest
    → Bytes
    → JoinAnswers
    → Option Membership
    → Checked (Option (ResumeRequest × Membership))
resumed_member none token a m = passes none
resumed_member (some q) token a m =
    check_resume q token a.steady_now m >>= λ known. passes (some (q, known))

abbrev ticket_for : Option (ResumeRequest × Membership) → JoinAnswers → Checked Bytes
ticket_for none a = found a.new_ticket error_network
ticket_for (some (q, m)) a = passes m.ticket

unfoldable pub admit : Bool → Named → JoinAnswers → Connection → Room → Checked Admission
unfolding check_resume check_password check_place
admit resuming n a c room = do
  resumed ← resumed_member n.request c.auth_token a (lookup n.user room.members)
  check_password n.fields a (not resuming && n.meeting.requires_password)
  place ← check_place resuming n.user n.meeting a
  ticket ← ticket_for resumed a
  passes
      (record { uid = n.user; info = n.meeting; resumed = resumed; place = place; ticket = ticket })
