-- ===== src/Realtime/Meetings.antt =====
-- The meetings of RealtimeServer: what the handlers of LogicSystem (RealtimeServer/src/service/
-- LogicSystem.cpp, include/service/LogicSystem.h) read and write. A session object is known by a
-- number; one that is not in `connections` is gone, and its weak pointer gives none. The operations
-- of a meeting come one after the other. MySQL and Redis answer by the records of answers that each
-- handler takes; what the handlers write there is a list of commands.
use sync_rtc.Prelude.{
  ℕ, zero, suc, ◌+◌, ◌-◌, ◌*◌, ◌%◌, ◌/◌, ◌^◌, Bool, true, false, not, ◌&&◌, ◌||◌, Option, none,
  some, List, [], ◌∷◌, ◌++◌, ltb, leb, ◌==◌, if◌then◌else◌, ℤ, pos, negsuc, Bytes, length,
}
use sync_rtc.Prelude.Json.{Json, Fields, str, integer, obj, null, member, same_bytes}
mod Text
pub mod Join
pub mod Admission
pub mod Leaving
pub mod Reconnection
pub mod Attachment
pub mod Grace
pub mod Chat
pub mod Signalling
unfoldable pub use Text.{whole_number, leading_number, leading_int, to_text}
use sync_rtc.Prelude.Assoc.{Assoc, lookup, assign, erase}
use sync_rtc.Realtime.Presence.{UserPresence}
use sync_rtc.Realtime.MediaSignals.{MediaSignals, Leave, release_media_session}

-- ErrorCodes
pub data ErrorCode : Type 0 where
  error_json : ErrorCode
  error_redis : ErrorCode
  error_mysql : ErrorCode
  error_network : ErrorCode
  error_password : ErrorCode
  error_meeting_not_found : ErrorCode
  error_meeting_status : ErrorCode
  error_meeting_full : ErrorCode
  error_meeting_access : ErrorCode
  error_token : ErrorCode

pub data MeetingStatus : Type 0 where
  scheduled : MeetingStatus
  in_progress : MeetingStatus
  ended : MeetingStatus
  cancelled : MeetingStatus

-- The fields that the handlers read.
pub record MeetingInfo : Type 0 where
  pub meeting_id : ℕ
  pub creator_user_id : ℕ
  pub status : MeetingStatus
  pub requires_password : Bool
  pub max_participants : ℕ

-- The fields of a session that the handlers use; the media signal is in MediaSignals.
pub record Connection : Type 0 where
  pub user_id : ℤ
  pub auth_token : Bytes
  pub meeting_id : ℕ
  pub close_requested : Bool

-- `deadline` 0 is time_point{}; other readings of the steady clock are positive.
pub record Membership : Type 0 where
  pub ticket : Bytes
  pub auth_token : Bytes
  pub last_request : Bytes
  pub generation : ℕ
  pub session : Option ℕ
  pub deadline : ℕ

pub record Room : Type 0 where
  pub id : ℕ
  pub members : Assoc Membership
  pub sessions : List ℕ

pub record World : Type 0 where
  pub room : Room
  pub connections : Assoc Connection
  pub presence : Assoc UserPresence
  pub signals : MediaSignals

-- The handlers fail with a code, or go on.
pub data Checked {ℓ} (A : Type ℓ) : Type ℓ where
  passes : A → Checked A
  fails : ErrorCode → Checked A

infixl 5 ◌>>=◌ ◌>>◌
abbrev pub ◌>>=◌ {ℓ κ} : {A : Type ℓ} {B : Type κ} → Checked A → (A → Checked B) → Checked B
passes a >>= f = f a
fails e >>= f = fails e

abbrev pub ◌>>◌ {ℓ} : {B : Type ℓ} → Checked (Unit {0}) → Checked B → Checked B
m >> k = m >>= λ _. k

abbrev pub ensure : Bool → ErrorCode → Checked (Unit {0})
ensure true e = passes tt
ensure false e = fails e

-- The value that a query gives, or the code of its failure.
abbrev pub found {ℓ} : {A : Type ℓ} → Option A → ErrorCode → Checked A
found none e = fails e
found (some a) e = passes a

abbrev pub is_passed {ℓ} : {A : Type ℓ} → Checked A → Bool
is_passed (passes a) = true
is_passed (fails e) = false

-- reader.parse with isObject
abbrev pub object : Option Json → Option Fields
object (some (obj fs)) = some fs
object _ = none

-- isString with asString
abbrev pub string_value : Json → Option Bytes
string_value (str s) = some s
string_value _ = none

-- GetUserId() > 0, as a key of the tables
abbrev pub positive : ℤ → Option ℕ
positive (pos zero) = none
positive (pos (suc n)) = some (suc n)
positive (negsuc n) = none

-- An int as a key of the tables: its bit pattern.
abbrev pub user_key : ℤ → ℕ
user_key (pos n) = n
user_key (negsuc n) = 2 ^ 32 - 1 - n

abbrev pub has_bytes : List Bytes → Bytes → Bool
has_bytes [] t = false
has_bytes (x ∷ xs) t = same_bytes x t || has_bytes xs t

-- ReadUInt64Value, for numbers within the 64 bits that the parser takes
unfoldable pub read_uint64_value : Json → Option ℕ
unfolding whole_number
read_uint64_value (integer (pos n)) = some n
read_uint64_value (integer (negsuc n)) = none
read_uint64_value (str s) = whole_number s
read_uint64_value _ = none

abbrev nonzero : Option ℕ → Option ℕ
nonzero none = none
nonzero (some zero) = none
nonzero (some (suc n)) = some (suc n)

abbrev pub meeting_id_text : Option Bytes → Option ℕ
meeting_id_text none = none
meeting_id_text (some s) = nonzero (whole_number s)

-- The meeting_id of a request to start, leave or end a meeting or to send a message, a text.
unfoldable pub read_meeting_id : Option Json → Checked ℕ
unfolding whole_number
read_meeting_id root = do
  fields ← found (object root) error_json
  found (meeting_id_text (string_value (member "meeting_id" fields))) error_json

-- What the handlers write to Redis and MySQL for the meeting, each for a user.
pub data StoreCommand : Type 0 where
  -- SAdd and SRem on the members of the room
  adds_member : ℕ → StoreCommand
  removes_member : ℕ → StoreCommand
  -- UpdateMeetingPart, ActivateMember, StartMeeting, EndMeeting
  records_part : ℕ → StoreCommand
  activates_member : ℕ → StoreCommand
  starts_meeting : ℕ → StoreCommand
  ends_meeting : ℕ → StoreCommand
  -- HSet of status (in_meeting or online) and meeting_id of the presence
  sets_presence : ℕ → Bool → StoreCommand
  sets_presence_meeting : ℕ → Bool → StoreCommand
  -- HSet of room_state (active or reconnecting) and reconnect_deadline_at of the member, and its Del
  sets_active : ℕ → Bool → StoreCommand
  sets_deadline : ℕ → Option ℕ → StoreCommand
  deletes_state : ℕ → StoreCommand
  -- ZAdd and ZRem on the deadlines, and Del of the members of the room
  adds_deadline : ℕ → ℕ → StoreCommand
  removes_deadline : ℕ → StoreCommand
  deletes_members : StoreCommand

-- A command with its answer, and what the handler does when that is false.
pub record Attempt : Type 0 where
  pub command : StoreCommand
  pub answer : Bool
  pub undo : List StoreCommand
  pub code : ErrorCode

-- The commands of a chain that stops at the first failure.
unfoldable pub store : List Attempt → List StoreCommand × Checked (Unit {0})
store [] = ([], passes tt)
store (a ∷ rest) =
    let (cs, r) = store rest in
    if a.answer then (a.command ∷ cs, r) else (a.command ∷ a.undo, fails a.code)

-- An entry of the list of members in a reply.
pub record MemberValue : Type 0 where
  pub user : Bytes
  pub is_self : Bool
  pub room_state : Bytes
  pub name : Option Bytes

pub record JoinedReply : Type 0 where
  pub request_id : Option Bytes
  pub resume_ticket : Bytes
  pub membership_generation : ℕ
  pub info : MeetingInfo
  pub is_host : Bool
  pub member_list : List MemberValue

pub data Notice : Type 0 where
  member_joined : MemberValue → ℕ → Notice
  member_reconnected : ℕ → Notice
  member_reconnecting : ℕ → ℕ → ℕ → Notice
  member_timeout_left : ℕ → ℕ → Notice
  member_left : ℕ → ℕ → Notice
  meeting_started : Notice
  meeting_ended : Notice

-- The response to a request: an error, the full answer to a join, success, or success with
-- cleanup_sync. request_id goes back also with an error.
pub data Reply : Type 0 where
  refused : ErrorCode → Option Bytes → Reply
  joined : JoinedReply → Reply
  succeeded : Reply
  ended_meeting : Bool → Reply

-- What a handler does.
pub record Done : Type 0 where
  pub world : World
  pub replies : List Reply
  pub notices : List (ℕ × Notice)
  pub commands : List StoreCommand
  pub leaves : List Leave

abbrev pub refuse : ErrorCode → Option Bytes → List StoreCommand → World → Done
refuse e request_id cs w = record {
  world = w;
  replies = refused e request_id ∷ [];
  notices = [];
  commands = cs;
  leaves = [];
}

-- lock() of a weak pointer
abbrev pub lock : Option ℕ → World → Option ℕ
lock none w = none
lock (some s) w = elim (lookup s w.connections) [ none ↦ none | some c ↦ some s ]

abbrev pub is_gone : Assoc Connection → ℕ → Bool
is_gone cs s = elim (lookup s cs) [ none ↦ true | some c ↦ false ]

abbrev pub change :
    (Connection → Connection) → ℕ → Option Connection → Assoc Connection → Assoc Connection
change f s none cs = cs
change f s (some c) cs = assign s (f c) cs

-- SetMeetingId and RequestClose of a session
unfoldable pub set_meeting_id : ℕ → ℕ → World → World
set_meeting_id s m w = record w {
  connections = change (λ c. record c { meeting_id = m }) s (lookup s w.connections) w.connections;
}

unfoldable pub request_close : ℕ → World → World
request_close s w = record w {
  connections =
      change (λ c. record c { close_requested = true }) s (lookup s w.connections) w.connections;
}

unfoldable pub release_media : ℕ → World → World × List Leave
unfolding release_media_session
release_media s w =
    let (t, ls) = release_media_session s w.signals in (record w { signals = t }, ls)

-- The sessions of a list that are there and meet the test.
abbrev pub taken_by : (Connection → Bool) → Option Connection → ℕ → List ℕ
taken_by p none s = []
taken_by p (some c) s = if p c then s ∷ [] else []

unfoldable pub keep_sessions : (ℕ → Connection → Bool) → Assoc Connection → List ℕ → List ℕ
keep_sessions p cs [] = []
keep_sessions p cs (s ∷ ss) = taken_by (p s) (lookup s cs) s ++ keep_sessions p cs ss

-- The loop that sends a notice to the sessions that meet a test, and drops those that are gone.
unfoldable pub addressed :
    (Connection → Bool) → Notice → Assoc Connection → List ℕ → List (ℕ × Notice)
addressed p n cs [] = []
addressed p n cs (s ∷ ss) =
    let rest = addressed p n cs ss in
    elim (lookup s cs) [ none ↦ rest | some c ↦ if p c then (s, n) ∷ rest else rest ]

abbrev pub anyone : Connection → Bool
anyone c = true

abbrev pub all_but : ℕ → Connection → Bool
all_but uid c = not (user_key c.user_id == uid)

abbrev pub set_sessions : List ℕ → World → World
set_sessions ss w = record w { room = record w.room { sessions = ss } }

unfoldable pub broadcast : (Connection → Bool) → Notice → World → World × List (ℕ × Notice)
unfolding keep_sessions addressed
broadcast p n w = (
  set_sessions (keep_sessions (λ s c. true) w.connections w.room.sessions) w,
  addressed p n w.connections w.room.sessions,
)
