-- ===== src/Realtime/Accounts.antt =====
-- The requests of a user outside a meeting (LoginHandler, CreateMeetingHandler,
-- GetPastMeetingHandler and AiAskHandler of RealtimeServer/src/service/LogicSystem.cpp), for a session
-- that is there. What MySQL, Redis, crypt and the AI service give is in the answers; an exception of
-- theirs is not modelled, one that jsoncpp throws is the error ERROR_NETWORK.
pub mod Login
pub mod Creation
use sync_rtc.Prelude.{
  ℕ, zero, suc, ◌^◌, Bool, true, false, not, ◌&&◌, ◌||◌, Option, none, some, List, [], ◌∷◌, ltb,
  leb, ◌==◌, if◌then◌else◌, ℤ, pos, negsuc, Bytes, codes, length, is_empty, is_positive,
}
use sync_rtc.Prelude.Json.{Json, Fields, null, bool, integer, real, str, arr, obj, member}
use sync_rtc.Realtime.Meetings.{
  ErrorCode, error_json, error_redis, error_mysql, error_network, error_password, error_token,
  MeetingStatus, Connection, Checked, passes, fails, ◌>>=◌, ◌>>◌, ensure, found, object,
  string_value, positive,
}

-- RecentMeetingInfo
pub record RecentMeeting : Type 0 where
  pub meeting_code : Bytes
  pub title : Bytes
  pub creator_display_name : Bytes
  pub creator_avatar_url : Bytes
  pub status : MeetingStatus
  pub requires_password : Bool
  pub max_participants : ℕ
  pub scheduled_at : Bytes

-- HistoryMeetingInfo
pub record HistoryMeeting : Type 0 where
  pub meeting_code : Bytes
  pub title : Bytes
  pub creator_display_name : Bytes
  pub creator_avatar_url : Bytes
  pub started_at : Bytes
  pub ended_at : Bytes

-- UserInfo
pub record UserInfo : Type 0 where
  pub uid : ℤ
  pub username : Bytes
  pub email : Bytes

-- RedisMgr::LookupResult, with the text as the parser reads it
pub data Lookup : Type 0 where
  found_text : Option Json → Lookup
  missing : Lookup
  unavailable : Lookup

pub record LoginRequest : Type 0 where
  pub uid : ℤ
  pub token : Bytes
  pub email : Bytes

-- Lookup of the session of a token, GetUserInfo of an email, GetMeetingRecently of a user, IsClosed,
-- and what asInt makes of a number with a fraction
pub record LoginAnswers : Type 0 where
  pub session_of : Bytes → Lookup
  pub user_info : Bytes → Option UserInfo
  pub recent : ℕ → Option (List RecentMeeting)
  pub closed : Bool
  pub real_value : Option ℤ

abbrev pub fits_int : ℤ → Bool
fits_int (pos n) = ltb n (2 ^ 31)
fits_int (negsuc n) = ltb n (2 ^ 31)

-- isInt with asInt, for a number without a fraction
abbrev pub int_value : Json → Option ℤ
int_value (integer z) = if fits_int z then some z else none
int_value _ = none

-- asInt, which throws where the value has no int
abbrev pub as_int : Option ℤ → Json → Option ℤ
as_int r null = some (pos 0)
as_int r (bool true) = some (pos 1)
as_int r (bool false) = some (pos 0)
as_int r (integer z) = if fits_int z then some z else none
as_int r real = r
as_int r (str s) = none
as_int r (arr vs) = none
as_int r (obj fs) = none

unfoldable pub read_login : Option Json → Checked LoginRequest
read_login root = do
  fields ← found (object root) error_json
  uid ← found (int_value (member "uid" fields)) error_json
  token ← found (string_value (member "token" fields)) error_json
  email ← found (string_value (member "email" fields)) error_json
  passes (record { uid = uid; token = token; email = email })

abbrev pub session_info : Lookup → Checked Json
session_info (found_text (some v)) = passes v
session_info (found_text none) = fails error_token
session_info missing = fails error_token
session_info unavailable = fails error_redis

-- session_info["uid"].asInt(), where the brackets throw but on an object and on null
abbrev pub info_uid : Option ℤ → Json → Option ℤ
info_uid r (obj fs) = as_int r (member "uid" fs)
info_uid r null = some (pos 0)
info_uid r _ = none

abbrev pub is_user : ℕ → ℤ → Bool
is_user u (pos n) = n == u
is_user u (negsuc n) = false

-- The user that the token stands for; a session keeps the user it has.
unfoldable pub check_token : LoginRequest → LoginAnswers → Connection → Checked ℕ
check_token q a c = do
  value ← session_info (a.session_of q.token)
  uid ← found (info_uid a.real_value value) error_network
  user ← found (positive uid) error_token
  ensure (is_user user q.uid) error_token
  ensure (not (is_positive c.user_id && not (is_user user c.user_id))) error_token
  passes user

unfoldable pub check_profile : LoginRequest → LoginAnswers → ℕ → Checked UserInfo
check_profile q a user = do
  info ← found (a.user_info q.email) error_mysql
  ensure (is_user user info.uid && not (is_empty info.username)) error_mysql
  passes info

abbrev pub capabilities : List Bytes
capabilities = codes "meeting_resume_v1" ∷ (codes "heartbeat_v1" ∷ (codes "heartbeat_v2" ∷ []))

-- The response. A refusal after the profile is known still carries it, and a session that closed
-- meanwhile gets its meetings without an error code and without capabilities.
pub data LoginReply : Type 0 where
  login_refused : ErrorCode → Option UserInfo → LoginReply
  login_closed : UserInfo → List RecentMeeting → LoginReply
  logged_in : UserInfo → List RecentMeeting → List Bytes → LoginReply

pub record LoginDone : Type 0 where
  pub connection : Connection
  pub reply : LoginReply

abbrev pub no_login : Connection → LoginReply → LoginDone
no_login c r = record { connection = c; reply = r }

abbrev pub bound : LoginRequest → Bool → Connection → ℕ → UserInfo → List RecentMeeting → LoginDone
bound q true c user info ms = no_login c (login_closed info ms)
bound q false c user info ms = record {
  connection = record c { user_id = pos user; auth_token = q.token };
  reply = logged_in info ms capabilities;
}

abbrev pub listed :
    LoginRequest
    → LoginAnswers
    → Connection
    → ℕ
    → UserInfo
    → Option (List RecentMeeting)
    → LoginDone
listed q a c user info none = no_login c (login_refused error_mysql (some info))
listed q a c user info (some ms) = bound q a.closed c user info ms

abbrev pub profiled : LoginRequest → LoginAnswers → Connection → ℕ → Checked UserInfo → LoginDone
profiled q a c user (fails e) = no_login c (login_refused e none)
profiled q a c user (passes info) = listed q a c user info (a.recent user)

abbrev pub known_user : LoginRequest → LoginAnswers → Connection → Checked ℕ → LoginDone
known_user q a c (fails e) = no_login c (login_refused e none)
known_user q a c (passes user) = profiled q a c user (check_profile q a user)

abbrev pub logging_in : LoginAnswers → Connection → Checked LoginRequest → LoginDone
logging_in a c (fails e) = no_login c (login_refused e none)
logging_in a c (passes q) = known_user q a c (check_token q a c)

unfoldable pub login : Option Json → LoginAnswers → Connection → LoginDone
unfolding read_login check_token check_profile
login root a c = logging_in a c (read_login root)

-- CreateMeetingInfo; an empty hash for a meeting without a password
pub record NewMeeting : Type 0 where
  pub user : ℕ
  pub title : Bytes
  pub scheduled_at : Bytes
  pub password_hash : Bytes

pub record CreateRequest : Type 0 where
  pub user : ℕ
  pub title : Bytes
  pub scheduled_at : Bytes
  pub password : Bytes

-- HashMeetingPassword, CreateMeeting and GetMeetingRecently
pub record CreateAnswers : Type 0 where
  pub hash : Bytes → Bytes
  pub takes : NewMeeting → Bool
  pub recent : ℕ → Option (List RecentMeeting)

-- A text that a request may leave out.
abbrev pub optional_text : Json → Checked Bytes
optional_text null = passes []
optional_text (str s) = passes s
optional_text _ = fails error_json

unfoldable pub read_create : Option Json → Connection → Checked CreateRequest
read_create root c = do
  fields ← found (object root) error_json
  title ← found (string_value (member "title" fields)) error_json
  ensure (not (is_empty title) && leb (length title) 200) error_json
  scheduled_at ← optional_text (member "scheduled_at" fields)
  password ← optional_text (member "password" fields)
  ensure (leb (length password) 72) error_password
  user ← found (positive c.user_id) error_token
  passes (record { user = user; title = title; scheduled_at = scheduled_at; password = password })

abbrev pub nonempty_hash : Bytes → Checked Bytes
nonempty_hash [] = fails error_password
nonempty_hash (h ∷ hs) = passes (h ∷ hs)

abbrev pub hash_password : (Bytes → Bytes) → Bytes → Checked Bytes
hash_password hash [] = passes []
hash_password hash (x ∷ xs) = nonempty_hash (hash (x ∷ xs))

-- The response, with the list of recent meetings where it could be read, and what CreateMeeting was
-- called with
pub data CreateReply : Type 0 where
  create_refused : ErrorCode → CreateReply
  created : Option (List RecentMeeting) → CreateReply

pub record CreateDone : Type 0 where
  pub reply : CreateReply
  pub asked : List NewMeeting

abbrev pub taken : NewMeeting → CreateAnswers → Bool → CreateDone
taken m a true = record { reply = created (a.recent m.user); asked = m ∷ [] }
taken m a false = record { reply = create_refused error_mysql; asked = m ∷ [] }

abbrev pub hashed : CreateRequest → CreateAnswers → Checked Bytes → CreateDone
hashed q a (fails e) = record { reply = create_refused e; asked = [] }
hashed q a (passes hash) =
    let m : NewMeeting = record {
      user = q.user;
      title = q.title;
      scheduled_at = q.scheduled_at;
      password_hash = hash;
    } in
    taken m a (a.takes m)

abbrev pub creating : CreateAnswers → Checked CreateRequest → CreateDone
creating a (fails e) = record { reply = create_refused e; asked = [] }
creating a (passes q) = hashed q a (hash_password a.hash q.password)

unfoldable pub create_meeting : Option Json → CreateAnswers → Connection → CreateDone
unfolding read_create
create_meeting root a c = creating a (read_create root c)

-- The meetings of the past, with what GetHistoryMeeting gives
unfoldable pub past_meetings :
    (ℕ → Option (List HistoryMeeting)) → Connection → Checked (List HistoryMeeting)
past_meetings history c = do
  user ← found (positive c.user_id) error_token
  found (history user) error_mysql

-- The answer of the AI service: its error, answer and error_message
pub record AiAnswer : Type 0 where
  pub error : ℤ
  pub answer : Bytes
  pub error_message : Bytes

-- The response to a question, without the fixed texts that go with the errors of this server
pub data AiReply : Type 0 where
  ai_refused : ErrorCode → AiReply
  empty_question : AiReply
  request_failed : AiReply
  ai_error : ℤ → Bytes → AiReply
  ai_answered : Bytes → AiReply

abbrev pub from_service : Option AiAnswer → AiReply
from_service none = request_failed
from_service (some r) = elim r.error [
  | pos zero ↦ ai_answered r.answer
  | pos (suc n) ↦ ai_error r.error r.error_message
  | negsuc n ↦ ai_error r.error r.error_message
]

abbrev pub put_question : Option (Bytes → Option AiAnswer) → Bytes → AiReply
put_question service [] = empty_question
put_question none (x ∷ xs) = request_failed
put_question (some ask) (x ∷ xs) = from_service (ask (x ∷ xs))

abbrev pub ask_ai : Option (Bytes → Option AiAnswer) → Checked Bytes → AiReply
ask_ai service (fails e) = ai_refused e
ask_ai service (passes question) = put_question service question

unfoldable pub read_question : Option Json → Connection → Checked Bytes
read_question root c = do
  _ ← found (positive c.user_id) error_token
  fields ← found (object root) error_json
  found (string_value (member "question" fields)) error_json

-- The service is missing where there is no stub; it answers none where the call fails.
unfoldable pub ai_ask : Option Json → Option (Bytes → Option AiAnswer) → Connection → AiReply
unfolding read_question
ai_ask root service c = ask_ai service (read_question root c)
