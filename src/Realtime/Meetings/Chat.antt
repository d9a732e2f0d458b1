-- ===== src/Realtime/Meetings/Chat.antt =====
-- Messages of a meeting (SendMeetingMessageHandler, GetMeetingGroupMessagesHandler and
-- GetMeetingPrivateMessagesHandler of RealtimeServer/src/service/LogicSystem.cpp), for a session that
-- is there. MySQL and Redis answer by the fields of the answers. What the history handlers echo of
-- the request beside an error is left out.
pub mod Reading
pub mod Delivery
use sync_rtc.Prelude.{
  ℕ, zero, suc, ◌%◌, ◌^◌, Bool, true, false, not, ◌&&◌, ◌||◌, Option, none, some, List, [], ◌∷◌,
  ◌++◌, ltb, leb, ◌==◌, if◌then◌else◌, ℤ, pos, negsuc, Bytes, codes, length, is_empty, min,
}
use sync_rtc.Prelude.Json.{Json, Fields, null, str, integer, field, end, member, same_bytes}
use sync_rtc.Prelude.Assoc.{lookup}
use sync_rtc.Realtime.Meetings.{
  ErrorCode, error_json, error_mysql, error_meeting_not_found, error_meeting_status,
  error_meeting_access, error_token, MeetingInfo, Connection, World, Checked, passes, fails, ◌>>=◌,
  ◌>>◌, ensure, found, object, string_value, positive, user_key, whole_number, read_uint64_value,
  meeting_id_text, keep_sessions, set_sessions,
}
use sync_rtc.Realtime.Meetings.Join.{is_over}
use text.Mathlib.Text.{◌==◌ as str_eq}
use Prim.Native.String.{String}

-- isMember
unfoldable pub has_member : String → Fields → Bool
has_member k end = false
has_member k (field j v fs) = str_eq j k || has_member k fs

abbrev pub is_null : Json → Bool
is_null null = true
is_null _ = false

-- MeetingMessageInfo
pub record ChatMessage : Type 0 where
  pub message_id : ℕ
  pub meeting_id : ℕ
  pub sender : ℕ
  pub receiver : Option ℕ
  pub client_msg_id : Bytes
  pub content : Bytes
  pub created_at : Bytes

-- MeetingMessageToJson: the message with the name of its sender, and whether it is the reader's
pub record MessageValue : Type 0 where
  pub message : ChatMessage
  pub sender_name : Bytes
  pub is_mine : Bool

-- A request to send; no target for the whole group.
pub record SendRequest : Type 0 where
  pub meeting_text : Bytes
  pub client_id : Bytes
  pub chat_type : Bytes
  pub text : Bytes
  pub target_value : Json

unfoldable pub read_send : Option Json → Checked SendRequest
unfolding has_member
read_send root = do
  fields ← found (object root) error_json
  meeting ← found (string_value (member "meeting_id" fields)) error_json
  kind ← found (string_value (member "chat_type" fields)) error_json
  text ← found (string_value (member "content" fields)) error_json
  client ← found (string_value (member "client_msg_id" fields)) error_json
  ensure (has_member "target_user_id" fields) error_json
  passes (record {
    meeting_text = meeting;
    client_id = client;
    chat_type = kind;
    text = text;
    target_value = member "target_user_id" fields;
  })

-- A positive target of a private message, null for the group
abbrev pub target_id : Json → Option ℕ
target_id (integer (pos zero)) = none
target_id (integer (pos (suc n))) = some (suc n)
target_id _ = none

abbrev pub read_target : Bool → Json → Checked (Option ℕ)
read_target true v = if is_null v then passes none else fails error_json
read_target false v = found (target_id v) error_json >>= λ t. passes (some t)

-- What storage answers: SIsMember of the sender and of the target, GetMeetingInfoById,
-- GetUserDisplayNameById, and SaveMeetingMessage, which gives the message as it is stored
pub record SendAnswers : Type 0 where
  pub sender_in : Bool
  pub target_in : Bool
  pub info : Option MeetingInfo
  pub sender_name : Option Bytes
  pub save : ChatMessage → Option ChatMessage

abbrev pub is_group : Bytes → Bool
is_group kind = same_bytes kind (codes "group")

unfoldable pub check_send : SendRequest → Connection → Checked (ℕ × ℕ × Option ℕ)
unfolding whole_number
check_send q c = do
  ensure
      ((is_group q.chat_type || same_bytes q.chat_type (codes "private"))
        && (not (is_empty q.text)
            && (leb (length q.text) 2000
                && (not (is_empty q.client_id) && leb (length q.client_id) 128))))
      error_json
  target ← read_target (is_group q.chat_type) q.target_value
  meeting_id ← found (meeting_id_text (some q.meeting_text)) error_json
  uid ← found (positive c.user_id) error_token
  ensure (c.meeting_id == meeting_id) error_meeting_access
  passes (meeting_id, uid, target)

abbrev pub is_group_target : Option ℕ → Bool
is_group_target none = true
is_group_target (some t) = false

abbrev pub new_message : SendRequest → ℕ → ℕ → Option ℕ → ChatMessage
new_message q meeting_id uid target = record {
  message_id = 0;
  meeting_id = meeting_id;
  sender = uid;
  receiver = target;
  client_msg_id = q.client_id;
  content = q.text;
  created_at = [];
}

unfoldable pub save_message : SendRequest → SendAnswers → ℕ → ℕ → Option ℕ → Checked MessageValue
save_message q a meeting_id uid target = do
  ensure a.sender_in error_meeting_access
  ensure (is_group_target target || a.target_in) error_meeting_access
  info ← found a.info error_meeting_not_found
  ensure (not (is_over info.status)) error_meeting_status
  name ← found a.sender_name error_mysql
  stored ← found (a.save (new_message q meeting_id uid target)) error_mysql
  passes (record { message = stored; sender_name = name; is_mine = true })

-- Who gets the push: static_cast<int> of the target keeps its lower 32 bits.
abbrev pub gets : ℕ → Option ℕ → Connection → Bool
gets uid none c = true
gets uid (some t) c = user_key c.user_id == uid || user_key c.user_id == t % 2 ^ 32

-- The sessions that are sent a push
unfoldable pub recipients : ℕ → Option ℕ → World → List ℕ
unfolding keep_sessions
recipients uid target w = keep_sessions (λ s c. gets uid target c) w.connections w.room.sessions

-- An error, with the texts that the request is known by once it is read, or the stored message
pub data SendReply : Type 0 where
  send_refused : ErrorCode → Option (Bytes × Bytes) → SendReply
  sent_as : MessageValue → SendReply

pub record Sent : Type 0 where
  pub world : World
  pub reply : SendReply
  pub pushes : List (ℕ × MessageValue)

unfoldable pub push_all : List ℕ → MessageValue → List (ℕ × MessageValue)
push_all [] v = []
push_all (s ∷ ss) v = (s, v) ∷ push_all ss v

abbrev pub pushed : ℕ → Option ℕ → MessageValue → World → Sent
pushed uid target v w = record {
  world = set_sessions (keep_sessions (λ s c. true) w.connections w.room.sessions) w;
  reply = sent_as v;
  pushes = push_all (recipients uid target w) v;
}

abbrev pub send_error : ErrorCode → Option (Bytes × Bytes) → World → Sent
send_error e known w = record { world = w; reply = send_refused e known; pushes = [] }

abbrev pub saved : SendRequest → ℕ → Option ℕ → World → Checked MessageValue → Sent
saved q uid target w (fails e) = send_error e (some (q.meeting_text, q.client_id)) w
saved q uid target w (passes v) = pushed uid target v w

abbrev pub allowed : SendRequest → SendAnswers → World → Checked (ℕ × ℕ × Option ℕ) → Sent
allowed q a w (fails e) = send_error e (some (q.meeting_text, q.client_id)) w
allowed q a w (passes (meeting_id, uid, target)) =
    saved q uid target w (save_message q a meeting_id uid target)

abbrev pub sending : SendAnswers → Connection → World → Checked SendRequest → Sent
sending a c w (fails e) = send_error e none w
sending a c w (passes q) = allowed q a w (check_send q c)

unfoldable pub send_message : Option Json → SendAnswers → Connection → World → Sent
unfolding read_send check_send save_message recipients push_all
send_message root a c w = sending a c w (read_send root)

-- Pages of the history. before_message_id 0 is the newest page.
pub record Page : Type 0 where
  pub before : ℕ
  pub limit : ℕ

abbrev pub nonzero_value : Option ℕ → Option ℕ
nonzero_value none = none
nonzero_value (some zero) = none
nonzero_value (some (suc n)) = some (suc n)

unfoldable pub read_before : Json → Checked ℕ
unfolding read_uint64_value
read_before null = passes 0
read_before v = found (read_uint64_value v) error_json

unfoldable pub read_limit : Json → Checked ℕ
unfolding read_uint64_value
read_limit null = passes 50
read_limit v = found (nonzero_value (read_uint64_value v)) error_json >>= λ n. passes (min n 100)

unfoldable pub read_page : Fields → Checked Page
unfolding read_before read_limit
read_page fields = do
  before ← read_before (member "before_message_id" fields)
  limit ← read_limit (member "limit" fields)
  passes (record { before = before; limit = limit })

-- SIsMember of the reader and of the peer, the query, and the names
pub record HistoryAnswers : Type 0 where
  pub reader_in : Bool
  pub peer_in : Bool
  pub query : ℕ → Option ℕ → Page → Option (List ChatMessage)
  pub name_of : ℕ → Option Bytes

abbrev pub name_or_number : (ℕ → Bytes) → Option Bytes → ℕ → Bytes
name_or_number fallback none n = fallback n
name_or_number fallback (some s) n = s

-- `fallback` is the text of the handler for a user without a name.
unfoldable pub message_values :
    (ℕ → Bytes) → ℕ → HistoryAnswers → List ChatMessage → List MessageValue
message_values fallback uid a [] = []
message_values fallback uid a (m ∷ ms) =
    record {
      message = m;
      sender_name = name_or_number fallback (a.name_of m.sender) m.sender;
      is_mine = m.sender == uid;
    }
    ∷ message_values fallback uid a ms

unfoldable pub group_messages :
    (ℕ → Bytes) → Option Json → HistoryAnswers → Connection → Checked (Page × List MessageValue)
unfolding read_page message_values
group_messages fallback root a c = do
  fields ← found (object root) error_json
  meeting_id ← found (nonzero_value (read_uint64_value (member "meeting_id" fields))) error_json
  page ← read_page fields
  uid ← found (positive c.user_id) error_token
  ensure (c.meeting_id == meeting_id) error_meeting_access
  ensure a.reader_in error_meeting_access
  messages ← found (a.query meeting_id none page) error_mysql
  passes (page, message_values fallback uid a messages)

unfoldable pub private_messages :
    (ℕ → Bytes) → Option Json → HistoryAnswers → Connection → Checked (ℕ × Page × List MessageValue)
unfolding read_page message_values
private_messages fallback root a c = do
  fields ← found (object root) error_json
  meeting_id ← found (nonzero_value (read_uint64_value (member "meeting_id" fields))) error_json
  peer ← found (nonzero_value (read_uint64_value (member "peer_user_id" fields))) error_json
  page ← read_page fields
  uid ← found (positive c.user_id) error_token
  ensure (c.meeting_id == meeting_id && (not (uid == peer) && ltb peer (2 ^ 31)))
      error_meeting_access
  ensure (a.reader_in && a.peer_in) error_meeting_access
  messages ← found (a.query meeting_id (some peer) page) error_mysql
  passes (peer, page, message_values fallback uid a messages)
