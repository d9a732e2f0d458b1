-- ===== src/Media/Logic/Requests.antt =====
-- ParseMediaSignalRequest, PostMsgToQue and PostSignalDisconnected of MediaServer's LogicSystem
-- (MediaServer/src/service/LogicSystem.cpp), with RememberRoom and GetMeetingIds of a connection.
-- The JSON reader is jsoncpp's and a parameter. A number that jsoncpp reads as a double with an
-- integral value counts as an integer in isUInt64 and isInt, and stands as one.
pub mod Coverage
use sync_rtc.Prelude.{
  ℕ, suc, ◌+◌, ◌^◌, Bool, true, false, not, ◌||◌, ◌&&◌, ltb, Option, none, some, List, [], ◌∷◌,
  ◌++◌, map, ◌==◌, if◌then◌else◌, ℤ, pos, negsuc, Bytes, codes,
}
use sync_rtc.Prelude.Json.{Json, null, bool, integer, real, str, arr, obj, member, same_bytes}
use sync_rtc.Prelude.Distinct.{contains}

abbrev pub and_then {ℓ ℓ'} : {A : Type ℓ} {B : Type ℓ'} → Option A → (A → Option B) → Option B
and_then none f = none
and_then (some a) f = f a

-- isUInt64 with asUInt64, isInt with asInt, isString with asString
abbrev pub as_uint64 : Json → Option ℕ
as_uint64 (integer (pos n)) = if ltb n (2 ^ 64) then some n else none
as_uint64 _ = none

abbrev pub as_int : Json → Option ℤ
as_int (integer (pos n)) = if ltb n (2 ^ 31) then some (pos n) else none
as_int (integer (negsuc n)) = if ltb n (2 ^ 31) then some (negsuc n) else none
as_int _ = none

abbrev pub as_string : Json → Option Bytes
as_string (str s) = some s
as_string _ = none

pub data SignalType : Type 0 where
  offer_signal : Bytes → SignalType
  answer_signal : Bytes → SignalType
  -- candidate and mid
  candidate_signal : Bytes → Bytes → SignalType
  leave_signal : SignalType

pub record MediaSignalRequest : Type 0 where
  pub signal_id : ℕ
  pub meeting_id : ℕ
  pub uid : ℤ
  pub content : SignalType

-- The part that the type asks for.
unfoldable pub signal_content : Json → Bytes → Option SignalType
unfolding member
signal_content (obj fields) kind =
    if same_bytes kind (codes "offer")
    then and_then (as_string (member "sdp" fields)) (λ sdp. some (offer_signal sdp))
    else if same_bytes kind (codes "answer")
    then and_then (as_string (member "sdp" fields)) (λ sdp. some (answer_signal sdp))
    else if same_bytes kind (codes "candidate")
    then and_then (as_string (member "candidate" fields)) (λ candidate.
      and_then (as_string (member "mid" fields)) (λ mid. some (candidate_signal candidate mid)))
    else if same_bytes kind (codes "leave")
    then some leave_signal
    else none
signal_content _ kind = none

unfoldable pub parse_root : Json → Option MediaSignalRequest
unfolding signal_content
parse_root (obj fields) = and_then (as_uint64 (member "signal_id" fields)) (λ signal_id.
    and_then (as_uint64 (member "meeting_id" fields)) (λ meeting_id.
      and_then (as_int (member "uid" fields)) (λ uid.
        and_then (as_string (member "signal_type" fields)) (λ kind.
          and_then (signal_content (obj fields) kind) (λ content. some (record {
            signal_id = signal_id;
            meeting_id = meeting_id;
            uid = uid;
            content = content;
          }))))))
parse_root _ = none

unfoldable pub parse_media_signal_request :
    (Bytes → Option Json) → Bytes → Option MediaSignalRequest
unfolding parse_root
parse_media_signal_request read message = and_then (read message) parse_root

-- What a connection posts to the workers.
pub data Posted : Type 0 where
  signal : MediaSignalRequest → Posted
  lost : ℕ → Posted

-- The side of the connection: m_meeting_ids and m_stopping.
pub record Connection : Type 0 where
  pub meeting_ids : List ℕ
  pub stopped : Bool

abbrev pub remember_room : ℕ → Connection → Connection
remember_room meeting_id c =
    if contains c.meeting_ids meeting_id
    then c
    else record c { meeting_ids = meeting_id ∷ c.meeting_ids }

abbrev pub post_request : Option MediaSignalRequest → Connection → Connection × List Posted
post_request none c = (c, [])
post_request (some q) c =
    if c.stopped then (c, []) else (remember_room q.meeting_id c, signal q ∷ [])

unfoldable pub post_msg_to_que :
    (Bytes → Option Json) → Bytes → Connection → Connection × List Posted
unfolding parse_media_signal_request
post_msg_to_que read message c = post_request (parse_media_signal_request read message) c

unfoldable pub post_signal_disconnected : Connection → List Posted
post_signal_disconnected c = if c.stopped then map lost c.meeting_ids else []

-- The reading thread: it posts message after message, while another thread may stop the connection.
pub data ReadStep : Type 0 where
  reads : Bytes → ReadStep
  stopped_by : ReadStep

abbrev pub read_step : (Bytes → Option Json) → ReadStep → Connection → Connection × List Posted
read_step read (reads message) c = post_msg_to_que read message c
read_step read stopped_by c = (record c { stopped = true }, [])

unfoldable pub read_steps :
    (Bytes → Option Json) → List ReadStep → Connection → Connection × List Posted
unfolding post_msg_to_que
read_steps read [] c = (c, [])
read_steps read (x ∷ xs) c =
    let (c', out) = read_step read x c in
    let (c'', rest) = read_steps read xs c' in (c'', out ++ rest)
