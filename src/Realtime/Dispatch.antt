-- ===== src/Realtime/Dispatch.antt =====
-- Which handler serves a message, and where (ResponseId, ReplyError, Route and Dispatch of
-- RealtimeServer/src/service/LogicDispatch.cpp, initHandlers of LogicSystem.cpp), for a session that is
-- there: Route drops the others. The message is given as its id and what the parser makes of its text.
pub mod Joining
pub mod Gate
use sync_rtc.Prelude.{
  ℕ, zero, suc, ◌^◌, Bool, true, false, not, ◌&&◌, ◌||◌, Option, none, some, List, [], ◌∷◌, ltb,
  ◌==◌, if◌then◌else◌, ℤ, pos, negsuc, Bytes, is_empty,
}
use sync_rtc.Prelude.Json.{Json, Fields, null, bool, integer, real, str, arr, obj, member}
use sync_rtc.Prelude.Assoc.{Assoc, lookup}
use sync_rtc.Realtime.Presence.{UserPresence, reserve_user, finish_join}
use sync_rtc.Realtime.Meetings.{
  ErrorCode, error_json, error_network, error_meeting_access, error_meeting_not_found, MeetingInfo,
  Connection, Membership, Room, World, Checked, passes, fails, ◌>>=◌, ◌>>◌, ensure, found, object,
  string_value, positive, user_key, whole_number, leading_number, Done, lock,
}
use sync_rtc.Realtime.Meetings.Chat.{has_member}

-- The entries of `maps`.
pub data Handler : Type 0 where
  logs_in : Handler
  asks_ai : Handler
  creates_meeting : Handler
  lists_past : Handler
  joins_meeting : Handler
  starts_meeting : Handler
  leaves_meeting : Handler
  ends_meeting : Handler
  sends_message : Handler
  lists_group : Handler
  lists_private : Handler
  offers_media : Handler
  names_candidate : Handler
  answers_media : Handler
  passes_response : Handler
  ends_session : Handler
  scans_deadlines : Handler

abbrev pub login_id : ℕ
login_id = 1010

abbrev pub create_id : ℕ
create_id = 1012

abbrev pub past_id : ℕ
past_id = 1014

abbrev pub join_id : ℕ
join_id = 1016

abbrev pub ai_ask_id : ℕ
ai_ask_id = 1044

abbrev pub resume_id : ℕ
resume_id = 1046

-- kDisconnected and kMediaMessage
abbrev pub disconnected_id : ℕ
disconnected_id = 65534

abbrev pub media_message_id : ℕ
media_message_id = 65532

abbrev pub maps : Assoc Handler
maps =
    (login_id, logs_in)
    ∷ ((ai_ask_id, asks_ai)
        ∷ ((create_id, creates_meeting)
            ∷ ((past_id, lists_past)
                ∷ ((join_id, joins_meeting)
                    ∷ ((resume_id, joins_meeting)
                        ∷ ((1018, starts_meeting)
                            ∷ ((1021, leaves_meeting)
                                ∷ ((1023, ends_meeting)
                                    ∷ ((1026, sends_message)
                                        ∷ ((1034, lists_group)
                                            ∷ ((1036, lists_private)
                                                ∷ ((1038, offers_media)
                                                    ∷ ((1039, names_candidate)
                                                        ∷ ((1043, answers_media)
                                                            ∷ ((media_message_id, passes_response)
                                                            ∷ ((disconnected_id, ends_session)
                                                            ∷ ((65533, scans_deadlines)
                                                            ∷ [])))))))))))))))))

-- ResponseId, whose other requests have 0
abbrev pub responses : Assoc ℕ
responses =
    (login_id, 1011)
    ∷ ((create_id, 1013)
        ∷ ((past_id, 1015)
            ∷ ((join_id, 1017)
                ∷ ((resume_id, 1047)
                    ∷ ((1018, 1019)
                        ∷ ((1021, 1022)
                            ∷ ((1023, 1024)
                                ∷ ((1026, 1027)
                                    ∷ ((1034, 1035)
                                        ∷ ((1036, 1037)
                                            ∷ ((1038, 1040)
                                                ∷ ((1039, 1041)
                                                    ∷ ((ai_ask_id, 1045) ∷ [])))))))))))))

unfoldable pub response_id : ℕ → Option ℕ
response_id id = lookup id responses

-- ReplyError: the response that goes to the session
abbrev pub answer_to : Option ℕ → ErrorCode → List (ℕ × ErrorCode)
answer_to none e = []
answer_to (some response) e = (response, e) ∷ []

unfoldable pub reply_error : ℕ → ErrorCode → List (ℕ × ErrorCode)
unfolding response_id
reply_error id e = answer_to (response_id id) e

-- Route: the message is dropped, refused, or goes to a meeting; to 0 for none.
pub data Routed : Type 0 where
  dropped : Routed
  turned_down : ErrorCode → Routed
  to_meeting : ℕ → Routed

abbrev pub meeting_of : Checked ℕ → Routed
meeting_of (fails e) = turned_down e
meeting_of (passes m) = to_meeting m

-- The meeting of a code, as GetMeetingInfoByCode gives it.
unfoldable pub route_join : Option Json → Connection → (Bytes → Option MeetingInfo) → Checked ℕ
route_join root c info_of = do
  ensure (c.meeting_id == 0) error_meeting_access
  _ ← found (positive c.user_id) error_json
  fields ← found (object root) error_json
  code ← found (string_value (member "meeting_code" fields)) error_json
  ensure (not (is_empty code)) error_json
  info ← found (info_of code) error_meeting_not_found
  passes info.meeting_id

abbrev pub or_zero : Option ℕ → ℕ
or_zero none = 0
or_zero (some n) = n

-- The meeting that a request names: a text that is a number to its end, or a number.
unfoldable pub named_meeting : Option Fields → ℕ
unfolding whole_number
named_meeting none = 0
named_meeting (some fields) = elim (member "meeting_id" fields) [
  | str s ↦ or_zero (whole_number s)
  | integer (pos n) ↦ if ltb n (2 ^ 64) then n else 0
  | integer (negsuc n) ↦ 0
  | null ↦ 0
  | bool b ↦ 0
  | real ↦ 0
  | arr vs ↦ 0
  | obj fs ↦ 0
]

-- The messages that need no meeting.
abbrev pub is_ordinary : ℕ → Bool
is_ordinary id =
    id == login_id
    || (id == create_id || (id == past_id || (id == ai_ask_id || id == disconnected_id)))

abbrev pub own_meeting : ℕ → Option Json → Connection → ℕ
own_meeting id root c =
    if c.meeting_id == 0 && not (is_ordinary id) then named_meeting (object root) else c.meeting_id

unfoldable pub route : ℕ → Option Json → Connection → Bool → (Bytes → Option MeetingInfo) → Routed
unfolding route_join named_meeting
route id root c closed info_of =
    if not (id == disconnected_id) && closed
    then dropped
    else if id == join_id
    then meeting_of (route_join root c info_of)
    else to_meeting (own_meeting id root c)

-- Dispatch: IsClosed, whether the storage pool has a place, and what asUInt64 makes of a number with a
-- fraction, none where it throws
pub record DispatchAnswers : Type 0 where
  pub closed : Bool
  pub reserves : Bool
  pub real_value : Option ℕ

abbrev pub is_join : ℕ → Bool
is_join id = id == join_id || id == resume_id

-- The member of the room is not the session's: a connection that another one took over.
abbrev pub held_by_other : ℕ → Option Membership → World → Bool
held_by_other s none w = false
held_by_other s (some m) w = elim (lock m.session w) [ none ↦ true | some p ↦ not (p == s) ]

unfoldable pub is_superseded : ℕ → ℕ → Connection → World → Bool
is_superseded id s c w =
    not (w.room.id == 0)
    && (not (is_join id || id == disconnected_id)
        && held_by_other s (lookup (user_key c.user_id) w.room.members) w)

-- stoull of a text, or asUInt64
unfoldable pub requested_meeting : Option ℕ → Json → Option ℕ
unfolding leading_number
requested_meeting r (str s) = leading_number s
requested_meeting r (integer (pos n)) = if ltb n (2 ^ 64) then some n else none
requested_meeting r (integer (negsuc n)) = none
requested_meeting r null = some 0
requested_meeting r (bool true) = some 1
requested_meeting r (bool false) = some 0
requested_meeting r real = r
requested_meeting r (arr vs) = none
requested_meeting r (obj fs) = none

abbrev pub check_requested : Option ℕ → ℕ → Checked (Unit {0})
check_requested none id = fails error_json
check_requested (some m) id = ensure (m == id) error_meeting_access

abbrev pub check_named : Option Fields → Option ℕ → ℕ → Checked (Unit {0})
check_named none r id = passes tt
check_named (some fields) r id =
    if has_member "meeting_id" fields
    then check_requested (requested_meeting r (member "meeting_id" fields)) id
    else passes tt

unfoldable pub check_meeting_id : ℕ → Option Json → Option ℕ → ℕ → Checked (Unit {0})
unfolding has_member requested_meeting
check_meeting_id id root r room_id =
    if not (room_id == 0) && not (id == join_id || id == disconnected_id)
    then check_named (object root) r room_id
    else passes tt

-- The checks before the handler.
unfoldable pub admits :
    ℕ → Option Json → DispatchAnswers → ℕ → Connection → World → Checked (Unit {0})
unfolding is_superseded check_meeting_id
admits id root a s c w = do
  ensure (not (is_superseded id s c w)) error_meeting_access
  ensure (id == ai_ask_id || (id == media_message_id || a.reserves)) error_network
  check_meeting_id id root a.real_value w.room.id

-- What a message comes to: the errors that Dispatch itself answers, and what the handler does.
pub record Dispatched : Type 0 where
  pub errors : List (ℕ × ErrorCode)
  pub world : World
  pub done : Option Done

abbrev pub not_handled : List (ℕ × ErrorCode) → World → Dispatched
not_handled es w = record { errors = es; world = w; done = none }

-- GetMeetingId of a session
abbrev pub meeting_now : ℕ → World → Option ℕ
meeting_now s w = elim (lookup s w.connections) [ none ↦ none | some c ↦ some c.meeting_id ]

abbrev pub is_in : Option ℕ → ℕ → Bool
is_in none id = false
is_in (some m) id = m == id

-- FinishJoin, when the handler has ended
unfoldable pub after_handler : ℕ → ℕ → ℕ → World → World
after_handler uid id s w = record w {
  presence = finish_join uid id (is_in (meeting_now s w) id) w.presence;
}

abbrev pub with_presence : Assoc UserPresence → World → World
with_presence p w = record w { presence = p }

abbrev pub reserved_join :
    (World → Done) → ℕ → ℕ → ℕ → World → Assoc UserPresence × Bool → Dispatched
reserved_join handle id uid s w (p, false) =
    not_handled (reply_error id error_meeting_access) (with_presence p w)
reserved_join handle id uid s w (p, true) =
    let done = handle (with_presence p w) in
    record { errors = []; world = after_handler uid w.room.id s done.world; done = some done }

unfoldable pub handled_join : (World → Done) → ℕ → ℕ → Connection → World → Dispatched
unfolding reply_error after_handler
handled_join handle id s c w =
    reserved_join handle id (user_key c.user_id) s w
      (reserve_user (user_key c.user_id) w.room.id w.presence)

abbrev pub handled : (World → Done) → ℕ → ℕ → Connection → World → Checked (Unit {0}) → Dispatched
handled handle id s c w (fails e) = not_handled (reply_error id e) w
handled handle id s c w (passes u) =
    if is_join id
    then handled_join handle id s c w
    else record { errors = []; world = (handle w).world; done = some (handle w) }

abbrev pub served :
    (Handler → World → Done)
    → ℕ
    → Option Json
    → DispatchAnswers
    → ℕ
    → Connection
    → World
    → Option Handler
    → Dispatched
served run id root a s c w none = not_handled [] w
served run id root a s c w (some h) =
    if not (id == disconnected_id) && a.closed
    then not_handled [] w
    else handled (run h) id s c w (admits id root a s c w)

-- Dispatch, where `run` says what each handler does with the message
unfoldable pub dispatch :
    (Handler → World → Done)
    → ℕ
    → Option Json
    → DispatchAnswers
    → ℕ
    → Connection
    → World
    → Dispatched
unfolding admits handled_join reply_error
dispatch run id root a s c w = served run id root a s c w (lookup id maps)
