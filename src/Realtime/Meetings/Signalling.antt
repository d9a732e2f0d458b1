-- ===== src/Realtime/Meetings/Signalling.antt =====
-- Media signalling of RealtimeServer (MediaOfferHandler, MediaAnswerHandler, MediaCandidateHandler and
-- MediaSignalResponseHandler of RealtimeServer/src/service/LogicSystem.cpp), for a session that is
-- there. `closed` is IsClosed of a session, and a request goes out through SendMediaSignal.
pub mod Routing
use sync_rtc.Prelude.{
  ℕ, zero, suc, ◌+◌, ◌%◌, ◌^◌, Bool, true, false, not, ◌&&◌, ◌||◌, Option, none, some, List, [],
  ◌∷◌, ◌==◌, if◌then◌else◌, Bytes, codes, is_empty,
}
use sync_rtc.Prelude.Json.{Json, Fields, str, integer, member, same_bytes}
use sync_rtc.Prelude.Assoc.{Assoc, lookup}
use sync_rtc.Realtime.MediaSignals.{
  Signal, MediaSignals, register_signal, find_signal, remove_signal, set_signal_id, signal_id_of,
}
use sync_rtc.Realtime.Meetings.{
  ErrorCode, error_json, error_network, error_meeting_not_found, error_meeting_status,
  error_meeting_access, error_token, MeetingInfo, Connection, Checked, passes, fails, ◌>>=◌, ◌>>◌,
  ensure, found, object, string_value, positive, read_uint64_value,
}
use sync_rtc.Realtime.Meetings.Leaving.{is_in_progress}
use sync_rtc.Realtime.Meetings.Chat.{has_member, nonzero_value}

pub data MediaContent : Type 0 where
  offer : Bytes → MediaContent
  answer : Bytes → MediaContent
  -- candidate and mid
  candidate : Bytes → Bytes → MediaContent

-- A request to MediaServer, on the connection with this epoch
pub record MediaRequest : Type 0 where
  pub signal_id : ℕ
  pub meeting_id : ℕ
  pub uid : ℕ
  pub content : MediaContent
  pub epoch : ℕ

abbrev pub filled : Option Bytes → Option Bytes
filled none = none
filled (some []) = none
filled (some (b ∷ bs)) = some (b ∷ bs)

abbrev pub of_kind : Bytes → Option Bytes → Bool
of_kind kind none = false
of_kind kind (some s) = same_bytes s kind

-- meeting_id, type and sdp of an offer or an answer
unfoldable pub read_description : Bytes → Option Json → Checked (ℕ × Bytes)
unfolding read_uint64_value has_member
read_description kind root = do
  fields ← found (object root) error_json
  ensure (has_member "meeting_id" fields) error_json
  meeting_id ← found (nonzero_value (read_uint64_value (member "meeting_id" fields))) error_json
  ensure (of_kind kind (string_value (member "type" fields))) error_json
  sdp ← found (filled (string_value (member "sdp" fields))) error_json
  passes (meeting_id, sdp)

unfoldable pub read_candidate : Option Json → Checked (ℕ × Bytes × Bytes)
unfolding read_uint64_value has_member
read_candidate root = do
  fields ← found (object root) error_json
  ensure (has_member "meeting_id" fields) error_json
  meeting_id ← found (nonzero_value (read_uint64_value (member "meeting_id" fields))) error_json
  text ← found (filled (string_value (member "candidate" fields))) error_json
  mid ← found (filled (string_value (member "mid" fields))) error_json
  passes (meeting_id, text, mid)

-- SIsMember, GetMeetingInfoById and SendMediaSignal
pub record MediaAnswers : Type 0 where
  pub in_room : Bool
  pub info : Option MeetingInfo
  pub sent : Bool

-- The user of a session that takes part in this meeting, which is in progress
unfoldable pub check_media : ℕ → MediaAnswers → Connection → Checked ℕ
check_media meeting_id a c = do
  uid ← found (positive c.user_id) error_token
  ensure (c.meeting_id == meeting_id) error_meeting_access
  ensure a.in_room error_meeting_access
  info ← found a.info error_meeting_not_found
  ensure (is_in_progress info.status) error_meeting_status
  passes uid

-- The table of negotiations and m_next_media_signal_id
pub record Signalling : Type 0 where
  pub table : MediaSignals
  pub next_id : ℕ

-- The errors that a handler answers with, and the requests that it sends
pub record MediaDone : Type 0 where
  pub after : Signalling
  pub errors : List ErrorCode
  pub requests : List MediaRequest

abbrev pub media_error : ErrorCode → Signalling → MediaDone
media_error e g = record { after = g; errors = e ∷ []; requests = [] }

abbrev pub drop_previous : ℕ → MediaSignals → MediaSignals
drop_previous zero t = t
drop_previous (suc n) t = remove_signal (suc n) t

-- The table with the new negotiation of session s
unfoldable pub open_signal : ℕ → ℕ → Signalling → MediaSignals
unfolding register_signal remove_signal set_signal_id
open_signal s meeting_id g =
    let cleared = drop_previous (signal_id_of (lookup s g.table.signal_ids)) g.table in
    (register_signal g.next_id s meeting_id (set_signal_id s g.next_id cleared)).0

unfoldable pub offer_request : ℕ → ℕ → ℕ → Bytes → Signalling → MediaRequest
offer_request s meeting_id uid sdp g = record {
  signal_id = g.next_id;
  meeting_id = meeting_id;
  uid = uid;
  content = offer sdp;
  epoch = g.table.media_epoch;
}

abbrev pub opened : Bool → ℕ → ℕ → ℕ → Bytes → Signalling → MediaDone
opened true s meeting_id uid sdp g = record {
  after = record { table = open_signal s meeting_id g; next_id = (g.next_id + 1) % 2 ^ 64 };
  errors = [];
  requests = offer_request s meeting_id uid sdp g ∷ [];
}
opened false s meeting_id uid sdp g = record {
  after = record {
    table = set_signal_id s 0 (remove_signal g.next_id (open_signal s meeting_id g));
    next_id = (g.next_id + 1) % 2 ^ 64;
  };
  errors = error_network ∷ [];
  requests = [];
}

abbrev pub admitted_offer : ℕ → Bool → ℕ → Bytes → Signalling → Checked ℕ → MediaDone
admitted_offer s sent meeting_id sdp g (fails e) = media_error e g
admitted_offer s sent meeting_id sdp g (passes uid) = opened sent s meeting_id uid sdp g

abbrev pub offering : ℕ → Connection → MediaAnswers → Signalling → Checked (ℕ × Bytes) → MediaDone
offering s c a g (fails e) = media_error e g
offering s c a g (passes (meeting_id, sdp)) =
    admitted_offer s a.sent meeting_id sdp g (check_media meeting_id a c)

unfoldable pub media_offer : Option Json → MediaAnswers → ℕ → Connection → Signalling → MediaDone
unfolding read_description check_media open_signal offer_request remove_signal set_signal_id
media_offer root a s c g = offering s c a g (read_description (codes "offer") root)

-- The negotiation that the session carries on, on the present connection to MediaServer
abbrev pub live_signal : ℕ → ℕ → Option Signal → MediaSignals → Option Signal
live_signal s id none t = none
live_signal s id (some g) t =
    if not (id == 0) && (g.session == s && g.epoch == t.media_epoch) then some g else none

unfoldable pub current_signal : ℕ → MediaSignals → Option (ℕ × Signal)
unfolding find_signal
current_signal s t =
    let id = signal_id_of (lookup s t.signal_ids) in
    elim (live_signal s id (find_signal id t) t) [ none ↦ none | some g ↦ some (id, g) ]

abbrev pub carried_on : ℕ → ℕ → MediaContent → Option (ℕ × Signal) → List MediaRequest
carried_on meeting_id uid content none = []
carried_on meeting_id uid content (some (id, g)) =
    record {
      signal_id = id;
      meeting_id = meeting_id;
      uid = uid;
      content = content;
      epoch = g.epoch;
    }
    ∷ []

abbrev pub answering :
    ℕ → Connection → MediaAnswers → MediaSignals → Checked (ℕ × Bytes) → List MediaRequest
answering s c a t (fails e) = []
answering s c a t (passes (meeting_id, sdp)) = elim (positive c.user_id) [
  | none ↦ []
  | some uid ↦
      if c.meeting_id == meeting_id && a.in_room
      then carried_on meeting_id uid (answer sdp) (current_signal s t)
      else []
]

-- MediaAnswerHandler answers nothing to the client.
unfoldable pub media_answer :
    Option Json → MediaAnswers → ℕ → Connection → MediaSignals → List MediaRequest
unfolding read_description current_signal
media_answer root a s c t = answering s c a t (read_description (codes "answer") root)

abbrev pub offered_candidate : Bool → Signalling → List MediaRequest → MediaDone
offered_candidate sent g [] = media_error error_network g
offered_candidate true g (r ∷ rs) = record { after = g; errors = []; requests = r ∷ rs }
offered_candidate false g (r ∷ rs) = media_error error_network g

abbrev pub naming :
    ℕ → Connection → MediaAnswers → Signalling → Checked (ℕ × Bytes × Bytes) → MediaDone
naming s c a g (fails e) = media_error e g
naming s c a g (passes (meeting_id, text, mid)) = elim (check_media meeting_id a c) [
  | fails e ↦ media_error e g
  | passes uid ↦
      offered_candidate a.sent g
        (carried_on meeting_id uid (candidate text mid) (current_signal s g.table))
]

unfoldable pub media_candidate :
    Option Json → MediaAnswers → ℕ → Connection → Signalling → MediaDone
unfolding read_candidate check_media current_signal
media_candidate root a s c g = naming s c a g (read_candidate root)

-- A message of MediaServer: signal_id, signal_type with its texts
unfoldable pub response_content : Fields → Option MediaContent
response_content fields =
    if of_kind (codes "offer") (string_value (member "signal_type" fields))
    then elim (string_value (member "sdp" fields)) [ none ↦ none | some s ↦ some (offer s) ]
    else if of_kind (codes "answer") (string_value (member "signal_type" fields))
    then elim (string_value (member "sdp" fields)) [ none ↦ none | some s ↦ some (answer s) ]
    else if of_kind (codes "candidate") (string_value (member "signal_type" fields))
    then elim (string_value (member "candidate" fields)) [
      | none ↦ none
      | some t ↦ elim (string_value (member "mid" fields)) [
        | none ↦ none
        | some m ↦ some (candidate t m)
      ]
    ]
    else none

-- What the room sends to clients, and the table
abbrev pub Routed : Type 0
Routed = MediaSignals × List (ℕ × MediaContent)

abbrev pub to_session : ℕ → Option MediaContent → List (ℕ × MediaContent)
to_session s none = []
to_session s (some m) = (s, m) ∷ []

-- `current` is IsCurrent of the client for the epoch of the signal.
abbrev pub reaches : ℕ → ℕ → ℕ → Bool → Bool → Connection → MediaSignals → Bool
reaches room_id id s closed current c t =
    not closed
    && (c.meeting_id == room_id && (signal_id_of (lookup s t.signal_ids) == id && current))

abbrev pub route_to :
    ℕ → ℕ → ℕ → Option Connection → (ℕ → Bool) → Bool → Option MediaContent → MediaSignals → Routed
route_to room_id id s none closed current m t = (remove_signal id t, [])
route_to room_id id s (some c) closed current m t =
    if reaches room_id id s (closed s) current c t then (t, to_session s m) else (t, [])

abbrev pub route_signal :
    ℕ
    → ℕ
    → Option Signal
    → Assoc Connection
    → (ℕ → Bool)
    → Bool
    → Option MediaContent
    → MediaSignals
    → Routed
route_signal room_id id none cs closed current m t = (t, [])
route_signal room_id id (some g) cs closed current m t =
    if not (g.epoch == 0) && g.epoch == t.media_epoch
    then route_to room_id id g.session (lookup g.session cs) closed current m t
    else (t, [])

abbrev pub response_id : Fields → Option ℕ
response_id fields = elim (string_value (member "signal_type" fields)) [
  | none ↦ none
  | some kind ↦
      if has_member "signal_id" fields then read_uint64_value (member "signal_id" fields) else none
]

abbrev pub respond_for :
    Option ℕ → Fields → ℕ → Assoc Connection → (ℕ → Bool) → Bool → MediaSignals → Routed
respond_for none fields room_id cs closed current t = (t, [])
respond_for (some id) fields room_id cs closed current t =
    route_signal room_id id (find_signal id t) cs closed current (response_content fields) t

abbrev pub respond :
    Option Fields → ℕ → Assoc Connection → (ℕ → Bool) → Bool → MediaSignals → Routed
respond none room_id cs closed current t = (t, [])
respond (some fields) room_id cs closed current t =
    respond_for (response_id fields) fields room_id cs closed current t

unfoldable pub media_response :
    Option Json → ℕ → Assoc Connection → (ℕ → Bool) → Bool → MediaSignals → Routed
unfolding response_content find_signal remove_signal has_member read_uint64_value
media_response root room_id cs closed current t = respond (object root) room_id cs closed current t
