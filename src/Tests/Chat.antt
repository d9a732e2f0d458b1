-- ===== src/Tests/Chat.antt =====
-- Runs of chat and media signalling (RealtimeServer/src/service/LogicSystem.cpp).
use sync_rtc.Prelude.{
  ℕ, ◌≡◌, refl, Bool, true, false, Option, none, some, List, [], ◌∷◌, arith, pos, codes, Bytes,
}
use sync_rtc.Prelude.Json.{Json, Fields, str, integer, obj, field, end}
use sync_rtc.Prelude.Assoc.{lookup}
use sync_rtc.Realtime.Meetings.{Connection, MeetingInfo, in_progress, World}
use sync_rtc.Realtime.Meetings.Chat.{SendAnswers, ChatMessage, MessageValue, send_message}
use sync_rtc.Realtime.Meetings.Chat.Delivery.{Outcome, sessions_of, send_message-Outcome}
use sync_rtc.Realtime.Meetings.Signalling.{
  MediaAnswers, MediaRequest, Signalling, offer, media_offer, media_response, to_session,
  response_content,
}
use sync_rtc.Realtime.Meetings.Signalling.Routing.{media_offer-media_response}

abbrev user : ℕ → Connection
user n = record { user_id = pos n; auth_token = n ∷ []; meeting_id = 7; close_requested = false }

abbrev three_users : World
three_users = record {
  room = record { id = 7; members = []; sessions = 1 ∷ (2 ∷ (3 ∷ [])) };
  connections = (1, user 5) ∷ ((2, user 6) ∷ ((3, user 8) ∷ []));
  presence = [];
  signals = record { signals = []; media_epoch = 1; signal_ids = [] };
}

abbrev info : MeetingInfo
info = record {
  meeting_id = 7;
  creator_user_id = 5;
  status = in_progress;
  requires_password = false;
  max_participants = 30;
}

abbrev chat_answers : SendAnswers
chat_answers = record {
  sender_in = true;
  target_in = true;
  info = some info;
  sender_name = some (codes "Ann");
  save = λ m. some (record m { message_id = 100; created_at = codes "now" });
}

abbrev to_six : Option Json
to_six = some (
    obj (
      field "meeting_id" (str (codes "7")) (
        field "chat_type" (str (codes "private")) (
          field "content" (str (codes "hi")) (
            field "client_msg_id" (str (codes "m1"))
              (field "target_user_id" (integer (pos 6)) end))))))

-- A private message does not reach the third user.
private_push :
    sessions_of (send_message to_six chat_answers (user 5) three_users).pushes ≡ 1 ∷ (2 ∷ [])
unfolding send_message sync_rtc.Prelude.Json.member lookup
private_push = refl

send_message-Outcome_example :
    Outcome to_six chat_answers
      (user 5)
      three_users
      (send_message to_six chat_answers (user 5) three_users).reply
      (send_message to_six chat_answers (user 5) three_users)
send_message-Outcome_example = send_message-Outcome to_six chat_answers (user 5) three_users

abbrev media_answers : MediaAnswers
media_answers = record { in_room = true; info = some info; sent = true }

abbrev no_signals : Signalling
no_signals = record {
  table = record { signals = []; media_epoch = 3; signal_ids = [] };
  next_id = 1;
}

abbrev an_offer : Option Json
an_offer = some (
    obj (
      field "meeting_id" (str (codes "7"))
        (field "type" (str (codes "offer")) (field "sdp" (str (codes "v=0")) end))))

abbrev answer_fields : Fields
answer_fields =
    field "signal_id" (integer (pos 1))
      (field "signal_type" (str (codes "answer")) (field "sdp" (str (codes "v=1")) end))

abbrev the_request : MediaRequest
the_request = record {
  signal_id = 1;
  meeting_id = 7;
  uid = 5;
  content = offer (codes "v=0");
  epoch = 3;
}

offer_sent : (media_offer an_offer media_answers 4 (user 5) no_signals).requests ≡ the_request ∷ []
unfolding media_offer sync_rtc.Prelude.Json.member
offer_sent = refl

media_offer-media_response_example :
    media_response
      (some (obj answer_fields))
      7
      ((4, user 5) ∷ [])
      (λ s. false)
      true
      (media_offer an_offer media_answers 4 (user 5) no_signals).after.table
    ≡ (
      (media_offer an_offer media_answers 4 (user 5) no_signals).after.table,
      to_session 4 (response_content answer_fields),
    )
unfolding sync_rtc.Prelude.Json.member sync_rtc.Realtime.Meetings.Chat.has_member
    sync_rtc.Realtime.Meetings.read_uint64_value lookup
media_offer-media_response_example =
    media_offer-media_response an_offer media_answers 4 (user 5) (user 5) no_signals
      (some (obj answer_fields)) answer_fields ((4, user 5) ∷ []) (λ s. false) {r = the_request}
      offer_sent (ground arith) refl refl refl refl refl
