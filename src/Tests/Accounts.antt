-- ===== src/Tests/Accounts.antt =====
-- Runs of the requests outside a meeting (RealtimeServer/src/service/LogicSystem.cpp).
use sync_rtc.Prelude.{
  ℕ, ◌≡◌, refl, ◌⊎◌, Bool, true, false, Option, none, some, List, [], ◌∷◌, pos, codes, Bytes,
}
use sync_rtc.Prelude.Json.{Json, str, integer, obj, field, end}
use sync_rtc.Realtime.Meetings.{ErrorCode, Connection, scheduled, passes}
use sync_rtc.Realtime.Accounts.{
  RecentMeeting, found_text, LoginAnswers, login, CreateAnswers, create_refused, created,
  create_meeting, past_meetings, AiAnswer, empty_question, ai_answered, ai_ask,
}
use sync_rtc.Realtime.Accounts.Login.{IsLoggedIn, Bound, login-Bound}
use sync_rtc.Realtime.Accounts.Creation.{Asked, create_meeting-Asked}

abbrev visitor : Connection
visitor = record { user_id = pos 0; auth_token = []; meeting_id = 0; close_requested = false }

abbrev member_five : Connection
member_five = record {
  user_id = pos 5;
  auth_token = 9 ∷ [];
  meeting_id = 0;
  close_requested = false;
}

abbrev retro : RecentMeeting
retro = record {
  meeting_code = codes "12";
  title = codes "Retro";
  creator_display_name = codes "Ann";
  creator_avatar_url = [];
  status = scheduled;
  requires_password = false;
  max_participants = 30;
  scheduled_at = [];
}

abbrev login_answers : LoginAnswers
login_answers = record {
  session_of = λ token. found_text (some (obj (field "uid" (integer (pos 5)) end)));
  user_info = λ email. some (record { uid = pos 5; username = codes "Ann"; email = email });
  recent = λ user. some (retro ∷ []);
  closed = false;
  real_value = none;
}

abbrev login_as_five : Option Json
login_as_five = some (
    obj (
      field "uid" (integer (pos 5))
        (field "token" (str (9 ∷ [])) (field "email" (str (codes "a@b")) end))))

login_binds : (login login_as_five login_answers visitor).connection ≡ member_five
unfolding login sync_rtc.Prelude.Json.member
login_binds = refl

login-Bound_example :
    (((login login_as_five login_answers visitor).connection ≡ visitor)
      × (IsLoggedIn (login login_as_five login_answers visitor).reply → ⊥))
    ⊎ Bound login_as_five login_answers visitor (login login_as_five login_answers visitor)
login-Bound_example = login-Bound login_as_five login_answers visitor

abbrev create_answers : CreateAnswers
create_answers = record {
  hash = λ password. 36 ∷ password;
  takes = λ meeting. true;
  recent = λ user. none;
}

abbrev create_retro : Option Json
create_retro =
    some (obj (field "title" (str (codes "Retro")) (field "password" (str (codes "pw")) end)))

-- The meeting exists, although the list could not be read.
created_without_list : (create_meeting create_retro create_answers member_five).reply ≡ created none
unfolding create_meeting sync_rtc.Prelude.Json.member
created_without_list = refl

create_meeting-Asked_example :
    (((create_meeting create_retro create_answers member_five).asked ≡ [])
      × ((e : ErrorCode) × ((create_meeting create_retro create_answers member_five).reply
            ≡ create_refused e)))
    ⊎ Asked create_retro create_answers member_five
        (create_meeting create_retro create_answers member_five)
create_meeting-Asked_example = create_meeting-Asked create_retro create_answers member_five

no_history : past_meetings (λ user. some []) member_five ≡ passes []
unfolding past_meetings
no_history = refl

abbrev yes_service : Option (Bytes → Option AiAnswer)
yes_service =
    some (λ question. some (record { error = pos 0; answer = codes "yes"; error_message = [] }))

question_answered :
    ai_ask (some (obj (field "question" (str (codes "now?")) end))) yes_service member_five
    ≡ ai_answered (codes "yes")
unfolding ai_ask sync_rtc.Prelude.Json.member
question_answered = refl

question_empty :
    ai_ask (some (obj (field "question" (str []) end))) yes_service member_five ≡ empty_question
unfolding ai_ask sync_rtc.Prelude.Json.member
question_empty = refl
