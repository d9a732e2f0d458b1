-- ===== src/Tests/Meetings.antt =====
-- Runs of the handlers of meetings (RealtimeServer/src/service/LogicSystem.cpp).
use sync_rtc.Prelude.{
  ℕ, ◌+◌, ◌*◌, ◌≡◌, ◌⊎◌, inl, refl, Bool, true, false, Option, none, some, List, [], ◌∷◌, arith,
  pos, codes, Bytes,
}
use sync_rtc.Prelude.Json.{Json, str, integer, obj, field, end}
use sync_rtc.Prelude.Assoc.{lookup}
use sync_rtc.Prelude.Distinct.{contains}
use sync_rtc.Realtime.Session.{second}
use sync_rtc.Realtime.Meetings.{
  Connection, Membership, MeetingInfo, in_progress, World, Reply, member_reconnecting,
}
use sync_rtc.Realtime.Meetings.Join.{JoinAnswers, join_meeting}
use sync_rtc.Realtime.Meetings.Reconnection.{LossAnswers, ExpiryAnswers, disconnect, grace_seconds}
use sync_rtc.Realtime.Meetings.Admission.{
  Untouched, closed_unless, join_meeting-AllOrNothing, Resumed, join_meeting-Resumed,
}
use sync_rtc.Realtime.Meetings.Attachment.{
  joins, loses, vanishes, handle_events, handle_events-IsAttached,
}
use sync_rtc.Realtime.Meetings.Attachment.Joined.{IsAttached}
use sync_rtc.Realtime.Meetings.Grace.{expire_members, disconnect-expire_members}

abbrev pub phone : Connection
phone = record { user_id = pos 5; auth_token = 9 ∷ []; meeting_id = 7; close_requested = false }

abbrev pub laptop : Connection
laptop = record { user_id = pos 5; auth_token = 9 ∷ []; meeting_id = 0; close_requested = false }

abbrev friend : Connection
friend = record { user_id = pos 6; auth_token = 8 ∷ []; meeting_id = 7; close_requested = false }

abbrev membership : Membership
membership = record {
  ticket = 42 ∷ [];
  auth_token = 9 ∷ [];
  last_request = [];
  generation = 1;
  session = some 1;
  deadline = 0;
}

-- User 5 is in meeting 7 with session 1, user 6 with session 3; session 2 is another one of user 5.
abbrev pub meeting : World
meeting = record {
  room = record { id = 7; members = (5, membership) ∷ []; sessions = 1 ∷ (3 ∷ []) };
  connections = (1, phone) ∷ ((2, laptop) ∷ ((3, friend) ∷ []));
  presence = [];
  signals = record { signals = []; media_epoch = 1; signal_ids = [] };
}

abbrev pub meeting_info : MeetingInfo
meeting_info = record {
  meeting_id = 7;
  creator_user_id = 5;
  status = in_progress;
  requires_password = false;
  max_participants = 30;
}

abbrev pub answers : JoinAnswers
answers = record {
  info = some meeting_info;
  storage_error = false;
  password_hash = none;
  password_matches = λ p h. false;
  members_before = some (codes "5" ∷ (codes "6" ∷ []));
  members_after = some (codes "5" ∷ (codes "6" ∷ []));
  room_state = codes "active";
  reconnect_deadline = none;
  now = 1000;
  steady_now = 20;
  new_ticket = some (43 ∷ []);
  added = true;
  recorded = true;
  set_status = true;
  set_meeting = true;
  set_active = true;
  activated = true;
  state_of = λ t. codes "active";
  name_of = λ t. none;
  sent = true;
}

abbrev pub resume_request : Bytes → Option Json
resume_request ticket = some (
    obj (
      field "request_id" (str (codes "r1"))
        (field "resume_ticket" (str ticket) (field "membership_generation" (integer (pos 1)) end))))

-- The laptop takes the place of the phone, which is put out of the meeting.
taken_over :
    (join_meeting true (resume_request (42 ∷ [])) answers 2 laptop meeting).world.room.sessions
    ≡ 3 ∷ (2 ∷ [])
unfolding join_meeting sync_rtc.Prelude.Json.member lookup sync_rtc.Prelude.Assoc.assign
taken_over = refl

join_meeting-AllOrNothing_example :
    (r : Reply) × ((join_meeting true (resume_request (1 ∷ [])) answers 2 laptop meeting).replies
      ≡ r ∷ [])
    × Untouched r
        (join_meeting true (resume_request (1 ∷ [])) answers 2 laptop meeting)
        (closed_unless answers.sent 2 meeting)
join_meeting-AllOrNothing_example =
    join_meeting-AllOrNothing true (resume_request (1 ∷ [])) answers 2 laptop meeting

join_meeting-Resumed_example :
    Resumed
      (resume_request (42 ∷ []))
      answers
      2
      laptop
      meeting
      (record {
        request_id = some (codes "r1");
        resume_ticket = 42 ∷ [];
        membership_generation = 2;
        info = meeting_info;
        is_host = true;
        member_list =
            record { user = codes "5"; is_self = true; room_state = codes "active"; name = none }
            ∷ (record {
              user = codes "6";
              is_self = false;
              room_state = codes "active";
              name = none;
            }
                ∷ []);
      })
      (join_meeting true (resume_request (42 ∷ [])) answers 2 laptop meeting).world
unfolding join_meeting sync_rtc.Prelude.Json.member lookup
join_meeting-Resumed_example =
    join_meeting-Resumed (resume_request (42 ∷ [])) answers 2 laptop meeting refl

abbrev loss : LossAnswers
loss = record {
  is_member = true;
  room_state = codes "active";
  now = 1000;
  steady_now = 20;
  state_set = true;
  deadline_set = true;
  deadline_added = true;
  count = 2;
}

-- The friend hears of the loss.
loss_told : (disconnect loss 1 phone meeting).notices ≡ (3, member_reconnecting 5 1045 2) ∷ []
unfolding disconnect lookup
loss_told = refl

meeting_belongs :
    (x : ℕ) (c : Connection)
    → contains meeting.room.sessions x ≡ true
    → lookup x meeting.connections ≡ some c
    → (c.meeting_id ≡ meeting.room.id) ⊎ (c.close_requested ≡ true)
unfolding contains lookup
meeting_belongs x c h e = ground (arith, h, e)

meeting-IsAttached : IsAttached meeting
unfolding contains
meeting-IsAttached = record { distinct = (refl, (refl, tt)); belongs = meeting_belongs }

handle_events-IsAttached_example : IsAttached (
    handle_events
      (joins true (resume_request (42 ∷ [])) answers 2 ∷ (loses loss 1 ∷ (vanishes 1 ∷ [])))
      meeting)
handle_events-IsAttached_example =
    handle_events-IsAttached
      (joins true (resume_request (42 ∷ [])) answers 2 ∷ (loses loss 1 ∷ (vanishes 1 ∷ []))) meeting
      meeting-IsAttached

abbrev expiry : ExpiryAnswers
expiry = record {
  deadline = some (pos 900);
  room_state = codes "reconnecting";
  now = 5000;
  steady_now = 21;
  removed = true;
  deadline_removed = true;
  count = 1;
}

disconnect-expire_members_example :
    lookup 5
      (expire_members
        ((codes "7:5", expiry) ∷ [])
        (disconnect loss 1 phone meeting).world).room.members
    ≡ some (record membership { deadline = 20 + grace_seconds * second })
unfolding lookup
disconnect-expire_members_example =
    disconnect-expire_members loss 1 phone meeting membership ((codes "7:5", expiry) ∷ [])
      (ground arith) refl refl refl (omega arith)
