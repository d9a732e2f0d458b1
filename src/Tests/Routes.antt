-- ===== src/Tests/Routes.antt =====
-- Runs of the routing of messages (RealtimeServer/src/service/LogicDispatch.cpp).
use sync_rtc.Prelude.{
  ℕ, ◌≡◌, refl, ◌⊎◌, Bool, true, false, Option, none, some, List, [], ◌∷◌, ◌==◌, pos, codes,
}
use sync_rtc.Prelude.Json.{Json, str, obj, field, end}
use sync_rtc.Prelude.Assoc.{lookup}
use sync_rtc.Realtime.Meetings.{error_meeting_access, World, Done}
use sync_rtc.Realtime.Meetings.Join.{join_meeting}
use sync_rtc.Realtime.Meetings.Reconnection.{nothing}
use sync_rtc.Realtime.Presence.{reserve_user}
use sync_rtc.Realtime.Dispatch.{
  Handler, DispatchAnswers, resume_id, join_id, route, to_meeting, turned_down, dispatch,
  meeting_now,
}
use sync_rtc.Realtime.Dispatch.Joining.{TurnedAway, Attended, dispatch_join}
use sync_rtc.Realtime.Dispatch.Gate.{Refused, Ran, dispatch-Outcome}
use sync_rtc.Tests.Meetings.{laptop, phone, meeting, answers, resume_request, meeting_info}

abbrev free : DispatchAnswers
free = record { closed = false; reserves = true; real_value = none }

abbrev idle : Handler → World → Done
idle h w = nothing w

abbrev leave_seven : Option Json
leave_seven = some (obj (field "meeting_id" (str (codes "7")) end))

abbrev join_code : Option Json
join_code = some (obj (field "meeting_code" (str (codes "12")) end))

joins_by_code : route join_id join_code laptop false (λ code. some meeting_info) ≡ to_meeting 7
unfolding route sync_rtc.Prelude.Json.member
joins_by_code = refl

no_second_meeting :
    route join_id join_code phone false (λ code. some meeting_info)
    ≡ turned_down error_meeting_access
unfolding route sync_rtc.Prelude.Json.member
no_second_meeting = refl

-- A session that is not the one of the membership does not get to leave for its user.
laptop_cannot_leave :
    (dispatch idle 1021 leave_seven free 2 laptop meeting).errors
    ≡ (1022, error_meeting_access) ∷ []
unfolding dispatch lookup
laptop_cannot_leave = refl

dispatch-Outcome_example :
    Refused meeting (dispatch idle 1021 leave_seven free 1 phone meeting)
    ⊎ Ran idle 1021 leave_seven free 1 phone meeting
        (dispatch idle 1021 leave_seven free 1 phone meeting)
dispatch-Outcome_example = dispatch-Outcome idle 1021 leave_seven free 1 phone meeting

abbrev resumed : World
resumed =
    let handle : Handler → World → Done =
      λ h. join_meeting true (resume_request (42 ∷ [])) answers 2 laptop in
    (dispatch handle resume_id (resume_request (42 ∷ [])) free 2 laptop meeting).world

resumed_through_dispatch : meeting_now 2 resumed ≡ some 7
unfolding dispatch join_meeting sync_rtc.Prelude.Json.member lookup sync_rtc.Prelude.Assoc.assign
    sync_rtc.Realtime.Presence.reserve_user
resumed_through_dispatch = refl

dispatch_join_example :
    TurnedAway 1046 5 meeting (
      dispatch
        (λ h. join_meeting (1046 == resume_id) (resume_request (42 ∷ [])) answers 2 laptop)
        1046
        (resume_request (42 ∷ []))
        free
        2
        laptop
        meeting)
    ⊎ Attended 2 5 meeting (
        dispatch
          (λ h. join_meeting (1046 == resume_id) (resume_request (42 ∷ [])) answers 2 laptop)
          1046
          (resume_request (42 ∷ []))
          free
          2
          laptop
          meeting)
unfolding lookup
dispatch_join_example =
    dispatch_join 1046 (resume_request (42 ∷ [])) free answers 2 laptop meeting refl tt refl

-- A resume without a meeting_id, of a session in no meeting, goes to room 0.
resume_goes_nowhere :
    route resume_id (resume_request (42 ∷ [])) laptop false (λ code. none) ≡ to_meeting 0
unfolding route sync_rtc.Prelude.Json.member
resume_goes_nowhere = refl

abbrev no_meeting : World
no_meeting = record meeting { room = record { id = 0; members = []; sessions = [] } }

abbrev lost : World
lost =
    let handle : Handler → World → Done =
      λ h. join_meeting true (resume_request (42 ∷ [])) answers 2 laptop in
    (dispatch handle resume_id (resume_request (42 ∷ [])) free 2 laptop no_meeting).world

-- Afterwards meeting 7 does not get the user.
not_reserved : (reserve_user 5 7 lost.presence).1 ≡ false
unfolding dispatch join_meeting sync_rtc.Prelude.Json.member lookup sync_rtc.Prelude.Assoc.assign
    reserve_user sync_rtc.Realtime.Presence.finish_join
not_reserved = refl
