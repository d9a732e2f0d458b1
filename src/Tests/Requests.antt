-- ===== src/Tests/Requests.antt =====
-- Runs of the reading thread of MediaServer (MediaServer/src/service/LogicSystem.cpp).
use sync_rtc.Prelude.{
  ◌≡◌, refl, false, Option, none, some, List, [], ◌∷◌, ◌==◌, if◌then◌else◌, length, pos, Bytes,
  codes,
}
use sync_rtc.Prelude.Json.{Json, integer, str, obj, end, field}
use sync_rtc.Media.Logic.Requests.{
  leave_signal, parse_media_signal_request, Connection, post_signal_disconnected, ReadStep, reads,
  stopped_by, read_steps,
}
use sync_rtc.Media.Logic.Requests.Coverage.{AllHear, post_signal_disconnected-AllHear}

-- A reader that knows the texts of two bytes.
abbrev read_two : Bytes → Option Json
read_two text =
    if length text == 2
    then some (
        obj (
          field "signal_id" (integer (pos 70)) (
            field "meeting_id" (integer (pos 9))
              (field "uid" (integer (pos 1)) (field "signal_type" (str (codes "leave")) end)))))
    else none

abbrev unused : Connection
unused = record { meeting_ids = []; stopped = false }

abbrev reading : List ReadStep
reading = reads (1 ∷ (2 ∷ [])) ∷ (reads [] ∷ (stopped_by ∷ (reads (1 ∷ (2 ∷ [])) ∷ [])))

leave_parsed :
    parse_media_signal_request read_two (1 ∷ (2 ∷ []))
    ≡ some (record { signal_id = 70; meeting_id = 9; uid = pos 1; content = leave_signal })
unfolding parse_media_signal_request
leave_parsed = refl

post_signal_disconnected-AllHear_example :
    AllHear
      (post_signal_disconnected (read_steps read_two reading unused).0)
      (read_steps read_two reading unused).1
unfolding read_steps
post_signal_disconnected-AllHear_example =
    post_signal_disconnected-AllHear read_two reading unused refl
