-- ===== src/Tests/Logic.antt =====
-- Runs of a MediaServer (MediaServer/src/service/LogicSystem.cpp).
use sync_rtc.Prelude.{◌≡◌, refl, true, Option, none, some, [], ◌∷◌, arith}
use sync_rtc.Prelude.Assoc.{lookup}
use sync_rtc.Prelude.Distinct.{contains}
use sync_rtc.Media.Logic.{
  MediaServer, MediaSignal, OfferAnswer, offer, handle_room_event, handle_signal_disconnected,
}
use sync_rtc.Media.Logic.Invariant.{IsSound, HasSsrc, handle_room_event-IsSound}
use sync_rtc.Media.Logic.Cleanup.{IsRid, disconnected-IsRid}
use sync_rtc.Media.Logic.Lost.{handle_room_event-IsRid}

abbrev started : MediaServer
started = record { rooms = []; next_session_id = 1; stopped = [] }

started-IsSound : IsSound started
unfolding lookup
started-IsSound = record { good = λ m. tt }

started-HasSsrc : HasSsrc started
unfolding lookup
started-HasSsrc m room e = absurd (ground (arith, e))

abbrev joins : MediaSignal
joins = record { signal_id = 70; meeting_id = 9; uid = 1 }

abbrev accepts : OfferAnswer
accepts = record { constructs = true; applies = true }

abbrev or_started : Option MediaServer → MediaServer
or_started none = started
or_started (some srv) = srv

abbrev joined : MediaServer
joined = or_started (handle_room_event (offer 5 joins accepts) started)

handle_room_event-IsSound_example :
    (srv' : MediaServer) × (handle_room_event (offer 5 joins accepts) started ≡ some srv')
    × IsSound srv'
handle_room_event-IsSound_example =
    handle_room_event-IsSound (offer 5 joins accepts) started started-IsSound started-HasSsrc

joined-IsSound : IsSound joined
unfolding lookup
joined-IsSound =
    let (srv', e, v) =
      handle_room_event-IsSound (offer 5 joins accepts) started started-IsSound started-HasSsrc in
    rw e v

-- The connection of the member stops.
abbrev cut : MediaServer
cut = record joined { stopped = 5 ∷ [] }

cut-IsSound : IsSound cut
cut-IsSound = record { good = joined-IsSound.good }

disconnected-IsRid_example : IsRid 9 5 (handle_signal_disconnected 9 5 cut)
unfolding contains
disconnected-IsRid_example = disconnected-IsRid 9 5 cut cut-IsSound refl

-- A late offer on it is dropped.
handle_room_event-IsRid_example : IsRid 9 5 started
unfolding contains lookup handle_room_event
handle_room_event-IsRid_example =
    handle_room_event-IsRid 9 5 (offer 5 joins accepts) (record started { stopped = 5 ∷ [] })
      (record started { stopped = 5 ∷ [] }) (record { good = λ m. tt }) refl
      (λ room u s e h. absurd (ground (arith, e))) refl
