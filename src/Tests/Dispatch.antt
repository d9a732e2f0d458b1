-- ===== src/Tests/Dispatch.antt =====
-- Runs of the tables of RealtimeServer/src/service/LogicDispatch.cpp.
use sync_rtc.Prelude.{ℕ, ◌≡◌, refl, true, false, some, List, [], ◌∷◌, arith}
use sync_rtc.Prelude.Assoc.{Assoc, lookup}
use sync_rtc.Realtime.Presence.{
  UserPresence, reserve_user, finish_join, PresenceCall, reserves, finishes, releases, releases_all,
  calls,
}
use sync_rtc.Realtime.Presence.Exclusion.{reservation_excludes}
use sync_rtc.Realtime.Presence.Attempt.{join_attempt}
use sync_rtc.Realtime.MediaSignals.{
  MediaSignals, message, up, down, accept_media_event, SignalCall, registers, sets, releases,
  events, signal_calls,
}
use sync_rtc.Realtime.MediaSignals.Epochs.{
  AllCurrent, Advances, signal_calls-Advances, stale_message,
}

abbrev nobody : Assoc UserPresence
nobody = []

abbrev meanwhile : List (ℕ × PresenceCall)
meanwhile = (8, reserves 1) ∷ ((8, finishes 1 true) ∷ ((8, releases_all) ∷ []))

reservation_excludes_example :
    (reserve_user 1 8 (calls meanwhile (reserve_user 1 7 nobody).0)).1 ≡ false
unfolding reserve_user lookup
reservation_excludes_example =
    reservation_excludes 1 7 8 meanwhile nobody refl
      ((λ e. omega arith), ((λ e. omega arith), ((λ e. omega arith), tt))) (λ e. omega arith)

join_attempt_example :
    (lookup 1 (finish_join 1 7 false (calls meanwhile (reserve_user 1 7 nobody).0))
      ≡ lookup 1 nobody)
    × ((e : UserPresence) × (lookup 1
            (finish_join 1 7 true (calls meanwhile (reserve_user 1 7 nobody).0))
          ≡ some e)
        × (e.joined ≡ true)
        × (e.meeting ≡ 7))
unfolding reserve_user lookup
join_attempt_example =
    join_attempt 1 7 meanwhile ((λ e. omega arith), ((λ e. omega arith), ((λ e. omega arith), tt)))
      nobody tt refl

abbrev connected : MediaSignals
connected = record { signals = []; media_epoch = 2; signal_ids = [] }

connected-AllCurrent : AllCurrent connected
unfolding lookup
connected-AllCurrent id s e = absurd (ground (arith, e))

abbrev signal_history : List SignalCall
signal_history =
    registers 40 1 7 ∷ (sets 1 40 ∷ (events down 2 false ∷ (events up 3 false ∷ (releases 1 ∷ []))))

signal_calls-Advances_example : Advances connected (signal_calls signal_history connected)
signal_calls-Advances_example = signal_calls-Advances signal_history connected connected-AllCurrent

stale_message_example :
    (accept_media_event message 1 true (signal_calls signal_history connected)).1 ≡ false
stale_message_example =
    stale_message signal_history connected 1 true connected-AllCurrent (omega arith)
