-- ===== src/Tests/IoWakeup.antt =====
-- Runs of an IoWakeup (RealtimeServer/src/net/IoWakeup.cpp).
use sync_rtc.Prelude.{◌≡◌, refl, List, [], ◌∷◌, ◌++◌}
use sync_rtc.Prelude.Distinct.{contains}
use sync_rtc.Realtime.IoWakeup.{empty, Request, notifies, takes, requests_stop, serve_all}
use sync_rtc.Realtime.IoWakeup.Pending.{IsSynced, serve_all-IsSynced}
use sync_rtc.Realtime.IoWakeup.Arrival.{handed_out_all, queued_all, arrival_order}

abbrev requests : List Request
requests =
    notifies 4
    ∷ (notifies 9 ∷ (notifies 4 ∷ (takes ∷ (notifies 9 ∷ (requests_stop ∷ (notifies 7 ∷ []))))))

empty-IsSynced : IsSynced empty
unfolding contains
empty-IsSynced = record { once = tt; set = tt; same = λ t. refl }

serve_all-IsSynced_example : IsSynced (serve_all empty requests)
serve_all-IsSynced_example = serve_all-IsSynced empty requests empty-IsSynced

first_batch : handed_out_all empty requests ≡ 4 ∷ (9 ∷ [])
unfolding handed_out_all serve_all
first_batch = refl

arrival_order_example :
    handed_out_all empty requests ++ (serve_all empty requests).ready
    ≡ empty.ready ++ queued_all empty requests
arrival_order_example = arrival_order empty requests refl
