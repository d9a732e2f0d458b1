-- ===== src/Tests/RoomPool.antt =====
-- Runs of a worker of RoomThreadPool (MediaServer/include/service/RoomThreadPool.h).
use sync_rtc.Prelude.{
  ℕ, ◌+◌, ◌*◌, ◌≡◌, refl, Bool, true, false, Option, none, some, List, [], ◌∷◌, ◌++◌,
}
use sync_rtc.Prelude.Assoc.{lookup}
use sync_rtc.Media.RoomPool.{
  Worker, new_worker, Turn, posts, stops, works, turns, take_task, exits, post, stop,
}
use sync_rtc.Media.RoomPool.Backlog.{tasks_of, tasks_for, load}
use sync_rtc.Media.RoomPool.Scheduling.{IsScheduled, post-IsScheduled, stop-IsScheduled}
use sync_rtc.Media.RoomPool.Order.{all_of, handled, accepted, turns-order}
use sync_rtc.Media.RoomPool.Drain.{new_worker-IsScheduled, working, shutdown}

abbrev three_turns : List (Turn ℕ)
three_turns =
    posts 5 50 ∷ (posts 5 51 ∷ (posts 6 60 ∷ (works ∷ (works ∷ (works ∷ (posts 6 61 ∷ []))))))

-- Meeting 6 gets its turn after one task of meeting 5.
both_begin : all_of handled three_turns new_worker ≡ (5, 50) ∷ ((6, 60) ∷ [])
unfolding all_of sync_rtc.Media.RoomPool.turn lookup sync_rtc.Prelude.Assoc.assign
both_begin = refl

turns-order_example :
    (w' : Worker ℕ) × (turns three_turns new_worker ≡ some w')
    × IsScheduled w'
    × ((k : ℕ)
        → tasks_for k (all_of handled three_turns new_worker) ++ tasks_of (lookup k w'.room_queues)
          ≡ tasks_of (lookup {V = _} k (new_worker {Task = ℕ}).room_queues)
            ++ tasks_for k (all_of accepted three_turns new_worker))
turns-order_example = turns-order three_turns new_worker new_worker-IsScheduled

abbrev stopped_worker : Worker ℕ
stopped_worker = stop (post 6 60 (post 5 51 (post 5 50 new_worker).0).0).0

shutdown_example :
    (w' : Worker ℕ) × (turns (working (load stopped_worker)) stopped_worker ≡ some w')
    × (take_task w' ≡ exits)
    × (w'.running ≡ none)
    × ((k : ℕ)
        → tasks_for k (all_of handled (working (load stopped_worker)) stopped_worker)
          ≡ tasks_of (lookup k stopped_worker.room_queues))
unfolding stop
shutdown_example =
    shutdown stopped_worker
      (stop-IsScheduled _ (
        post-IsScheduled 6 60 _
          (post-IsScheduled 5 51 _ (post-IsScheduled 5 50 new_worker new_worker-IsScheduled))))
      refl
