-- ===== src/Tests/SerialQueue.antt =====
-- Runs of SlowPool and SerialCommandQueue (RealtimeServer/src/service/BusinessScheduler.cpp).
use sync_rtc.Prelude.{ℕ, ◌≡◌, refl, false, none, List, [], ◌∷◌, arith}
use sync_rtc.Realtime.SlowPool.{SlowPool, new_pool, Use, reserves, awaits, fetches, finishes, uses}
use sync_rtc.Realtime.SlowPool.Places.{Answers, unused, uses-Answers}
use sync_rtc.Realtime.SerialQueue.{
  Entry, Event, submits, runs, waits, resumes, returns, releases, steps, new_queue, accepts,
  refuses, starts, ends, continues,
}
use sync_rtc.Realtime.SerialQueue.Accounting.{IsCounted}
use sync_rtc.Realtime.SerialQueue.Service.{Follows, view}
use sync_rtc.Realtime.SerialQueue.Refinement.{new_scheduler, steps_refine, steps-IsCounted}
use sync_rtc.Realtime.SerialQueue.Drain.{drain, drain-pending}

abbrev two_places : SlowPool ℕ
two_places = record { tasks = []; pending = 0; reserved = 0; capacity = 2; stopping = false }

abbrev pool_turns : List Use
pool_turns =
    reserves 7
    ∷ (reserves 8 ∷ (reserves 9 ∷ (awaits 8 ∷ (fetches ∷ (awaits 7 ∷ (finishes 8 ∷ []))))))

-- The third operation gets no place, and the two tasks do not hinder each other.
pool_run : (uses pool_turns (unused two_places)).holding ≡ 8 ∷ []
unfolding uses
pool_run = refl

uses-Answers_example : Answers 2 (uses pool_turns (unused two_places))
unfolding new_pool
uses-Answers_example = uses-Answers 4 2 pool_turns (omega arith) refl

abbrev chat : ℕ → Entry ℕ
chat n = record { command = n; terminal = false; bytes = 10 }

-- The second command arrives while the first waits; its resume function is called twice.
abbrev queue_events : List (Event ℕ)
queue_events =
    submits (chat 1)
    ∷ (runs
        ∷ (submits (chat 2)
            ∷ (waits
                ∷ (runs
                    ∷ (resumes 1 1
                        ∷ (resumes 1 1 ∷ (runs ∷ (returns ∷ (runs ∷ (releases ∷ []))))))))))

queue_run :
    (steps queue_events (new_queue (new_scheduler 5) 2)).1
    ≡ accepts (chat 1)
      ∷ (starts (chat 1)
          ∷ (accepts (chat 2) ∷ (continues ∷ (ends (chat 1) ∷ (starts (chat 2) ∷ [])))))
unfolding steps new_queue
queue_run = refl

-- With one place the second command is refused.
queue_full :
    (steps (submits (chat 1) ∷ (submits (chat 2) ∷ [])) (new_queue (new_scheduler 5) 1)).1
    ≡ accepts (chat 1) ∷ (refuses (chat 2) ∷ [])
unfolding steps new_queue
queue_full = refl

steps_refine_example :
    Follows
      (record { running = none; waiting = [] })
      (steps queue_events (new_queue (new_scheduler 5) 2)).1
      (view (steps queue_events (new_queue (new_scheduler 5) 2)).0)
steps_refine_example = steps_refine queue_events 5 2 (omega arith)

steps-IsCounted_example : IsCounted 0 (steps queue_events (new_queue (new_scheduler 5) 2)).0
steps-IsCounted_example = steps-IsCounted queue_events 5 2 (omega arith)

drain-pending_example :
    (drain 20 (steps queue_events (new_queue (new_scheduler 5) 2)).0).pending ≡ 0
unfolding steps new_queue
drain-pending_example = drain-pending queue_events 5 2 20 (omega arith) (omega arith)
