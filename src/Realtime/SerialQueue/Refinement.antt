-- ===== src/Realtime/SerialQueue/Refinement.antt =====
-- The queue from its making on, under any sequence of events.
use sync_rtc.Prelude.{ℕ, suc, ◌+◌, ◌^◌, ◌<◌, ◌≡◌, refl, subst, none, List, [], ◌∷◌, arith, length}
use sync_rtc.Realtime.SerialQueue.{
  BusinessScheduler, SerialCommandQueue, Event, step, steps, new_queue,
}
use sync_rtc.Realtime.SerialQueue.Accounting.{IsCounted, step-IsCounted}
use sync_rtc.Realtime.SerialQueue.Phases.{IsServing, step-IsServing}
use sync_rtc.Realtime.SerialQueue.Service.{Follows, view, Follows-append, step-Follows}

abbrev pub new_scheduler : ℕ → BusinessScheduler
new_scheduler capacity = record { pending = 0; capacity = capacity; bytes = 0 }

module _ {ℓ} {Command : Type ℓ} where
  pub steps_sound :
      (m : ℕ) (es : List (Event Command)) (q : SerialCommandQueue Command)
      → IsServing (length es + m) q
      → IsCounted (length es + m) q
      → IsServing m (steps es q).0
        × IsCounted m (steps es q).0
        × Follows (view q) (steps es q).1 (view (steps es q).0)
  unfolding steps
  steps_sound m [] q v c =
      let e : 0 + m ≡ m = omega arith in
      (subst (λ k. IsServing k q) e v, subst (λ k. IsCounted k q) e c, refl)
  steps_sound m (e ∷ es) q v c =
      let more : suc (length es) + m ≡ suc (length es + m) = omega arith in
      let v' = subst (λ k. IsServing k q) more v in
      let c' = subst (λ k. IsCounted k q) more c in
      let (w, d, f) =
        steps_sound m es (step e q).0 (step-IsServing (length es + m) e q v')
          (step-IsCounted (length es + m) e q v.active c') in
      (
        w,
        d,
        Follows-append (step e q).1 (steps es (step e q).0).1 _ _ _
            (step-Follows (length es + m) e q v' c') f,
      )

  pub new_queue_sound :
      (n limit capacity : ℕ)
      → n < 2 ^ 64
      → IsServing {Command = Command} n (new_queue (new_scheduler limit) capacity)
        × IsCounted {Command = Command} n (new_queue (new_scheduler limit) capacity)
  unfolding new_queue
  new_queue_sound n limit capacity h = (ground arith, ground arith)

  -- Under every sequence of events, shorter than 2^64, of the threads that submit, of the strand, of
  -- the coroutines and of the other queues at the scheduler, a new queue does what an abstract queue
  -- does that takes the accepted commands, starts one only when none runs, in the order of their
  -- acceptance, continues only a command that runs, calls on_idle only when none runs or waits, and
  -- never resumes a coroutine that is not suspended.
  pub steps_refine :
      (es : List (Event Command)) (limit capacity : ℕ)
      → length es < 2 ^ 64
      → Follows
          (record { running = none; waiting = [] })
          (steps es (new_queue (new_scheduler limit) capacity)).1
          (view (steps es (new_queue (new_scheduler limit) capacity)).0)
  unfolding new_queue
  steps_refine es limit capacity h =
      let (v, c) = new_queue_sound (length es + 0) limit capacity (omega arith) in
      (steps_sound 0 es _ v c).2

  -- And its counters tell what it holds: m_pending the commands accepted and not ended, m_bytes their
  -- sizes, at most 4 MiB; those of the scheduler are at most 64 MiB and count in addition the ends
  -- that are posted or not yet released and the reservations of other queues.
  pub steps-IsCounted :
      (es : List (Event Command)) (limit capacity : ℕ)
      → length es < 2 ^ 64
      → IsCounted 0 (steps es (new_queue (new_scheduler limit) capacity)).0
  steps-IsCounted es limit capacity h =
      let (v, c) = new_queue_sound (length es + 0) limit capacity (omega arith) in
      (steps_sound 0 es _ v c).1
