-- ===== src/Media/RoomPool/Drain.antt =====
-- A worker that is told to stop finishes what it accepted.
use sync_rtc.Prelude.{
  ℕ, zero, suc, ◌≤◌, ◌≡◌, refl, sym, ap, ◌∙◌, inl, inr, true, false, Option, none, some, List, [],
  ◌∷◌, ◌++◌, append-nil, length, arith,
}
use sync_rtc.Prelude.Assoc.{Assoc, lookup}
use sync_rtc.Prelude.Distinct.{contains}
use sync_rtc.Media.RoomPool.{
  RoomQueue, Worker, new_worker, exits, take_front, take_task, Turn, works, turn, turns,
}
use sync_rtc.Media.RoomPool.Backlog.{tasks_of, tasks_for, backlog, load}
use sync_rtc.Media.RoomPool.Scheduling.{IsScheduled, has_entry}
use sync_rtc.Media.RoomPool.Order.{work_sound, all_of, rest_of, accepted, handled, turns-order}

module _ {ℓ} {Task : Type ℓ} where
  -- The thread alone, n turns long.
  abbrev pub working : ℕ → List (Turn Task)
  working zero = []
  working (suc n) = works ∷ working n

  pub new_worker-IsScheduled : IsScheduled (new_worker {Task = Task})
  unfolding contains lookup
  new_worker-IsScheduled = record {
    once = tt;
    unique = tt;
    marked = λ m. refl;
    placed = λ m. refl;
    waiting = λ m h. absurd (ground (arith, h));
  }

  no_entries :
      (r : Assoc (RoomQueue Task)) → ((m : ℕ) → has_entry (lookup m r) ≡ false) → backlog r ≡ 0
  unfolding backlog lookup
  no_entries [] h = refl
  no_entries ((k, q) ∷ r) h = absurd (ground (arith, h k))

  idle_load : (w : Worker Task) → IsScheduled w → w.ready_rooms ≡ [] → w.running ≡ none → load w ≡ 0
  unfolding contains
  idle_load w v e i =
      let z : backlog w.room_queues ≡ 0 =
        no_entries w.room_queues (λ m. ground (arith, v.placed m, e, i)) in
      ground (arith, z, i)

  tasks_within : (m : ℕ) (r : Assoc (RoomQueue Task)) → length (tasks_of (lookup m r)) ≤ backlog r
  unfolding backlog lookup
  tasks_within m [] = omega arith
  tasks_within m ((k, q) ∷ r) = ground (arith, tasks_within m r)

  length-zero : (ts : List Task) → length ts ≡ 0 → ts ≡ []
  length-zero [] e = refl
  length-zero (t ∷ ts) e = absurd (omega arith)

  -- Idle with a turn left to do is impossible.
  drain :
      (n : ℕ) (w : Worker Task)
      → IsScheduled w
      → load w ≡ n
      → (w' : Worker Task) × (turns (working n) w ≡ some w')
        × (w'.stopping ≡ w.stopping)
        × IsScheduled w'
        × (load w' ≡ 0)
  unfolding turns turn
  drain zero w v e = (w, refl, refl, v, e)
  drain (suc n) w v e =
      let (u, q, done) = work_sound w v in
      elim done [
        | inl d ↦
            (let (w', f, s, c, z) = drain n u d.kept (omega (arith, d.progress, e)) in
              (w', rw q f, s ∙ d.same_stop, c, z))
        | inr i ↦ absurd (let z = idle_load w v i.2 i.3 in omega arith)
      ]

  nothing_waits : (w : Worker Task) → load w ≡ 0 → (k : ℕ) → tasks_of (lookup k w.room_queues) ≡ []
  nothing_waits w z k = length-zero _ (let b = tasks_within k w.room_queues in omega (arith, b, z))

  leaves : (w : Worker Task) → IsScheduled w → load w ≡ 0 → w.stopping ≡ true → take_task w ≡ exits
  unfolding take_task contains
  leaves w v z s = go w.ready_rooms refl
    where
      go : (l : List ℕ) → w.ready_rooms ≡ l → take_front l w ≡ exits
      go [] e = rw s refl
      go (m ∷ rest) e = absurd (
          let h = v.waiting m (ap (λ r. contains r m) e ∙ ground arith) in
          let t = nothing_waits w z m in ground (arith, h, t))

  rest_of-nothing :
      (out : Worker Task → List (ℕ × Task)) (o : Option (Worker Task))
      → ((u : Worker Task) → out u ≡ [])
      → rest_of out o ≡ []
  rest_of-nothing out none h = refl
  rest_of-nothing out (some u) h = h u

  accepts_nothing : (n : ℕ) (w : Worker Task) → all_of accepted (working n) w ≡ []
  unfolding all_of
  accepts_nothing zero w = refl
  accepts_nothing (suc n) w =
      rest_of-nothing (all_of accepted (working n)) (turn w works) (λ u. accepts_nothing n u)

  rests : (w : Worker Task) → load w ≡ 0 → w.running ≡ none
  rests w z = go w.running refl
    where
      go : (o : Option ℕ) → w.running ≡ o → o ≡ none
      go none e = refl
      go (some m) e = absurd (ground (arith, z, e))

  -- A worker that is told to stop lets its thread leave after as many turns as the accepted tasks
  -- need, two for each, and by then the thread has handed every one of them to the handler, those
  -- of a meeting in their order.
  pub shutdown :
      (w : Worker Task)
      → IsScheduled w
      → w.stopping ≡ true
      → (w' : Worker Task) × (turns (working (load w)) w ≡ some w')
        × (take_task w' ≡ exits)
        × (w'.running ≡ none)
        × ((k : ℕ)
            → tasks_for k (all_of handled (working (load w)) w) ≡ tasks_of (lookup k w.room_queues))
  shutdown w v s =
      let (w', e, stays, c, z) = drain (load w) w v refl in
      let (u, f, _, order) = turns-order (working (load w)) w v in
      let same : u ≡ w' = ground (arith, e, f) in
      (
        w',
        e,
        leaves w' c z (stays ∙ s),
        rests w' z,
        λ k. settled k u (nothing_waits u (ap load same ∙ z) k) (order k),
      )
    where
      settled :
          (k : ℕ) (u : Worker Task)
          → tasks_of (lookup k u.room_queues) ≡ []
          → tasks_for k (all_of handled (working (load w)) w) ++ tasks_of (lookup k u.room_queues)
            ≡ tasks_of (lookup k w.room_queues)
              ++ tasks_for k (all_of accepted (working (load w)) w)
          → tasks_for k (all_of handled (working (load w)) w) ≡ tasks_of (lookup k w.room_queues)
      settled k u none_left order =
          sym (append-nil _)
          ∙ ap (λ l. tasks_for k (all_of handled (working (load w)) w) ++ l) (sym none_left)
          ∙ order
          ∙ ap (λ l. tasks_of (lookup k w.room_queues) ++ tasks_for k l)
              (accepts_nothing (load w) w)
          ∙ append-nil _
