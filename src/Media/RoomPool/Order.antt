-- ===== src/Media/RoomPool/Order.antt =====
-- What a worker accepts and what it hands to the handler, turn by turn.
use sync_rtc.Prelude.{
  ℕ, ◌≡◌, refl, sym, ap, subst, ◌∙◌, ◌⊎◌, inl, inr, true, Option, none, some, List, [], ◌∷◌, ◌++◌,
  append-nil, append_assoc, if◌then◌else◌, arith, Bool-cases,
}
use sync_rtc.Prelude.Assoc.{lookup, lookup-assign}
use sync_rtc.Prelude.Distinct.{contains}
use sync_rtc.Media.RoomPool.{
  Worker, entry, post, take_front, take_task, finish, stop, Turn, posts, stops, works, after_take,
  work, turn, turns,
}
use sync_rtc.Media.RoomPool.Backlog.{tasks_of, tasks_for, began_by, began}
use sync_rtc.Media.RoomPool.Scheduling.{
  IsScheduled, Worked, post-IsScheduled, stop-IsScheduled, take_from_sound, release_sound,
  has_entry,
}

module _ {ℓ} {Task : Type ℓ} where
  -- A turn of the thread works, or the thread waits or has left.
  abbrev pub Idle : Worker Task → Worker Task → Type ℓ
  Idle w w' = (w' ≡ w) × (began w.running w ≡ []) × (w.ready_rooms ≡ []) × (w.running ≡ none)

  -- The worker handles one task at a time; each call of it takes the front task of one meeting.
  pub work_sound :
      (w : Worker Task)
      → IsScheduled w
      → (w' : Worker Task) × (work w.running w ≡ some w')
        × (Worked w w' (began w.running w) ⊎ Idle w w')
  unfolding take_task finish contains
  work_sound w v = go w.running refl
    where
      front :
          (l : List ℕ)
          → w.running ≡ none
          → w.ready_rooms ≡ l
          → (w' : Worker Task) × (after_take (take_front l w) w ≡ some w')
            × (Worked w w' (began_by (take_front l w))
                ⊎ ((w' ≡ w)
                    × (began_by (take_front l w) ≡ [])
                    × (w.ready_rooms ≡ [])
                    × (w.running ≡ none)))
      front [] idle e = elim (Bool-cases w.stopping) [
        | inl t ↦ (w, rw t refl, inr (refl, rw t refl, e, idle))
        | inr t ↦ (w, rw t refl, inr (refl, rw t refl, e, idle))
      ]
      front (m ∷ rest) idle e =
          let h = v.waiting m (ap (λ r. contains r m) e ∙ ground arith) in
          let (w', task, q, done) =
            take_from_sound w v idle m rest e (lookup m w.room_queues) refl h.0 in
          (w', rw q refl, inl (rw q done))

      go :
          (o : Option ℕ)
          → w.running ≡ o
          → (w' : Worker Task) × (work o w ≡ some w')
            × (Worked w w' (began o w)
                ⊎ ((w' ≡ w) × (began o w ≡ []) × (w.ready_rooms ≡ []) × (w.running ≡ none)))
      go none e = front w.ready_rooms e refl
      go (some m) e =
          let here : has_entry (lookup m w.room_queues) ≡ true = ground (arith, v.placed m, e) in
          let (w', q, done) = release_sound m (lookup m w.room_queues) w refl here e v in
          (w', q, inl done)

  -- The task that the worker accepts in a turn, and the one that it hands to the handler.
  abbrev pub accepted : Worker Task → Turn Task → List (ℕ × Task)
  accepted w (posts m task) = if w.stopping then [] else (m, task) ∷ []
  accepted w _ = []

  abbrev pub handled : Worker Task → Turn Task → List (ℕ × Task)
  handled w works = began w.running w
  handled w _ = []

  abbrev Moves : Worker Task → Turn Task → Worker Task → Type ℓ
  Moves w t w' =
      (k : ℕ)
      → tasks_for k (handled w t) ++ tasks_of (lookup k w'.room_queues)
        ≡ tasks_of (lookup k w.room_queues) ++ tasks_for k (accepted w t)

  post-Moves : (m : ℕ) (task : Task) (w : Worker Task) → Moves w (posts m task) (post m task w).0
  unfolding post
  post-Moves m task w k = ground (
    arith,
    append-nil (tasks_of (lookup k w.room_queues)),
    lookup-assign m k
        (record { tasks = (entry (lookup m w.room_queues)).tasks ++ task ∷ []; scheduled = true })
        w.room_queues,
  )

  work-Moves :
      (w w' : Worker Task) → (Worked w w' (began w.running w) ⊎ Idle w w') → Moves w works w'
  work-Moves w w' (inl done) k = done.order k ∙ sym (append-nil _)
  work-Moves w w' (inr (same, out, _, _)) k =
      rw out (ap (λ u. tasks_of (lookup k u.room_queues)) same ∙ sym (append-nil _))

  turn_sound :
      (w : Worker Task) (t : Turn Task)
      → IsScheduled w
      → (w' : Worker Task) × (turn w t ≡ some w') × IsScheduled w' × Moves w t w'
  unfolding turn
  turn_sound w (posts m task) v = (_, refl, post-IsScheduled m task w v, post-Moves m task w)
  turn_sound w stops v = (stop w, refl, stop-IsScheduled w v, λ k. sym (append-nil _))
  turn_sound w works v =
      let (w', e, done) = work_sound w v in
      (
        w',
        e,
        elim done [ inl d ↦ d.kept | inr i ↦ subst IsScheduled (sym i.0) v ],
        work-Moves w w' done,
      )

  -- What all turns give together, along the states that they lead through.
  abbrev pub rest_of : (Worker Task → List (ℕ × Task)) → Option (Worker Task) → List (ℕ × Task)
  rest_of rest none = []
  rest_of rest (some w) = rest w

  unfoldable pub all_of :
      (Worker Task → Turn Task → List (ℕ × Task)) → List (Turn Task) → Worker Task → List (ℕ × Task)
  all_of out [] w = []
  all_of out (t ∷ ts) w = out w t ++ rest_of (all_of out ts) (turn w t)

  tasks_for-append :
      (k : ℕ) (xs ys : List (ℕ × Task)) → tasks_for k (xs ++ ys) ≡ tasks_for k xs ++ tasks_for k ys
  tasks_for-append k [] ys = refl
  tasks_for-append k ((m, x) ∷ xs) ys = ground (arith, tasks_for-append k xs ys)

  -- However producers, destructor and thread take turns, no turn faults, and for every meeting the
  -- tasks handed to the handler followed by those that still wait are those that waited before
  -- followed by those that Post accepted, in their order.
  pub turns-order :
      (ts : List (Turn Task)) (w : Worker Task)
      → IsScheduled w
      → (w' : Worker Task) × (turns ts w ≡ some w')
        × IsScheduled w'
        × ((k : ℕ)
            → tasks_for k (all_of handled ts w) ++ tasks_of (lookup k w'.room_queues)
              ≡ tasks_of (lookup k w.room_queues) ++ tasks_for k (all_of accepted ts w))
  unfolding turns all_of
  turns-order [] w v = (w, refl, v, λ k. sym (append-nil _))
  turns-order (t ∷ ts) w v =
      let (u, e, c, moved) = turn_sound w t v in
      let (w', f, d, rest) = turns-order ts u c in
      (w', rw e f, d, rw e (λ k. joined k u w' (moved k) (rest k)))
    where
      joined :
          (k : ℕ) (u w' : Worker Task)
          → tasks_for k (handled w t) ++ tasks_of (lookup k u.room_queues)
            ≡ tasks_of (lookup k w.room_queues) ++ tasks_for k (accepted w t)
          → tasks_for k (all_of handled ts u) ++ tasks_of (lookup k w'.room_queues)
            ≡ tasks_of (lookup k u.room_queues) ++ tasks_for k (all_of accepted ts u)
          → tasks_for k (handled w t ++ all_of handled ts u) ++ tasks_of (lookup k w'.room_queues)
            ≡ tasks_of (lookup k w.room_queues)
              ++ tasks_for k (accepted w t ++ all_of accepted ts u)
      joined k u w' moved rest =
          ap (λ l. l ++ tasks_of (lookup k w'.room_queues))
            (tasks_for-append k (handled w t) (all_of handled ts u))
          ∙ append_assoc (tasks_for k (handled w t)) (tasks_for k (all_of handled ts u))
              (tasks_of (lookup k w'.room_queues))
          ∙ ap (λ l. tasks_for k (handled w t) ++ l) rest
          ∙ sym (
              append_assoc (tasks_for k (handled w t)) (tasks_of (lookup k u.room_queues))
                (tasks_for k (all_of accepted ts u)))
          ∙ ap (λ l. l ++ tasks_for k (all_of accepted ts u)) moved
          ∙ append_assoc (tasks_of (lookup k w.room_queues)) (tasks_for k (accepted w t))
              (tasks_for k (all_of accepted ts u))
          ∙ ap (λ l. tasks_of (lookup k w.room_queues) ++ l)
              (sym (tasks_for-append k (accepted w t) (all_of accepted ts u)))
