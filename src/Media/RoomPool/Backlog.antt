-- ===== src/Media/RoomPool/Backlog.antt =====
-- The tasks that wait in a worker, and those that it hands to the handler.
use sync_rtc.Prelude.{
  ℕ, ◌*◌, length, ◌+◌, ◌≡◌, refl, true, ◌==◌, Option, none, some, List, [], ◌∷◌, if◌then◌else◌,
  is_empty, arith,
}
use sync_rtc.Prelude.Assoc.{Assoc, is_free, lookup, assign, erase, UniqueKeys}
use sync_rtc.Media.RoomPool.{RoomQueue, Worker, Taken, takes, take_task}

abbrev pub running_one : Option ℕ → ℕ
running_one none = 0
running_one (some m) = 1

module _ {ℓ} {Task : Type ℓ} where
  abbrev pub tasks_of : Option (RoomQueue Task) → List Task
  tasks_of none = []
  tasks_of (some q) = q.tasks

  -- The tasks of one meeting.
  abbrev pub tasks_for : ℕ → List (ℕ × Task) → List Task
  tasks_for k [] = []
  tasks_for k ((m, task) ∷ ts) = if m == k then task ∷ tasks_for k ts else tasks_for k ts

  -- The task that a turn of the thread hands to the handler.
  abbrev pub began_by : Taken Task → List (ℕ × Task)
  began_by (takes w m task) = (m, task) ∷ []
  began_by _ = []

  abbrev pub began : Option ℕ → Worker Task → List (ℕ × Task)
  began none w = began_by (take_task w)
  began (some m) w = []

  unfoldable pub backlog : Assoc (RoomQueue Task) → ℕ
  backlog [] = 0
  backlog ((m, q) ∷ rest) = length q.tasks + backlog rest

  -- The turns that the thread has left to do.
  abbrev pub load : Worker Task → ℕ
  load w = 2 * backlog w.room_queues + running_one w.running

  pub backlog-assign :
      (m : ℕ) (q : RoomQueue Task) (r : Assoc (RoomQueue Task))
      → backlog (assign m q r) + length (tasks_of (lookup m r)) ≡ backlog r + length q.tasks
  unfolding backlog assign lookup
  backlog-assign m q [] = omega arith
  backlog-assign m q ((k, p) ∷ r) = ground (arith, backlog-assign m q r)

  backlog-free :
      (m : ℕ) (r : Assoc (RoomQueue Task)) → is_free m r ≡ true → backlog (erase m r) ≡ backlog r
  unfolding backlog erase
  backlog-free m [] f = refl
  backlog-free m ((k, p) ∷ r) f = ground (arith, backlog-free m r)

  is_empty-length : (ts : List Task) → is_empty ts ≡ true → length ts ≡ 0
  is_empty-length [] e = refl
  is_empty-length (t ∷ ts) e = absurd (ground arith)

  pub backlog-erase :
      (m : ℕ) (r : Assoc (RoomQueue Task))
      → UniqueKeys r
      → is_empty (tasks_of (lookup m r)) ≡ true
      → backlog (erase m r) ≡ backlog r
  unfolding backlog erase lookup
  backlog-erase m [] u e = refl
  backlog-erase m ((k, p) ∷ r) u e =
      ground (arith, u.0, backlog-erase m r u.1, backlog-free m r, is_empty-length p.tasks)
