-- ===== src/Realtime/SlowPool.antt =====
-- The pool for slow tasks (SlowPool in RealtimeServer/include/service/BusinessScheduler.h and
-- src/service/BusinessScheduler.cpp) and the operations that hold places in it (Reserve, Await and
-- ReleaseCapacity of SerialCommandQueue::Operation). m_mutex makes each critical section one step.
-- A counter is a size_t; the condition variable and the joining of threads are not modelled.
pub mod Places
use sync_rtc.Prelude.{
  ℕ, ◌+◌, ◌-◌, ◌%◌, ◌^◌, Bool, true, false, not, ◌||◌, ◌&&◌, Option, none, some, List, [], ◌∷◌,
  ◌++◌, ltb, leb, ◌==◌, if◌then◌else◌,
}
use sync_rtc.Prelude.Distinct.{contains}

abbrev pub plus_one : ℕ → ℕ
plus_one n = (n + 1) % 2 ^ 64

abbrev pub minus_one : ℕ → ℕ
minus_one n = (n + (2 ^ 64 - 1)) % 2 ^ 64

pub record SlowPool {ℓ} (Task : Type ℓ) : Type ℓ where
  pub tasks : List Task
  pub pending : ℕ
  pub reserved : ℕ
  pub capacity : ℕ
  pub stopping : Bool

-- What a thread finds under the mutex.
pub data Found {ℓ} (Task : Type ℓ) : Type ℓ where
  waits : Found Task
  exits : Found Task
  takes : Task → SlowPool Task → Found Task

module _ {ℓ} {Task : Type ℓ} where
  -- none is the exception std::invalid_argument.
  unfoldable pub new_pool : ℕ → ℕ → Option (SlowPool Task)
  new_pool threads capacity =
      if threads == 0 || capacity == 0
      then none
      else some
          (record { tasks = []; pending = 0; reserved = 0; capacity = capacity; stopping = false })

  unfoldable pub reserve : SlowPool Task → SlowPool Task × Bool
  reserve p =
      if p.stopping || leb p.capacity p.reserved
      then (p, false)
      else (record p { reserved = plus_one p.reserved }, true)

  unfoldable pub release : SlowPool Task → SlowPool Task
  release p = record p { reserved = minus_one p.reserved }

  unfoldable pub submit : Task → SlowPool Task → SlowPool Task × Bool
  submit task p =
      if p.stopping || leb p.capacity p.pending
      then (p, false)
      else (record p { tasks = p.tasks ++ task ∷ []; pending = plus_one p.pending }, true)

  abbrev pub take_front : List Task → SlowPool Task → Found Task
  take_front [] p = if p.stopping then exits else waits
  take_front (task ∷ rest) p = takes task (record p { tasks = rest })

  unfoldable pub take_task : SlowPool Task → Found Task
  take_task p = take_front p.tasks p

  -- The second critical section of Run, after the task.
  unfoldable pub settle : SlowPool Task → SlowPool Task
  settle p = record p { pending = minus_one p.pending }

  unfoldable pub join : SlowPool Task → SlowPool Task
  join p = record p { stopping = true }

-- The pool, the operations that hold a place and do not wait for a task, and those whose task a
-- thread runs. A task is the number of its operation.
pub record Users : Type 0 where
  pub pool : SlowPool ℕ
  pub holding : List ℕ
  pub working : List ℕ

-- xs without the first k
unfoldable pub without : ℕ → List ℕ → List ℕ
without k [] = []
without k (x ∷ xs) = if x == k then xs else x ∷ without k xs

-- reserves k: Operation::Reserve, which does nothing where the operation has a place. awaits k:
-- pool.Submit in Await, after Reserve. fetches and finishes k: the two sections of Run. frees k:
-- ReleaseCapacity of an operation that waits for nothing.
pub data Use : Type 0 where
  reserves : ℕ → Use
  awaits : ℕ → Use
  fetches : Use
  finishes : ℕ → Use
  frees : ℕ → Use
  joins : Use

-- Operation k holds a place: alone, or for its task in the queue or at work.
abbrev pub has_place : ℕ → Users → Bool
has_place k u = contains u.holding k || (contains u.pool.tasks k || contains u.working k)

abbrev pub got_place : ℕ → SlowPool ℕ × Bool → Users → Users
got_place k (p, false) u = record u { pool = p }
got_place k (p, true) u = record u { pool = p; holding = k ∷ u.holding }

-- A refused task resumes its operation at once, with an error.
abbrev pub got_task : ℕ → SlowPool ℕ × Bool → Users → Users
got_task k (p, false) u = record u { pool = p }
got_task k (p, true) u = record u { pool = p; holding = without k u.holding }

abbrev pub fetched : Found ℕ → Users → Users
fetched waits u = u
fetched exits u = u
fetched (takes k p) u = record u { pool = p; working = k ∷ u.working }

unfoldable pub use_pool : Use → Users → Users
unfolding reserve submit take_task settle release join contains without
use_pool (reserves k) u = if has_place k u then u else got_place k (reserve u.pool) u
use_pool (awaits k) u = if contains u.holding k then got_task k (submit k u.pool) u else u
use_pool fetches u = fetched (take_task u.pool) u
use_pool (finishes k) u =
    if contains u.working k
    then record u { pool = settle u.pool; working = without k u.working; holding = k ∷ u.holding }
    else u
use_pool (frees k) u =
    if contains u.holding k
    then record u { pool = release u.pool; holding = without k u.holding }
    else u
use_pool joins u = record u { pool = join u.pool }

unfoldable pub uses : List Use → Users → Users
unfolding use_pool
uses [] u = u
uses (e ∷ es) u = uses es (use_pool e u)
