-- ===== src/Media/RoomPool.antt =====
-- One worker of RoomThreadPool (MediaServer/include/service/RoomThreadPool.h). The tasks of a
-- meeting all go to one worker, by the hash of its id. Producers and the worker's own thread take
-- turns under the worker's mutex; `running` is the meeting whose task the thread handles between
-- its two critical sections.
pub mod Backlog
pub mod Scheduling
pub mod Order
pub mod Drain
use sync_rtc.Prelude.{
  ℕ, Bool, true, false, Option, none, some, List, [], ◌∷◌, ◌++◌, if◌then◌else◌, ◌%◌, is_empty,
}
use sync_rtc.Prelude.Assoc.{Assoc, lookup, assign, erase}

-- WorkerIndex, for the hash function of the standard library
unfoldable pub worker_index : (ℕ → ℕ) → ℕ → ℕ → ℕ
worker_index hash workers meeting_id = hash meeting_id % workers

pub record RoomQueue {ℓ} (Task : Type ℓ) : Type ℓ where
  pub tasks : List Task
  -- in ready_rooms, or a task of it is running
  pub scheduled : Bool

pub record Worker {ℓ} (Task : Type ℓ) : Type ℓ where
  pub room_queues : Assoc (RoomQueue Task)
  pub ready_rooms : List ℕ
  pub stopping : Bool
  pub running : Option ℕ

-- What the thread finds under the mutex. `faults` is room_queues.at without the meeting, or the
-- front of a queue without tasks.
pub data Taken {ℓ} (Task : Type ℓ) : Type ℓ where
  waits : Taken Task
  exits : Taken Task
  faults : Taken Task
  takes : Worker Task → ℕ → Task → Taken Task

-- One turn at the mutex: of a producer, of the destructor, or of the worker's thread.
pub data Turn {ℓ} (Task : Type ℓ) : Type ℓ where
  posts : ℕ → Task → Turn Task
  stops : Turn Task
  works : Turn Task

module _ {ℓ} {Task : Type ℓ} where
  abbrev pub new_worker : Worker Task
  new_worker = record { room_queues = []; ready_rooms = []; stopping = false; running = none }

  -- room_queues[meeting_id]
  abbrev pub entry : Option (RoomQueue Task) → RoomQueue Task
  entry none = record { tasks = []; scheduled = false }
  entry (some q) = q

  abbrev pub push : ℕ → Task → RoomQueue Task → Worker Task → Worker Task
  push meeting_id task q w = record w {
    room_queues =
        assign meeting_id (record { tasks = q.tasks ++ task ∷ []; scheduled = true }) w.room_queues;
    ready_rooms = if q.scheduled then w.ready_rooms else w.ready_rooms ++ meeting_id ∷ [];
  }

  unfoldable pub post : ℕ → Task → Worker Task → Worker Task × Bool
  post meeting_id task w =
      if w.stopping
      then (w, false)
      else (push meeting_id task (entry (lookup meeting_id w.room_queues)) w, true)

  abbrev pub pop : ℕ → List ℕ → List Task → Bool → Worker Task → Taken Task
  pop meeting_id rest [] scheduled w = faults
  pop meeting_id rest (task ∷ tasks) scheduled w =
      takes
        (record w {
          room_queues =
              assign meeting_id (record { tasks = tasks; scheduled = scheduled }) w.room_queues;
          ready_rooms = rest;
          running = some meeting_id;
        })
        meeting_id task

  abbrev pub take_from : ℕ → List ℕ → Option (RoomQueue Task) → Worker Task → Taken Task
  take_from meeting_id rest none w = faults
  take_from meeting_id rest (some q) w = pop meeting_id rest q.tasks q.scheduled w

  abbrev pub take_front : List ℕ → Worker Task → Taken Task
  take_front [] w = if w.stopping then exits else waits
  take_front (meeting_id ∷ rest) w = take_from meeting_id rest (lookup meeting_id w.room_queues) w

  unfoldable pub take_task : Worker Task → Taken Task
  take_task w = take_front w.ready_rooms w

  abbrev pub release : ℕ → Option (RoomQueue Task) → Worker Task → Option (Worker Task)
  release meeting_id none w = none
  release meeting_id (some q) w =
      if is_empty q.tasks
      then some (record w { room_queues = erase meeting_id w.room_queues; running = none })
      else some (record w { ready_rooms = w.ready_rooms ++ meeting_id ∷ []; running = none })

  -- After the handler; none is the end iterator that find would give.
  unfoldable pub finish : ℕ → Worker Task → Option (Worker Task)
  finish meeting_id w = release meeting_id (lookup meeting_id w.room_queues) w

  unfoldable pub stop : Worker Task → Worker Task
  stop w = record w { stopping = true }

  abbrev pub after_take : Taken Task → Worker Task → Option (Worker Task)
  after_take waits w = some w
  after_take exits w = some w
  after_take faults w = none
  after_take (takes w' meeting_id task) w = some w'

  abbrev pub work : Option ℕ → Worker Task → Option (Worker Task)
  work none w = after_take (take_task w) w
  work (some meeting_id) w = finish meeting_id w

  unfoldable pub turn : Worker Task → Turn Task → Option (Worker Task)
  unfolding post take_task finish stop
  turn w (posts meeting_id task) = some (post meeting_id task w).0
  turn w stops = some (stop w)
  turn w works = work w.running w

  abbrev pub then_turns :
      (Worker Task → Option (Worker Task)) → Option (Worker Task) → Option (Worker Task)
  then_turns rest none = none
  then_turns rest (some w) = rest w

  -- none is a fault on the way.
  unfoldable pub turns : List (Turn Task) → Worker Task → Option (Worker Task)
  unfolding turn
  turns [] w = some w
  turns (t ∷ ts) w = then_turns (turns ts) (turn w t)
