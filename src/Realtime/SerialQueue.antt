-- ===== src/Realtime/SerialQueue.antt =====
-- The queue of a meeting or a connection, and the quota that all queues share (BusinessScheduler and
-- SerialCommandQueue in RealtimeServer/include/service/BusinessScheduler.h and
-- src/service/BusinessScheduler.cpp). `strand` holds the handlers that are posted to the strand,
-- which runs them one at a time in their order and none while a coroutine executes; a coroutine is
-- spawned within its handler. What a command does is its sequence of events: it waits, is resumed,
-- and ends, by returning or by an exception. A counter is a std::size_t or a uint64_t.
pub mod Counts
pub mod Accounting
pub mod Phases
pub mod Service
pub mod Refinement
pub mod Drain
use sync_rtc.Prelude.{
  ℕ, ◌+◌, ◌-◌, ◌*◌, ◌%◌, ◌^◌, ◌<◌, Bool, true, false, not, ◌||◌, ◌&&◌, Option, none, some, List, [],
  ◌∷◌, ◌++◌, ltb, leb, ◌==◌, if◌then◌else◌, is_empty,
}
use sync_rtc.Realtime.SlowPool.{plus_one, minus_one}

-- x - y on size_t
abbrev pub minus : ℕ → ℕ → ℕ
minus x y = (x + (2 ^ 64 - y)) % 2 ^ 64

pub record BusinessScheduler : Type 0 where
  pub pending : ℕ
  pub capacity : ℕ
  pub bytes : ℕ

abbrev pub scheduler_bytes : ℕ
scheduler_bytes = 67108864

abbrev pub queue_bytes : ℕ
queue_bytes = 4194304

unfoldable pub reserve : Bool → ℕ → BusinessScheduler → BusinessScheduler × Bool
reserve terminal bytes s =
    if (not terminal && leb s.capacity s.pending) || ltb (minus scheduler_bytes s.bytes) bytes
    then (s, false)
    else (record s { pending = plus_one s.pending; bytes = (s.bytes + bytes) % 2 ^ 64 }, true)

unfoldable pub release : ℕ → BusinessScheduler → BusinessScheduler
release bytes s = record s { bytes = minus s.bytes bytes; pending = minus_one s.pending }

-- `done` is no field: it is called once, at the happening `ends` of the entry.
pub record Entry {ℓ} (Command : Type ℓ) : Type ℓ where
  pub command : Command
  pub terminal : Bool
  pub bytes : ℕ

-- arrives: the handler that Submit posts. goes_on: the one at the end of an operation. completes id
-- phase: the one that a resume function posts.
pub data Handler {ℓ} (Command : Type ℓ) : Type ℓ where
  arrives : Entry Command → Handler Command
  goes_on : ℕ → Handler Command
  completes : ℕ → ℕ → Handler Command

-- The coroutine of Pump; it executes on the strand or is suspended in Wait.
pub record Operation {ℓ} (Command : Type ℓ) : Type ℓ where
  pub id : ℕ
  pub phase : ℕ
  pub entry : Entry Command
  pub executing : Bool

-- `resumable` holds the resume functions that no thread has called yet, `unreleased` the bytes of
-- finished handlers that Pump has returned in, before Release, and `elsewhere` the reservations of
-- the other queues.
pub record SerialCommandQueue {ℓ} (Command : Type ℓ) : Type ℓ where
  pub scheduler : BusinessScheduler
  pub capacity : ℕ
  pub pending : ℕ
  pub bytes : ℕ
  pub commands : List (Entry Command)
  pub next_op : ℕ
  pub active_op : ℕ
  pub phase : ℕ
  pub strand : List (Handler Command)
  pub operation : Option (Operation Command)
  pub resumable : List (ℕ × ℕ)
  pub unreleased : List ℕ
  pub elsewhere : List ℕ

-- What an observer sees. `faults` is a completion that finds its coroutine not suspended.
pub data Happening {ℓ} (Command : Type ℓ) : Type ℓ where
  accepts : Entry Command → Happening Command
  refuses : Entry Command → Happening Command
  starts : Entry Command → Happening Command
  ends : Entry Command → Happening Command
  continues : Happening Command
  idles : Happening Command
  faults : Happening Command

-- submits, resumes, releases and those elsewhere come from any thread; runs is the strand, waits and
-- returns the coroutine that executes.
pub data Event {ℓ} (Command : Type ℓ) : Type ℓ where
  submits : Entry Command → Event Command
  runs : Event Command
  waits : Event Command
  resumes : ℕ → ℕ → Event Command
  returns : Event Command
  releases : Event Command
  reserves_elsewhere : Bool → ℕ → Event Command
  releases_elsewhere : Event Command

abbrev pub has_pair : List (ℕ × ℕ) → ℕ → ℕ → Bool
has_pair [] i p = false
has_pair ((j, q) ∷ xs) i p = if j == i && (q == p) then true else has_pair xs i p

abbrev pub without_pair : List (ℕ × ℕ) → ℕ → ℕ → List (ℕ × ℕ)
without_pair [] i p = []
without_pair ((j, q) ∷ xs) i p = if j == i && (q == p) then xs else (j, q) ∷ without_pair xs i p

abbrev pub Outcome {ℓ} : Type ℓ → Type ℓ
Outcome Command = SerialCommandQueue Command × List (Happening Command)

module _ {ℓ} {Command : Type ℓ} where
  abbrev pub submitted :
      Entry Command → BusinessScheduler × Bool → SerialCommandQueue Command → Outcome Command
  submitted e (s, false) q = (record q { scheduler = s }, refuses e ∷ [])
  submitted e (s, true) q = (
    record q {
      scheduler = s;
      pending = plus_one q.pending;
      bytes = (q.bytes + e.bytes) % 2 ^ 64;
      strand = q.strand ++ arrives e ∷ [];
    },
    accepts e ∷ [],
  )

  unfoldable pub submit : Entry Command → SerialCommandQueue Command → Outcome Command
  unfolding reserve
  submit e q =
      if (not e.terminal && leb q.capacity q.pending) || ltb (minus queue_bytes q.bytes) e.bytes
      then (q, refuses e ∷ [])
      else submitted e (reserve e.terminal e.bytes q.scheduler) q

  abbrev pub spawn_front : List (Entry Command) → SerialCommandQueue Command → Outcome Command
  spawn_front [] q = (q, [])
  spawn_front (e ∷ rest) q = (
    record q {
      next_op = plus_one q.next_op;
      active_op = plus_one q.next_op;
      phase = 0;
      commands = rest;
      operation = some (record { id = plus_one q.next_op; phase = 0; entry = e; executing = true });
    },
    starts e ∷ [],
  )

  unfoldable pub pump : SerialCommandQueue Command → Outcome Command
  pump q = if q.active_op == 0 then spawn_front q.commands q else (q, [])

  -- (*completion)()
  abbrev pub continue :
      ℕ → ℕ → Option (Operation Command) → SerialCommandQueue Command → Outcome Command
  continue id phase none q = (q, faults ∷ [])
  continue id phase (some o) q =
      if (o.id == id && (o.phase == phase)) && not o.executing
      then (record q { operation = some (record o { executing = true }) }, continues ∷ [])
      else (q, faults ∷ [])

  abbrev pub idle : SerialCommandQueue Command → List (Happening Command)
  idle q = if q.pending == 0 then idles ∷ [] else []

  abbrev pub pumped : ℕ → List (Happening Command) → Outcome Command → Outcome Command
  pumped bytes seen (q, more) = (record q { unreleased = bytes ∷ q.unreleased }, seen ++ more)

  -- A posted handler, on the queue without it.
  unfoldable pub handle : Handler Command → SerialCommandQueue Command → Outcome Command
  unfolding pump
  handle (arrives e) q = pump (record q { commands = q.commands ++ e ∷ [] })
  handle (goes_on bytes) q = pumped bytes (idle q) (pump q)
  handle (completes id phase) q =
      if q.active_op == id && (q.phase == phase) then continue id phase q.operation q else (q, [])

  abbrev pub busy : Option (Operation Command) → Bool
  busy none = false
  busy (some o) = o.executing

  abbrev pub run_front : List (Handler Command) → SerialCommandQueue Command → Outcome Command
  run_front [] q = (q, [])
  run_front (h ∷ rest) q = handle h (record q { strand = rest })

  unfoldable pub run_strand : SerialCommandQueue Command → Outcome Command
  unfolding handle
  run_strand q = if busy q.operation then (q, []) else run_front q.strand q

  -- Operation::Wait
  abbrev pub suspend : Operation Command → SerialCommandQueue Command → SerialCommandQueue Command
  suspend o q = record q {
    phase = plus_one o.phase;
    operation = some (record o { phase = plus_one o.phase; executing = false });
    resumable = (o.id, plus_one o.phase) ∷ q.resumable;
  }

  unfoldable pub wait :
      Option (Operation Command) → SerialCommandQueue Command → SerialCommandQueue Command
  wait none q = q
  wait (some o) q = if o.executing then suspend o q else q

  -- The call of a resume function, which acts once.
  unfoldable pub resume : ℕ → ℕ → SerialCommandQueue Command → SerialCommandQueue Command
  resume id phase q =
      if has_pair q.resumable id phase
      then record q {
        resumable = without_pair q.resumable id phase;
        strand = q.strand ++ completes id phase ∷ [];
      }
      else q

  -- The rest of the coroutine, once the command has returned or thrown.
  abbrev pub end : Operation Command → SerialCommandQueue Command → SerialCommandQueue Command
  end o q = record q {
    active_op = 0;
    pending = minus_one q.pending;
    bytes = minus q.bytes o.entry.bytes;
    operation = none;
    strand = q.strand ++ goes_on o.entry.bytes ∷ [];
  }

  unfoldable pub return : Option (Operation Command) → SerialCommandQueue Command → Outcome Command
  return none q = (q, [])
  return (some o) q = if o.executing then (end o q, ends o.entry ∷ []) else (q, [])

  unfoldable pub release_next : List ℕ → SerialCommandQueue Command → SerialCommandQueue Command
  unfolding release
  release_next [] q = q
  release_next (b ∷ bs) q = record q { scheduler = release b q.scheduler; unreleased = bs }

  abbrev pub reserved_elsewhere :
      ℕ → BusinessScheduler × Bool → SerialCommandQueue Command → SerialCommandQueue Command
  reserved_elsewhere b (s, false) q = record q { scheduler = s }
  reserved_elsewhere b (s, true) q = record q { scheduler = s; elsewhere = b ∷ q.elsewhere }

  abbrev pub released_elsewhere : List ℕ → SerialCommandQueue Command → SerialCommandQueue Command
  released_elsewhere [] q = q
  released_elsewhere (b ∷ bs) q = record q { scheduler = release b q.scheduler; elsewhere = bs }

  unfoldable pub step : Event Command → SerialCommandQueue Command → Outcome Command
  unfolding reserve release submit run_strand wait resume return release_next
  step (submits e) q = submit e q
  step runs q = run_strand q
  step waits q = (wait q.operation q, [])
  step (resumes id phase) q = (resume id phase q, [])
  step returns q = return q.operation q
  step releases q = (release_next q.unreleased q, [])
  step (reserves_elsewhere terminal b) q =
      (reserved_elsewhere b (reserve terminal b q.scheduler) q, [])
  step releases_elsewhere q = (released_elsewhere q.elsewhere q, [])

  unfoldable pub steps : List (Event Command) → SerialCommandQueue Command → Outcome Command
  unfolding step
  steps [] q = (q, [])
  steps (e ∷ es) q =
      let (q', seen) = step e q in let (q'', more) = steps es q' in (q'', seen ++ more)

  unfoldable pub new_queue : BusinessScheduler → ℕ → SerialCommandQueue Command
  new_queue s capacity = record {
    scheduler = s;
    capacity = capacity;
    pending = 0;
    bytes = 0;
    commands = [];
    next_op = 0;
    active_op = 0;
    phase = 0;
    strand = [];
    operation = none;
    resumable = [];
    unreleased = [];
    elsewhere = [];
  }
