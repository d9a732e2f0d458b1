-- ===== src/Media/RoomPool/Scheduling.antt =====
-- The queue of ready meetings against the queues of their tasks.
use sync_rtc.Prelude.{
  ℕ, ◌+◌, ◌≡◌, refl, ap, subst, ◌∙◌, Bool, true, false, not, ◌||◌, ◌==◌, Option, none, some, List,
  [], ◌∷◌, ◌++◌, if◌then◌else◌, is_empty, arith,
}
use sync_rtc.Prelude.Assoc.{
  lookup, assign, erase, lookup-assign, lookup-erase, UniqueKeys, assign-UniqueKeys,
  erase-UniqueKeys,
}
use sync_rtc.Prelude.Distinct.{contains, Distinct, contains-append, Distinct-append}
use sync_rtc.Media.RoomPool.{
  RoomQueue, Worker, entry, push, post, takes, pop, take_from, release, stop,
}
use sync_rtc.Media.RoomPool.Backlog.{tasks_of, tasks_for, load, backlog-assign, backlog-erase}

abbrev pub running_is : Option ℕ → ℕ → Bool
running_is none m = false
running_is (some k) m = k == m

module _ {ℓ} {Task : Type ℓ} where
  abbrev pub has_task : Option (RoomQueue Task) → Bool
  has_task none = false
  has_task (some q) = not (is_empty q.tasks)

  -- the flag `scheduled` of an entry, and whether there is an entry
  abbrev pub is_scheduled : Option (RoomQueue Task) → Bool
  is_scheduled none = false
  is_scheduled (some q) = q.scheduled

  abbrev pub has_entry : Option (RoomQueue Task) → Bool
  has_entry none = false
  has_entry (some q) = true

pub record IsScheduled {ℓ} {Task : Type ℓ} (w : Worker Task) : Type ℓ where
  pub once : Distinct w.ready_rooms
  pub unique : UniqueKeys w.room_queues
  -- every entry is marked as scheduled
  pub marked : (m : ℕ) → is_scheduled (lookup m w.room_queues) ≡ has_entry (lookup m w.room_queues)
  -- and has a place in the queue or a task at work
  pub placed :
      (m : ℕ)
      → has_entry (lookup m w.room_queues) ≡ (contains w.ready_rooms m || running_is w.running m)
  -- a meeting in the queue has a task, and none at work
  pub waiting :
      (m : ℕ)
      → contains w.ready_rooms m ≡ true
      → (has_task (lookup m w.room_queues) ≡ true) × (running_is w.running m ≡ false)

-- A turn of the thread that does something: it hands `out` to the handler, and leaves one turn less.
pub record Worked {ℓ} {Task : Type ℓ} (w w' : Worker Task) (out : List (ℕ × Task)) : Type ℓ where
  pub kept : IsScheduled w'
  pub order :
      (k : ℕ)
      → tasks_for k out ++ tasks_of (lookup k w'.room_queues) ≡ tasks_of (lookup k w.room_queues)
  pub progress : load w ≡ load w' + 1
  pub same_stop : w'.stopping ≡ w.stopping

module _ {ℓ} {Task : Type ℓ} where
  is_empty-snoc : (ts : List Task) (t : Task) → is_empty (ts ++ t ∷ []) ≡ false
  is_empty-snoc [] t = refl
  is_empty-snoc (x ∷ ts) t = refl

  is_empty-nil : (ts : List Task) → is_empty ts ≡ true → ts ≡ []
  is_empty-nil [] e = refl
  is_empty-nil (t ∷ ts) e = absurd (ground arith)

  push-IsScheduled :
      (m : ℕ) (task : Task) (o : Option (RoomQueue Task)) (w : Worker Task)
      → lookup m w.room_queues ≡ o
      → IsScheduled w
      → IsScheduled (push m task (entry o) w)
  unfolding contains
  push-IsScheduled m task none w e v = record {
    once = ground (arith, v.once, v.placed m, Distinct-append w.ready_rooms m);
    unique = assign-UniqueKeys m _ w.room_queues v.unique;
    marked = λ k. ground (arith, v.marked k, lookup-assign m k pushed w.room_queues);
    placed = λ k. ground (
      arith,
      v.placed m,
      v.placed k,
      lookup-assign m k pushed w.room_queues,
      contains-append w.ready_rooms (m ∷ []) k,
    );
    waiting = λ k h. ground (
      arith,
      h,
      v.placed m,
      v.waiting k,
      lookup-assign m k pushed w.room_queues,
      contains-append w.ready_rooms (m ∷ []) k,
    );
  }
    where
      pushed : RoomQueue Task
      pushed = record { tasks = task ∷ []; scheduled = true }
  push-IsScheduled m task (some q) w e v = record {
    once = ground (arith, v.once, v.marked m);
    unique = assign-UniqueKeys m _ w.room_queues v.unique;
    marked = λ k. ground (arith, v.marked k, lookup-assign m k pushed w.room_queues);
    placed = λ k.
        ground (arith, v.placed m, v.placed k, v.marked m, lookup-assign m k pushed w.room_queues);
    waiting = λ k h. ground (
      arith,
      h,
      v.marked m,
      v.waiting k,
      lookup-assign m k pushed w.room_queues,
      is_empty-snoc q.tasks task,
    );
  }
    where
      pushed : RoomQueue Task
      pushed = record { tasks = q.tasks ++ task ∷ []; scheduled = true }

  pub post-IsScheduled :
      (m : ℕ) (task : Task) (w : Worker Task) → IsScheduled w → IsScheduled (post m task w).0
  unfolding post
  post-IsScheduled m task w v = go w.stopping
    where
      go :
          (b : Bool)
          → IsScheduled
              (if◌then◌else◌ {A = Worker Task × Bool} b
                (w, false)
                (push m task (entry (lookup m w.room_queues)) w, true)).0
      go true = v
      go false = push-IsScheduled m task _ w refl v

  -- The thread takes a task off the meeting in front.
  module _ (w : Worker Task) (v : IsScheduled w) (idle : w.running ≡ none) (m : ℕ) (rest : List ℕ)
      (ready : w.ready_rooms ≡ m ∷ rest) where
    rest-once : Distinct rest
    rest-once = (subst Distinct ready v.once).1

    not_again : contains rest m ≡ false
    not_again = (subst Distinct ready v.once).0

    member_of : (k : ℕ) → contains w.ready_rooms k ≡ (if m == k then true else contains rest k)
    unfolding contains
    member_of k = ap (λ r. contains r k) ready

    idle_at : (k : ℕ) → running_is w.running k ≡ false
    idle_at k = ap (λ r. running_is r k) idle

    pop-IsScheduled :
        (task : Task) (tasks : List Task) (scheduled : Bool)
        → lookup m w.room_queues ≡ some (record { tasks = task ∷ tasks; scheduled = scheduled })
        → IsScheduled (record w {
          room_queues = assign m (record { tasks = tasks; scheduled = scheduled }) w.room_queues;
          ready_rooms = rest;
          running = some m;
        })
    pop-IsScheduled task tasks scheduled e = record {
      once = rest-once;
      unique = assign-UniqueKeys m _ w.room_queues v.unique;
      marked =
          λ k. ground (arith, v.marked k, v.marked m, e, lookup-assign m k taken w.room_queues);
      placed = λ k. ground (
        arith,
        v.placed k,
        member_of k,
        idle_at k,
        not_again,
        lookup-assign m k taken w.room_queues,
      );
      waiting = λ k h.
          ground
            (arith, h, v.waiting k, member_of k, not_again, lookup-assign m k taken w.room_queues);
    }
      where
        taken : RoomQueue Task
        taken = record { tasks = tasks; scheduled = scheduled }

    pop-Worked :
        (task : Task) (tasks : List Task) (scheduled : Bool)
        → lookup m w.room_queues ≡ some (record { tasks = task ∷ tasks; scheduled = scheduled })
        → Worked w
            (record w {
              room_queues =
                  assign m (record { tasks = tasks; scheduled = scheduled }) w.room_queues;
              ready_rooms = rest;
              running = some m;
            })
            ((m, task) ∷ [])
    pop-Worked task tasks scheduled e = record {
      kept = pop-IsScheduled task tasks scheduled e;
      order = λ k. ground (arith, e, lookup-assign m k taken w.room_queues);
      progress = ground (arith, e, idle, backlog-assign m taken w.room_queues);
      same_stop = refl;
    }
      where
        taken : RoomQueue Task
        taken = record { tasks = tasks; scheduled = scheduled }

    pub take_from_sound :
        (o : Option (RoomQueue Task))
        → lookup m w.room_queues ≡ o
        → has_task o ≡ true
        → (w' : Worker Task) × (task : Task) × (take_from m rest o w ≡ takes w' m task)
          × Worked w w' ((m, task) ∷ [])
    take_from_sound none e h = absurd (ground arith)
    take_from_sound (some q) e h = go q.tasks refl
      where
        go :
            (tasks : List Task)
            → q.tasks ≡ tasks
            → (w' : Worker Task) × (task : Task) × (pop m rest tasks q.scheduled w
                ≡ takes w' m task)
              × Worked w w' ((m, task) ∷ [])
        go [] f = absurd (ground arith)
        go (task ∷ tasks) f = (
          _,
          task,
          refl,
          pop-Worked task tasks q.scheduled
              (e ∙ ap (λ l. some (record { tasks = l; scheduled = q.scheduled })) f),
        )

  pub release_sound :
      (m : ℕ) (o : Option (RoomQueue Task)) (w : Worker Task)
      → lookup m w.room_queues ≡ o
      → has_entry o ≡ true
      → w.running ≡ some m
      → IsScheduled w
      → (w' : Worker Task) × (release m o w ≡ some w') × Worked w w' []
  unfolding contains
  release_sound m none w e h r v = absurd (ground arith)
  release_sound m (some q) w e h r v = go (is_empty q.tasks) refl
    where
      go :
          (b : Bool)
          → is_empty q.tasks ≡ b
          → (w' : Worker Task) × ((if b
                then some (record w { room_queues = erase m w.room_queues; running = none })
                else some (record w { ready_rooms = w.ready_rooms ++ m ∷ []; running = none }))
              ≡ some w')
            × Worked w w' []
      go true t = (
        record w { room_queues = erase m w.room_queues; running = none },
        refl,
        record {
          kept = record {
            once = v.once;
            unique = erase-UniqueKeys m w.room_queues v.unique;
            marked = λ k. ground (arith, v.marked k, lookup-erase m k w.room_queues);
            placed =
                λ k. ground (arith, v.placed k, v.waiting m, r, lookup-erase m k w.room_queues);
            waiting = λ k h.
                ground
                  (arith, h, v.waiting k, v.waiting m, r, t, e, lookup-erase m k w.room_queues);
          };
          order = λ k. ground (arith, e, is_empty-nil q.tasks t, lookup-erase m k w.room_queues);
          progress = ground (
            arith,
            r,
            backlog-erase m w.room_queues v.unique (ap (λ o. is_empty (tasks_of o)) e ∙ t),
          );
          same_stop = refl;
        },
      )
      go false t = (
        record w { ready_rooms = w.ready_rooms ++ m ∷ []; running = none },
        refl,
        record {
          kept = record {
            once = ground (arith, v.once, v.waiting m, r, Distinct-append w.ready_rooms m);
            unique = v.unique;
            marked = v.marked;
            placed = λ k. ground (arith, v.placed k, r, contains-append w.ready_rooms (m ∷ []) k);
            waiting = λ k h.
                ground (arith, h, v.waiting k, r, t, e, contains-append w.ready_rooms (m ∷ []) k);
          };
          order = λ k. refl;
          progress = ground (arith, r);
          same_stop = refl;
        },
      )

  pub stop-IsScheduled : (w : Worker Task) → IsScheduled w → IsScheduled (stop w)
  unfolding stop
  stop-IsScheduled w v = record {
    once = v.once;
    unique = v.unique;
    marked = v.marked;
    placed = v.placed;
    waiting = v.waiting;
  }
