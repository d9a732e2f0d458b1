-- ===== src/Realtime/SerialQueue/Drain.antt =====
-- No accepted command stays behind: the queue always has a next step until nothing is pending.
use sync_rtc.Prelude.{
  ℕ, suc, zero, ◌+◌, ◌-◌, ◌*◌, ◌^◌, ◌<◌, ◌≤◌, ◌≡◌, refl, ap, sym, subst, inl, inr, true, false,
  Option, none, some, List, [], ◌∷◌, ◌++◌, arith, length, Bool-cases, if◌then◌else◌,
}
use sync_rtc.Realtime.SerialQueue.{
  Entry, Handler, arrives, goes_on, completes, Operation, SerialCommandQueue, Event, runs, resumes,
  returns, releases, pump, handle, run_strand, run_front, resume, return, release_next, step, steps,
  busy, new_queue,
}
use sync_rtc.Realtime.SerialQueue.Counts.{weigh, weigh-append, one, arrival}
use sync_rtc.Realtime.SerialQueue.Accounting.{IsCounted, step-IsCounted}
use sync_rtc.Realtime.SerialQueue.Phases.{IsServing, step-IsServing, completes_awaited}
use sync_rtc.Realtime.SerialQueue.Refinement.{new_scheduler, new_queue_sound, steps_sound}

module _ {ℓ} {Command : Type ℓ} where
  -- the steps that a handler, the coroutine and a resume function still take at most
  abbrev pub handler_load : Handler Command → ℕ
  handler_load (arrives e) = 4
  handler_load (goes_on b) = 1
  handler_load (completes id phase) = 1

  abbrev pub operation_load : Option (Operation Command) → ℕ
  operation_load none = 0
  operation_load (some o) = 2

  abbrev pub load : SerialCommandQueue Command → ℕ
  load q =
      weigh handler_load q.strand
      + (3 * weigh one q.commands + (operation_load q.operation + 2 * weigh one q.resumable))

  -- The coroutine returns, else the strand runs, else a resume function is called.
  abbrev pub after_strand : List (ℕ × ℕ) → Event Command
  after_strand [] = releases
  after_strand ((id, phase) ∷ rs) = resumes id phase

  abbrev pub by_strand : List (Handler Command) → List (ℕ × ℕ) → Event Command
  by_strand [] rs = after_strand rs
  by_strand (h ∷ hs) rs = runs

  abbrev pub next_event : SerialCommandQueue Command → Event Command
  next_event q = if busy q.operation then returns else by_strand q.strand q.resumable

  load-pump : (q : SerialCommandQueue Command) → load (pump q).0 ≤ load q
  unfolding pump
  load-pump q = go q.commands refl
    where
      go : (l : List (Entry Command)) → q.commands ≡ l → load (pump q).0 ≤ load q
      go l e = ground (arith, e)

  load-handle :
      (n : ℕ) (h : Handler Command) (q : SerialCommandQueue Command)
      → IsServing (suc n) (record q { strand = h ∷ q.strand })
      → load (handle h q).0 < load (record q { strand = h ∷ q.strand })
  unfolding handle
  load-handle n (arrives e) q v = omega (
    arith,
    load-pump (record q { commands = q.commands ++ e ∷ [] }),
    weigh-append (one {A = Entry Command}) q.commands (e ∷ []),
  )
  load-handle n (goes_on b) q v = omega (arith, load-pump q)
  load-handle n (completes id phase) q v =
      let (w, p, o, e, s) = completes_awaited n id phase q v in
      omega (arith, ap load e, ap operation_load o)

  -- With nothing to run and nothing to resume, nothing is left.
  at_rest :
      (n : ℕ) (q : SerialCommandQueue Command)
      → IsServing (suc n) q
      → q.strand ≡ []
      → q.resumable ≡ []
      → busy q.operation ≡ false
      → load q ≡ 0
  at_rest n q v s r b = go q.operation q.commands refl refl
    where
      go :
          (o : Option (Operation Command)) (l : List (Entry Command))
          → q.operation ≡ o
          → q.commands ≡ l
          → load q ≡ 0
      go none [] e c = ground (arith, e, c, s, r)
      go none (x ∷ l) e c = absurd (ground (arith, e, c, s, v.awake))
      go (some o) l e c = absurd (ground (arith, e, s, r, b, v.resumed_once))

  load-step :
      (n : ℕ) (q : SerialCommandQueue Command)
      → IsServing (suc n) q
      → load (step (next_event q) q).0 ≤ load q - 1
  unfolding step run_strand return resume release_next
  load-step n q v = elim (Bool-cases (busy q.operation)) [
    | inl b ↦ rw b (returning q.operation refl b)
    | inr b ↦ rw b (handling q.strand q.resumable refl refl b)
  ]
    where
      returning :
          (o : Option (Operation Command))
          → q.operation ≡ o
          → busy q.operation ≡ true
          → load (return o q).0 ≤ load q - 1
      returning none e b = cc
      returning (some o) e b =
          ground (arith, e, b, weigh-append handler_load q.strand (goes_on o.entry.bytes ∷ []))

      resting : load q ≡ 0 → (l : List ℕ) → load (release_next l q) ≤ load q - 1
      resting e [] = omega arith
      resting e (b ∷ bs) = omega arith

      handling :
          (hs : List (Handler Command)) (rs : List (ℕ × ℕ))
          → q.strand ≡ hs
          → q.resumable ≡ rs
          → busy q.operation ≡ false
          → load (step (by_strand hs rs) q).0 ≤ load q - 1
      handling (h ∷ hs) rs s r b = rw b (
          subst (λ (l : List (Handler Command)). load (run_front l q).0 ≤ load q - 1) (sym s)
            (omega (
              arith,
              load-handle n h (record q { strand = hs }) (ground (arith, s)),
              ap (weigh handler_load) s,
            )))
      handling [] ((id, phase) ∷ rs) s r b =
          ground (arith, s, r, weigh-append handler_load q.strand (completes id phase ∷ []))
      handling [] [] s r b = resting (at_rest n q v s r b) q.unreleased

  -- The queue when its coroutines return, its handlers run and its resume functions are called.
  unfoldable pub drain : ℕ → SerialCommandQueue Command → SerialCommandQueue Command
  drain zero q = q
  drain (suc n) q = drain n (step (next_event q) q).0

  load_none : (m : ℕ) (q : SerialCommandQueue Command) → IsCounted m q → load q ≡ 0 → q.pending ≡ 0
  load_none m q c e = go q.operation q.commands refl refl
    where
      arrived : (hs : List (Handler Command)) → weigh arrival hs ≤ weigh handler_load hs
      arrived [] = omega arith
      arrived (arrives x ∷ hs) = omega (arith, arrived hs)
      arrived (goes_on b ∷ hs) = omega (arith, arrived hs)
      arrived (completes id phase ∷ hs) = omega (arith, arrived hs)

      go :
          (o : Option (Operation Command)) (l : List (Entry Command))
          → q.operation ≡ o
          → q.commands ≡ l
          → q.pending ≡ 0
      go none [] o l = ground (arith, o, l, c.pending, arrived q.strand)
      go none (x ∷ xs) o l = absurd (ground (arith, l))
      go (some x) l o _ = absurd (ground (arith, o))

  drain_sound :
      (n : ℕ) (q : SerialCommandQueue Command)
      → IsServing n q
      → IsCounted n q
      → load q ≤ n
      → (drain n q).pending ≡ 0
  unfolding drain
  drain_sound zero q v c h = load_none zero q c (omega arith)
  drain_sound (suc n) q v c h =
      drain_sound n (step (next_event q) q).0 (step-IsServing n (next_event q) q v)
        (step-IsCounted n (next_event q) q v.active c) (omega (arith, load-step n q v))

  -- From every state that a new queue reaches, with as many further steps as its load counts, in
  -- which coroutines return, handlers run and resume functions are called, m_pending falls to 0: no
  -- accepted command, no end of an operation and no completion is forgotten.
  pub drain-pending :
      (es : List (Event Command)) (limit capacity n : ℕ)
      → length es + n < 2 ^ 64
      → load (steps es (new_queue (new_scheduler limit) capacity)).0 ≤ n
      → (drain n (steps es (new_queue (new_scheduler limit) capacity)).0).pending ≡ 0
  drain-pending es limit capacity n small h =
      let (v, c) = new_queue_sound (length es + n) limit capacity small in
      let (w, d, _) = steps_sound n es (new_queue (new_scheduler limit) capacity) v c in
      drain_sound n (steps es (new_queue (new_scheduler limit) capacity)).0 w d h
