-- ===== src/Realtime/SerialQueue/Accounting.antt =====
-- The counters of a queue and of the scheduler against the entries that stand for them.
use sync_rtc.Prelude.{
  ℕ, suc, ◌+◌, ◌^◌, ◌<◌, ◌≤◌, ◌≡◌, refl, Option, none, some, List, [], ◌∷◌, ◌++◌, arith, subst,
  Bool-cases, inl, inr,
}
use sync_rtc.Realtime.SerialQueue.{
  scheduler_bytes, queue_bytes, reserve, release, Entry, Handler, arrives, goes_on, completes,
  Operation, SerialCommandQueue, Event, submits, runs, waits, resumes, returns, releases,
  reserves_elsewhere, releases_elsewhere, submit, pump, handle, run_strand, wait, resume, return,
  release_next, step, run_front, busy, released_elsewhere,
}
use sync_rtc.Realtime.SerialQueue.Counts.{
  weigh, weigh-append, one, itself, size, arrival, arrival_size, ending, ending_size, current,
}

module _ {ℓ} {Command : Type ℓ} where
  -- With n further steps no counter can wrap around.
  pub record IsCounted (n : ℕ) (q : SerialCommandQueue Command) : Type ℓ where
    pub pending :
        q.pending
        ≡ weigh one (current q.operation) + (weigh one q.commands + weigh arrival q.strand)
    pub bytes :
        q.bytes
        ≡ weigh size (current q.operation) + (weigh size q.commands + weigh arrival_size q.strand)
    pub bytes_within : q.bytes ≤ queue_bytes
    pub shared :
        q.scheduler.pending
        ≡ q.pending + (weigh ending q.strand + (weigh one q.unreleased + weigh one q.elsewhere))
    pub shared_bytes :
        q.scheduler.bytes
        ≡ q.bytes
          + (weigh ending_size q.strand + (weigh itself q.unreleased + weigh itself q.elsewhere))
    pub shared_within : q.scheduler.bytes ≤ scheduler_bytes
    pub room : q.scheduler.pending + n < 2 ^ 64

  -- The coroutine is that of the active operation, in the phase that the queue knows.
  abbrev pub Active : Option (Operation Command) → ℕ → ℕ → Type 0
  Active none id phase = id ≡ 0
  Active (some o) id phase = (id ≡ o.id) × (0 < o.id) × (phase ≡ o.phase)

  submit-IsCounted :
      (n : ℕ) (e : Entry Command) (q : SerialCommandQueue Command)
      → IsCounted (suc n) q
      → IsCounted n (submit e q).0
  unfolding submit reserve
  submit-IsCounted n e q v = ground (
    arith,
    weigh-append arrival q.strand (arrives e ∷ []),
    weigh-append arrival_size q.strand (arrives e ∷ []),
    weigh-append ending q.strand (arrives e ∷ []),
    weigh-append ending_size q.strand (arrives e ∷ []),
  )

  pump-IsCounted :
      (n : ℕ) (q : SerialCommandQueue Command)
      → Active q.operation q.active_op q.phase
      → IsCounted n q
      → IsCounted n (pump q).0
  unfolding pump
  pump-IsCounted n q a v = go q.operation q.commands refl refl
    where
      go :
          (o : Option (Operation Command)) (l : List (Entry Command))
          → q.operation ≡ o
          → q.commands ≡ l
          → IsCounted n (pump q).0
      go none l e c = ground (arith, e, c)
      go (some o) l e c = ground (arith, e)

  -- What is due for release plays no part in Pump.
  pump_unreleased :
      (b : ℕ) (q : SerialCommandQueue Command)
      → (pump (record q { unreleased = b ∷ q.unreleased })).0
        ≡ record (pump q).0 { unreleased = b ∷ (pump q).0.unreleased }
  unfolding pump
  pump_unreleased b q = go q.commands refl
    where
      go :
          (l : List (Entry Command))
          → q.commands ≡ l
          → (pump (record q { unreleased = b ∷ q.unreleased })).0
            ≡ record (pump q).0 { unreleased = b ∷ (pump q).0.unreleased }
      go l e = ground (arith, e)

  handle-IsCounted :
      (n : ℕ) (h : Handler Command) (q : SerialCommandQueue Command)
      → Active q.operation q.active_op q.phase
      → IsCounted n (record q { strand = h ∷ q.strand })
      → IsCounted n (handle h q).0
  unfolding handle
  handle-IsCounted n (arrives e) q a v =
      pump-IsCounted n (record q { commands = q.commands ++ e ∷ [] }) a
        (ground
          (arith, weigh-append one q.commands (e ∷ []), weigh-append size q.commands (e ∷ [])))
  handle-IsCounted n (goes_on b) q a v =
      subst (IsCounted n) (pump_unreleased b q)
        (pump-IsCounted n (record q { unreleased = b ∷ q.unreleased }) a (ground arith))
  handle-IsCounted n (completes id phase) q a v = ground (arith)

  run_strand-IsCounted :
      (n : ℕ) (q : SerialCommandQueue Command)
      → Active q.operation q.active_op q.phase
      → IsCounted n q
      → IsCounted n (run_strand q).0
  unfolding run_strand
  run_strand-IsCounted n q a v = elim (Bool-cases (busy q.operation)) [
    | inl b ↦ rw b v
    | inr b ↦ rw b (go q.strand refl)
  ]
    where
      go : (l : List (Handler Command)) → q.strand ≡ l → IsCounted n (run_front l q).0
      go [] e = v
      go (h ∷ hs) e = handle-IsCounted n h (record q { strand = hs }) a (ground (arith, e))

  resume-IsCounted :
      (n id phase : ℕ) (q : SerialCommandQueue Command)
      → IsCounted n q
      → IsCounted n (resume id phase q)
  unfolding resume
  resume-IsCounted n id phase q v = ground (
    arith,
    weigh-append arrival q.strand (completes id phase ∷ []),
    weigh-append arrival_size q.strand (completes id phase ∷ []),
    weigh-append ending q.strand (completes id phase ∷ []),
    weigh-append ending_size q.strand (completes id phase ∷ []),
  )

  wait-IsCounted :
      (n : ℕ) (q : SerialCommandQueue Command) → IsCounted n q → IsCounted n (wait q.operation q)
  unfolding wait
  wait-IsCounted n q v = go q.operation refl
    where
      go : (o : Option (Operation Command)) → q.operation ≡ o → IsCounted n (wait o q)
      go none e = v
      go (some o) e = ground (arith, e)

  return-IsCounted :
      (n : ℕ) (q : SerialCommandQueue Command)
      → IsCounted n q
      → IsCounted n (return q.operation q).0
  unfolding return
  return-IsCounted n q v = go q.operation refl
    where
      go : (o : Option (Operation Command)) → q.operation ≡ o → IsCounted n (return o q).0
      go none e = v
      go (some o) e = ground (
        arith,
        e,
        weigh-append arrival q.strand (goes_on o.entry.bytes ∷ []),
        weigh-append arrival_size q.strand (goes_on o.entry.bytes ∷ []),
        weigh-append ending q.strand (goes_on o.entry.bytes ∷ []),
        weigh-append ending_size q.strand (goes_on o.entry.bytes ∷ []),
      )

  release_next-IsCounted :
      (n : ℕ) (q : SerialCommandQueue Command)
      → IsCounted n q
      → IsCounted n (release_next q.unreleased q)
  unfolding release_next release
  release_next-IsCounted n q v = go q.unreleased refl
    where
      go : (l : List ℕ) → q.unreleased ≡ l → IsCounted n (release_next l q)
      go [] e = v
      go (b ∷ bs) e = ground (arith, e)

  pub step-IsCounted :
      (n : ℕ) (e : Event Command) (q : SerialCommandQueue Command)
      → Active q.operation q.active_op q.phase
      → IsCounted (suc n) q
      → IsCounted n (step e q).0
  unfolding step reserve release
  step-IsCounted n (submits e) q a v = submit-IsCounted n e q v
  step-IsCounted n runs q a v = run_strand-IsCounted n q a (omega arith)
  step-IsCounted n waits q a v = wait-IsCounted n q (omega arith)
  step-IsCounted n (resumes id phase) q a v = resume-IsCounted n id phase q (omega arith)
  step-IsCounted n returns q a v = return-IsCounted n q (omega arith)
  step-IsCounted n releases q a v = release_next-IsCounted n q (omega arith)
  step-IsCounted n (reserves_elsewhere terminal b) q a v = ground arith
  step-IsCounted n releases_elsewhere q a v = go q.elsewhere refl
    where
      go : (l : List ℕ) → q.elsewhere ≡ l → IsCounted n (released_elsewhere l q)
      go [] e = omega arith
      go (b ∷ bs) e = ground (arith, e)
