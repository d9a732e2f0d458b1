-- ===== src/Realtime/SerialQueue/Phases.antt =====
-- The coroutine of a queue, its phases, and the resume functions of Operation::Wait.
use sync_rtc.Prelude.{
  ℕ, suc, ◌+◌, ◌^◌, ◌<◌, ◌≡◌, refl, Bool, true, false, Option, none, some, List, [], ◌∷◌, ◌++◌,
  arith, if◌then◌else◌, Bool-cases, inl, inr, append-nil,
}
use sync_rtc.Realtime.SerialQueue.{
  Entry, Handler, arrives, goes_on, completes, Operation, SerialCommandQueue, Event, submits, runs,
  waits, resumes, returns, releases, reserves_elsewhere, releases_elsewhere, submit, reserve, pump,
  handle, run_strand, run_front, wait, resume, return, release_next, released_elsewhere, step, busy,
  has_pair, without_pair, continues,
}
use sync_rtc.Realtime.SerialQueue.Counts.{
  weigh, weigh-append, ending, completions, completions-append,
}
use sync_rtc.Realtime.SerialQueue.Accounting.{Active}

-- The only list with these elements in two parts.
split_none {ℓ} : {A : Type ℓ} (xs ys : List A) → xs ++ ys ≡ [] → (xs ≡ []) × (ys ≡ [])
split_none [] ys e = (refl, e)
split_none (x ∷ xs) ys e = cc

module _ {ℓ} {Command : Type ℓ} where
  -- the resume function that a suspended coroutine waits for
  abbrev pub awaited : Option (Operation Command) → List (ℕ × ℕ)
  awaited none = []
  awaited (some o) = if o.executing then [] else (o.id, o.phase) ∷ []

  -- Commands wait only while a coroutine is there or the end of one is posted.
  abbrev pub Awake : Option (Operation Command) → List (Entry Command) → ℕ → Type 0
  Awake none [] n = Unit {0}
  Awake none (e ∷ es) n = 0 < n
  Awake (some o) es n = Unit {0}

  pub record IsServing (n : ℕ) (q : SerialCommandQueue Command) : Type ℓ where
    pub active : Active q.operation q.active_op q.phase
    pub fresh : q.next_op + n < 2 ^ 64
    -- one resume function for a suspended coroutine, at large or posted, and none besides
    pub resumed_once : q.resumable ++ completions q.strand ≡ awaited q.operation
    pub awake : Awake q.operation q.commands (weigh ending q.strand)

  -- The same but for the commands, as Pump finds them.
  pub record IsPumpable (n : ℕ) (q : SerialCommandQueue Command) : Type ℓ where
    pub active : Active q.operation q.active_op q.phase
    pub fresh : q.next_op + suc n < 2 ^ 64
    pub resumed_once : q.resumable ++ completions q.strand ≡ awaited q.operation

  pump-IsServing :
      (n : ℕ) (q : SerialCommandQueue Command) → IsPumpable n q → IsServing n (pump q).0
  unfolding pump
  pump-IsServing n q v = go q.operation q.commands refl refl
    where
      go :
          (o : Option (Operation Command)) (l : List (Entry Command))
          → q.operation ≡ o
          → q.commands ≡ l
          → IsServing n (pump q).0
      go none [] e c = ground (arith, e, c)
      go none (x ∷ l) e c = ground (arith, e, c)
      go (some o) l e c = ground (arith, e)

  -- A completion is for the coroutine that is suspended.
  pub completion_awaited :
      (id phase : ℕ) (rs cs : List (ℕ × ℕ)) (o : Option (Operation Command))
      → rs ++ (id, phase) ∷ cs ≡ awaited o
      → (p : Operation Command) × (o ≡ some p)
        × (p.id ≡ id)
        × (p.phase ≡ phase)
        × (p.executing ≡ false)
        × (rs ≡ [])
        × (cs ≡ [])
  completion_awaited id phase [] cs none e = cc
  completion_awaited id phase (r ∷ rs) cs none e = cc
  completion_awaited id phase rs cs (some o) e = go rs o.executing e refl
    where
      go :
          (rs : List (ℕ × ℕ)) (b : Bool)
          → rs ++ (id, phase) ∷ cs ≡ (if b then [] else (o.id, o.phase) ∷ [])
          → o.executing ≡ b
          → (p : Operation Command) × (some o ≡ some p)
            × (p.id ≡ id)
            × (p.phase ≡ phase)
            × (p.executing ≡ false)
            × (rs ≡ [])
            × (cs ≡ [])
      go [] true e b = cc
      go (r ∷ rs) true e b = cc
      go [] false e b = (o, refl, cc, cc, b, refl, cc)
      go (r ∷ []) false e b = cc
      go (r ∷ s ∷ rs) false e b = cc

  -- A posted completion resumes the coroutine, which is suspended in the phase of the completion.
  pub completes_awaited :
      (n id phase : ℕ) (q : SerialCommandQueue Command)
      → IsServing (suc n) (record q { strand = completes id phase ∷ q.strand })
      → IsServing n (handle (completes id phase) q).0
        × (p : Operation Command) × (q.operation ≡ some p)
        × ((handle (completes id phase) q).0
            ≡ record q { operation = some (record p { executing = true }) })
        × ((handle (completes id phase) q).1 ≡ continues ∷ [])
  unfolding handle
  completes_awaited n id phase q v =
      let (p, o, i, f, x, r, c) =
        completion_awaited id phase q.resumable (completions q.strand) q.operation v.resumed_once in
      (
        ground (arith, o, i, f, x, r, c, v.active),
        p,
        o,
        ground (arith, o, i, f, x, v.active),
        ground (arith, o, i, f, x, v.active),
      )

  handle-IsServing :
      (n : ℕ) (h : Handler Command) (q : SerialCommandQueue Command)
      → IsServing (suc n) (record q { strand = h ∷ q.strand })
      → IsServing n (handle h q).0
  unfolding handle
  handle-IsServing n (arrives e) q v =
      pump-IsServing n (record q { commands = q.commands ++ e ∷ [] }) (ground (arith))
  handle-IsServing n (goes_on b) q v = same_parts (pump q).0 (pump-IsServing n q (ground arith))
    where
      same_parts :
          (p : SerialCommandQueue Command)
          → IsServing n p
          → IsServing n (record p { unreleased = b ∷ p.unreleased })
      same_parts p w = ground arith
  handle-IsServing n (completes id phase) q v = (completes_awaited n id phase q v).0

  run_strand-IsServing :
      (n : ℕ) (q : SerialCommandQueue Command) → IsServing (suc n) q → IsServing n (run_strand q).0
  unfolding run_strand
  run_strand-IsServing n q v = elim (Bool-cases (busy q.operation)) [
    | inl b ↦ rw b (ground arith)
    | inr b ↦ rw b (go q.strand refl)
  ]
    where
      go : (l : List (Handler Command)) → q.strand ≡ l → IsServing n (run_front l q).0
      go [] e = ground arith
      go (h ∷ hs) e = handle-IsServing n h (record q { strand = hs }) (ground (arith, e))

  -- What a call of a resume function finds and leaves.
  taken_once :
      (id phase : ℕ) (rs cs : List (ℕ × ℕ)) (o : Option (Operation Command))
      → rs ++ cs ≡ awaited o
      → has_pair rs id phase ≡ true
      → without_pair rs id phase ++ (cs ++ (id, phase) ∷ []) ≡ awaited o
  taken_once id phase [] cs o e h = cc
  taken_once id phase (r ∷ rs) cs none e h = cc
  taken_once id phase (r ∷ rs) cs (some o) e h = go o.executing e
    where
      go :
          (b : Bool)
          → (r ∷ rs) ++ cs ≡ (if b then [] else (o.id, o.phase) ∷ [])
          → without_pair (r ∷ rs) id phase ++ (cs ++ (id, phase) ∷ [])
            ≡ (if b then [] else (o.id, o.phase) ∷ [])
      go true e = cc
      go false e =
          let tail : rs ++ cs ≡ [] = cc in
          let (a, b) = split_none rs cs tail in ground (arith, a, b, h)

  resume-IsServing :
      (n id phase : ℕ) (q : SerialCommandQueue Command)
      → IsServing (suc n) q
      → IsServing n (resume id phase q)
  unfolding resume
  resume-IsServing n id phase q v = ground (
    arith,
    completions-append q.strand (completes id phase ∷ []),
    weigh-append ending q.strand (completes id phase ∷ []),
    taken_once id phase q.resumable (completions q.strand) q.operation,
  )

  wait-IsServing :
      (n : ℕ) (q : SerialCommandQueue Command)
      → IsServing (suc n) q
      → IsServing n (wait q.operation q)
  unfolding wait
  wait-IsServing n q v = go q.operation refl
    where
      go : (o : Option (Operation Command)) → q.operation ≡ o → IsServing n (wait o q)
      go none e = ground arith
      go (some o) e = ground (arith, e, split_none q.resumable (completions q.strand))

  return-IsServing :
      (n : ℕ) (q : SerialCommandQueue Command)
      → IsServing (suc n) q
      → IsServing n (return q.operation q).0
  unfolding return
  return-IsServing n q v = go q.operation refl
    where
      go : (o : Option (Operation Command)) → q.operation ≡ o → IsServing n (return o q).0
      go none e = ground arith
      go (some o) e = ground (
        arith,
        e,
        completions-append q.strand (goes_on o.entry.bytes ∷ []),
        weigh-append ending q.strand (goes_on o.entry.bytes ∷ []),
        append-nil (completions q.strand),
      )

  elsewhere-IsServing :
      (n : ℕ) (q : SerialCommandQueue Command)
      → IsServing (suc n) q
      → IsServing n (released_elsewhere q.elsewhere q) × IsServing n (release_next q.unreleased q)
  unfolding release_next
  elsewhere-IsServing n q v = (other q.elsewhere, own q.unreleased)
    where
      other : (l : List ℕ) → IsServing n (released_elsewhere l q)
      other [] = ground arith
      other (b ∷ bs) = ground arith

      own : (l : List ℕ) → IsServing n (release_next l q)
      own [] = ground arith
      own (b ∷ bs) = ground arith

  pub step-IsServing :
      (n : ℕ) (e : Event Command) (q : SerialCommandQueue Command)
      → IsServing (suc n) q
      → IsServing n (step e q).0
  unfolding step submit reserve
  step-IsServing n (submits e) q v = ground (
    arith,
    completions-append q.strand (arrives e ∷ []),
    append-nil (completions q.strand),
    weigh-append ending q.strand (arrives e ∷ []),
  )
  step-IsServing n runs q v = run_strand-IsServing n q v
  step-IsServing n waits q v = wait-IsServing n q v
  step-IsServing n (resumes id phase) q v = resume-IsServing n id phase q v
  step-IsServing n returns q v = return-IsServing n q v
  step-IsServing n releases q v = (elsewhere-IsServing n q v).1
  step-IsServing n (reserves_elsewhere terminal b) q v = ground arith
  step-IsServing n releases_elsewhere q v = (elsewhere-IsServing n q v).0
