-- ===== src/Realtime/SerialQueue/Service.antt =====
-- What a queue promises: it runs the commands that it accepts one at a time, in their order.
use sync_rtc.Prelude.{
  ℕ, suc, ◌≡◌, refl, sym, ap, ◌∙◌, subst, Option, none, some, List, [], ◌∷◌, ◌++◌, arith, ◌==◌,
  Bool-cases, inl, inr, append-nil, append_assoc,
}
use sync_rtc.Realtime.SerialQueue.{
  Entry, Handler, arrives, goes_on, completes, Operation, SerialCommandQueue, Event, submits, runs,
  waits, resumes, returns, releases, reserves_elsewhere, releases_elsewhere, submit, reserve, pump,
  handle, run_strand, run_front, wait, resume, return, release_next, released_elsewhere, step, busy,
  idle, Happening, accepts, refuses, starts, ends, idles, faults, continues,
}
use sync_rtc.Realtime.SerialQueue.Counts.{weigh, arrival, arrivals, arrivals-append, backlog}
use sync_rtc.Realtime.SerialQueue.Accounting.{Active, IsCounted}
use sync_rtc.Realtime.SerialQueue.Phases.{IsServing, completes_awaited}

-- The abstract queue: the command that runs, and those that wait.
pub record Service {ℓ} (Command : Type ℓ) : Type ℓ where
  pub running : Option (Entry Command)
  pub waiting : List (Entry Command)

module _ {ℓ} {Command : Type ℓ} where
  -- What a happening is for the abstract queue. It idles with nothing left, and never faults.
  abbrev pub Serves : Service Command → Happening Command → Service Command → Type ℓ
  Serves s (accepts e) t = (t.running ≡ s.running) × (t.waiting ≡ s.waiting ++ e ∷ [])
  Serves s (refuses e) t = t ≡ s
  Serves s (starts e) t = (s.running ≡ none) × (s.waiting ≡ e ∷ t.waiting) × (t.running ≡ some e)
  Serves s (ends e) t = (s.running ≡ some e) × (t.running ≡ none) × (t.waiting ≡ s.waiting)
  Serves s continues t = (t ≡ s) × ((e : Entry Command) × (s.running ≡ some e))
  Serves s idles t = (t ≡ s) × (s.running ≡ none) × (s.waiting ≡ [])
  Serves s faults t = (t ≡ s) × ⊥

  abbrev pub Follows : Service Command → List (Happening Command) → Service Command → Type ℓ
  Follows s [] t = t ≡ s
  Follows s (h ∷ hs) t = (m : Service Command) × Serves s h m × Follows m hs t

  abbrev pub entry_of : Option (Operation Command) → Option (Entry Command)
  entry_of none = none
  entry_of (some o) = some o.entry

  abbrev pub view : SerialCommandQueue Command → Service Command
  view q = record { running = entry_of q.operation; waiting = backlog q }

  pub Follows-append :
      (hs ks : List (Happening Command)) (s t u : Service Command)
      → Follows s hs t
      → Follows t ks u
      → Follows s (hs ++ ks) u
  Follows-append [] ks s t u e g = subst (λ r. Follows r ks u) e g
  Follows-append (h ∷ hs) ks s t u (m, f, g) k = (m, f, Follows-append hs ks m t u g k)

  Follows-one :
      {hs : List (Happening Command)} (s t : Service Command) (h : Happening Command)
      → hs ≡ h ∷ []
      → Serves s h t
      → Follows s hs t
  Follows-one {hs} s t h e f = subst (λ r. Follows s r t) (sym e) (t, f, refl)

  Follows-none :
      {hs : List (Happening Command)} (s t : Service Command) → hs ≡ [] → t ≡ s → Follows s hs t
  Follows-none {hs} s t e f = subst (λ r. Follows s r t) (sym e) f

  pump-Follows :
      (q : SerialCommandQueue Command)
      → Active q.operation q.active_op q.phase
      → Follows (view q) (pump q).1 (view (pump q).0)
  unfolding pump
  pump-Follows q a = go q.operation q.commands refl refl
    where
      go :
          (o : Option (Operation Command)) (l : List (Entry Command))
          → q.operation ≡ o
          → q.commands ≡ l
          → Follows (view q) (pump q).1 (view (pump q).0)
      go none [] e c = Follows-none _ _ (ground (arith, e, c)) (ground (arith, e, c))
      go none (x ∷ l) e c = Follows-one _ _ (starts x) (ground (arith, e, c)) (ground (arith, e, c))
      go (some o) l e c = Follows-none _ _ (ground (arith, e)) (ground (arith, e))

  no_arrivals : (hs : List (Handler Command)) → weigh arrival hs ≡ 0 → arrivals hs ≡ []
  no_arrivals [] e = refl
  no_arrivals (arrives x ∷ hs) e = absurd (omega arith)
  no_arrivals (goes_on b ∷ hs) e = no_arrivals hs (omega arith)
  no_arrivals (completes id phase ∷ hs) e = no_arrivals hs (omega arith)

  -- With nothing pending, nothing runs or waits.
  pub pending_none :
      (n : ℕ) (q : SerialCommandQueue Command)
      → IsCounted n q
      → q.pending ≡ 0
      → (q.operation ≡ none) × (q.commands ≡ []) × (arrivals q.strand ≡ [])
  pending_none n q v e =
      (o q.operation refl, c q.commands refl, no_arrivals q.strand (omega (arith, v.pending)))
    where
      o : (o : Option (Operation Command)) → q.operation ≡ o → o ≡ none
      o none h = refl
      o (some x) h = absurd (ground (arith, h, v.pending))

      c : (l : List (Entry Command)) → q.commands ≡ l → l ≡ []
      c [] h = refl
      c (x ∷ l) h = absurd (ground (arith, h, v.pending))

  idle-Follows :
      (n : ℕ) (q : SerialCommandQueue Command) → IsCounted n q → Follows (view q) (idle q) (view q)
  idle-Follows n q v = elim (Bool-cases (q.pending == 0)) [
    | inl e ↦
        let (o, c, a) = pending_none n q v (ground arith) in
        Follows-one _ _ idles (rw e) (ground (arith, o, c, a))
    | inr e ↦ Follows-none _ _ (rw e) refl
  ]

  handle-Follows :
      (n : ℕ) (h : Handler Command) (q : SerialCommandQueue Command)
      → IsServing (suc n) (record q { strand = h ∷ q.strand })
      → IsCounted n (record q { strand = h ∷ q.strand })
      → Follows (view (record q { strand = h ∷ q.strand })) (handle h q).1 (view (handle h q).0)
  unfolding handle
  handle-Follows n (arrives e) q v c =
      subst
        (λ (l : List (Entry Command)).
          Follows (record { running = entry_of q.operation; waiting = l })
            (pump (record q { commands = q.commands ++ e ∷ [] })).1
            (view (pump (record q { commands = q.commands ++ e ∷ [] })).0))
        (append_assoc q.commands (e ∷ []) (arrivals q.strand))
        (pump-Follows (record q { commands = q.commands ++ e ∷ [] }) v.active)
  handle-Follows n (goes_on b) q v c =
      Follows-append (idle q) (pump q).1 (view q) (view q) (view (pump q).0)
        (idle-Follows n (record q { strand = goes_on b ∷ q.strand }) c) (pump-Follows q v.active)
  handle-Follows n (completes id phase) q v c =
      let (w, p, o, e, s) = completes_awaited n id phase q v in
      Follows-one _ _ continues s (ap view e ∙ ground (arith, o), (p.entry, ap entry_of o))

  run_strand-Follows :
      (n : ℕ) (q : SerialCommandQueue Command)
      → IsServing (suc n) q
      → IsCounted n q
      → Follows (view q) (run_strand q).1 (view (run_strand q).0)
  unfolding run_strand
  run_strand-Follows n q v c = elim (Bool-cases (busy q.operation)) [
    | inl b ↦ rw b refl
    | inr b ↦ rw b (go q.strand refl)
  ]
    where
      go :
          (l : List (Handler Command))
          → q.strand ≡ l
          → Follows (view q) (run_front l q).1 (view (run_front l q).0)
      go [] e = refl
      go (h ∷ hs) e =
          subst
            (λ (l : List (Handler Command)).
              Follows (view (record q { strand = l })) (handle h (record q { strand = hs })).1
                (view (handle h (record q { strand = hs })).0))
            (sym e)
            (handle-Follows n h (record q { strand = hs }) (ground (arith, e)) (ground (arith, e)))

  return-Follows :
      (q : SerialCommandQueue Command)
      → Follows (view q) (return q.operation q).1 (view (return q.operation q).0)
  unfolding return
  return-Follows q = go q.operation refl
    where
      go :
          (o : Option (Operation Command))
          → q.operation ≡ o
          → Follows (view q) (return o q).1 (view (return o q).0)
      go none e = refl
      go (some o) e = elim (Bool-cases o.executing) [
        | inl x ↦ Follows-one _ _ (ends o.entry) (rw x) (
            ground (
              arith,
              x,
              e,
              arrivals-append q.strand (goes_on o.entry.bytes ∷ []),
              append-nil (arrivals q.strand),
            ))
        | inr x ↦ Follows-none _ _ (rw x) (rw x)
      ]

  submit-Follows :
      (e : Entry Command) (q : SerialCommandQueue Command)
      → Follows (view q) (submit e q).1 (view (submit e q).0)
  unfolding submit reserve
  submit-Follows e q = ground (
    arith,
    arrivals-append q.strand (arrives e ∷ []),
    append_assoc q.commands (arrivals q.strand) (e ∷ []),
  )

  -- What an observer does not see leaves the abstract queue as it is.
  unseen :
      (q : SerialCommandQueue Command)
      → (view (wait q.operation q) ≡ view q)
        × (view (release_next q.unreleased q) ≡ view q)
        × (view (released_elsewhere q.elsewhere q) ≡ view q)
  unfolding wait release_next
  unseen q = (waiting q.operation refl, own q.unreleased, other q.elsewhere)
    where
      waiting : (o : Option (Operation Command)) → q.operation ≡ o → view (wait o q) ≡ view q
      waiting none e = refl
      waiting (some o) e = ground (arith, e)

      own : (l : List ℕ) → view (release_next l q) ≡ view q
      own [] = refl
      own (b ∷ bs) = refl

      other : (l : List ℕ) → view (released_elsewhere l q) ≡ view q
      other [] = refl
      other (b ∷ bs) = refl

  resume_unseen :
      (id phase : ℕ) (q : SerialCommandQueue Command) → view (resume id phase q) ≡ view q
  unfolding resume
  resume_unseen id phase q =
      ground
        (arith, arrivals-append q.strand (completes id phase ∷ []), append-nil (arrivals q.strand))

  pub step-Follows :
      (n : ℕ) (e : Event Command) (q : SerialCommandQueue Command)
      → IsServing (suc n) q
      → IsCounted (suc n) q
      → Follows (view q) (step e q).1 (view (step e q).0)
  unfolding step reserve
  step-Follows n (submits e) q v c = submit-Follows e q
  step-Follows n runs q v c = run_strand-Follows n q v (omega arith)
  step-Follows n waits q v c = (unseen q).0
  step-Follows n (resumes id phase) q v c = resume_unseen id phase q
  step-Follows n returns q v c = return-Follows q
  step-Follows n releases q v c = (unseen q).1
  step-Follows n (reserves_elsewhere terminal b) q v c = ground arith
  step-Follows n releases_elsewhere q v c = (unseen q).2
