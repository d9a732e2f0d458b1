-- ===== src/Realtime/Meetings/Attachment/Sessions.antt =====
-- Lists of sessions, and the changes of one session.
use sync_rtc.Prelude.{
  ℕ, ◌≡◌, refl, ap, sym, ◌∙◌, ◌⊎◌, inl, inr, Bool, true, false, Option, none, some, List, [], ◌∷◌,
  ◌++◌, ◌==◌, if◌then◌else◌, arith, Bool-cases,
}
use sync_rtc.Prelude.Assoc.{Assoc, lookup, lookup-assign}
use sync_rtc.Prelude.Distinct.{contains, Distinct, contains-append, Distinct-append}
use sync_rtc.Realtime.Meetings.{Connection, change, keep_sessions, taken_by}

-- A session that the room sends to is in the meeting of the room, or asked to close.
pub record Attached (id : ℕ) (cs : Assoc Connection) (ss : List ℕ) : Type 0 where
  pub distinct : Distinct ss
  pub belongs :
      (x : ℕ) (c : Connection)
      → contains ss x ≡ true
      → lookup x cs ≡ some c
      → (c.meeting_id ≡ id) ⊎ (c.close_requested ≡ true)

abbrev pub changed : (Connection → Connection) → Option Connection → Option Connection
changed f none = none
changed f (some c) = some (f c)

pub lookup-change :
    (f : Connection → Connection) (s x : ℕ) (cs : Assoc Connection)
    → lookup x (change f s (lookup s cs) cs)
      ≡ (if s == x then changed f (lookup x cs) else lookup x cs)
lookup-change f s x cs = go (lookup s cs) refl
  where
    go :
        (o : Option Connection)
        → lookup s cs ≡ o
        → lookup x (change f s o cs) ≡ (if s == x then changed f (lookup x cs) else lookup x cs)
    go none e = ground (arith, e, ap (λ (k : ℕ). lookup k cs))
    go (some c) e = ground (arith, e, lookup-assign s x (f c) cs)

pub keep_subset :
    (p : ℕ → Connection → Bool) (cs : Assoc Connection) (ss : List ℕ) (x : ℕ)
    → contains (keep_sessions p cs ss) x ≡ true
    → contains ss x ≡ true
unfolding keep_sessions contains
keep_subset p cs [] x h = h
keep_subset p cs (s ∷ ss) x h = ground (
  arith,
  contains-append (taken_by (p s) (lookup s cs) s) (keep_sessions p cs ss) x,
  keep_subset p cs ss x,
)

pub keep_test :
    (p : ℕ → Connection → Bool) (cs : Assoc Connection) (ss : List ℕ) (x : ℕ) (c : Connection)
    → contains (keep_sessions p cs ss) x ≡ true
    → lookup x cs ≡ some c
    → p x c ≡ true
unfolding keep_sessions contains
keep_test p cs [] x c h e = absurd (ground arith)
keep_test p cs (s ∷ ss) x c h e = ground (
  arith,
  contains-append (taken_by (p s) (lookup s cs) s) (keep_sessions p cs ss) x,
  keep_test p cs ss x c,
)

pub keep-Distinct :
    (p : ℕ → Connection → Bool) (cs : Assoc Connection) (ss : List ℕ)
    → Distinct ss
    → Distinct (keep_sessions p cs ss)
unfolding keep_sessions contains
keep-Distinct p cs [] d = tt
keep-Distinct p cs (s ∷ ss) d = go (lookup s cs) (keep-Distinct p cs ss d.1)
  where
    missing : contains (keep_sessions p cs ss) s ≡ false
    missing = ground (arith, keep_subset p cs ss s, d.0)

    go :
        (o : Option Connection)
        → Distinct (keep_sessions p cs ss)
        → Distinct (taken_by (p s) o s ++ keep_sessions p cs ss)
    go none rest = rest
    go (some c) rest = ground (arith, missing)

pub keep-Attached :
    (p : ℕ → Connection → Bool) (ds : Assoc Connection) (id : ℕ) (cs : Assoc Connection)
    (ss : List ℕ)
    → Attached id cs ss
    → Attached id cs (keep_sessions p ds ss)
keep-Attached p ds id cs ss v = record {
  distinct = keep-Distinct p ds ss v.distinct;
  belongs = λ x c h e. v.belongs x c (keep_subset p ds ss x h) e;
}

-- A session that fails the test is not kept.
pub keep_out :
    (p : ℕ → Connection → Bool) (cs : Assoc Connection) (ss : List ℕ) (x : ℕ)
    → ((c : Connection) → p x c ≡ false)
    → contains (keep_sessions p cs ss) x ≡ false
unfolding keep_sessions contains
keep_out p cs [] x h = refl
keep_out p cs (s ∷ ss) x h = go (lookup s cs) (keep_out p cs ss x h)
  where
    go :
        (o : Option Connection)
        → contains (keep_sessions p cs ss) x ≡ false
        → contains (taken_by (p s) o s ++ keep_sessions p cs ss) x ≡ false
    go none rest = rest
    go (some c) rest = ground (arith, rest, h c, ap (λ (k : ℕ). p k c))

-- A session that is not in the list may change in any way.
pub change-Attached :
    (f : Connection → Connection) (s id : ℕ) (cs : Assoc Connection) (ss : List ℕ)
    → contains ss s ≡ false
    → Attached id cs ss
    → Attached id (change f s (lookup s cs) cs) ss
change-Attached f s id cs ss out v = record {
  distinct = v.distinct;
  belongs = λ x c h e. elim (Bool-cases (s == x)) [
    | inl same ↦ absurd (ground (arith, same, h, out, ap (contains ss)))
    | inr other ↦ v.belongs x c h (sym (ground (arith, lookup-change f s x cs, other)) ∙ e)
  ];
}

-- A session asked to close may be in no meeting.
pub close-Attached :
    (s id : ℕ) (cs : Assoc Connection) (ss : List ℕ)
    → Attached id cs ss
    → Attached id (change (λ c. record c { close_requested = true }) s (lookup s cs) cs) ss
close-Attached s id cs ss v = record { distinct = v.distinct; belongs = go }
  where
    go :
        (x : ℕ) (c : Connection)
        → contains ss x ≡ true
        → lookup x (change (λ c. record c { close_requested = true }) s (lookup s cs) cs) ≡ some c
        → (c.meeting_id ≡ id) ⊎ (c.close_requested ≡ true)
    go x c h e =
        ground (
          arith,
          e,
          lookup-change (λ c. record c { close_requested = true }) s x cs,
          v.belongs x c h,
        )

abbrev pub close : Connection → Connection
close c = record c { close_requested = true }

abbrev pub move : ℕ → Connection → Connection
move m c = record c { meeting_id = m }

-- A session that is put out of its meeting and asked to close
pub put_out-Attached :
    (s id : ℕ) (cs : Assoc Connection) (ss : List ℕ)
    → Attached id cs ss
    → Attached id
        (change close s
          (lookup s (change (move 0) s (lookup s cs) cs))
          (change (move 0) s (lookup s cs) cs))
        ss
put_out-Attached s id cs ss v = record { distinct = v.distinct; belongs = go }
  where
    go :
        (x : ℕ) (c : Connection)
        → contains ss x ≡ true
        → lookup x (
            change close s
              (lookup s (change (move 0) s (lookup s cs) cs))
              (change (move 0) s (lookup s cs) cs))
          ≡ some c
        → (c.meeting_id ≡ id) ⊎ (c.close_requested ≡ true)
    go x c h e = ground (
      arith,
      e,
      lookup-change close s x (change (move 0) s (lookup s cs) cs),
      lookup-change (move 0) s x cs,
      v.belongs x c h,
    )

-- A session that comes into the meeting is appended.
pub enter-Attached :
    (s id : ℕ) (cs : Assoc Connection) (ss : List ℕ)
    → contains ss s ≡ false
    → Attached id cs ss
    → Attached id (change (move id) s (lookup s cs) cs) (ss ++ s ∷ [])
unfolding contains
enter-Attached s id cs ss out v = record {
  distinct = Distinct-append ss s v.distinct out;
  belongs = go;
}
  where
    go :
        (x : ℕ) (c : Connection)
        → contains (ss ++ s ∷ []) x ≡ true
        → lookup x (change (move id) s (lookup s cs) cs) ≡ some c
        → (c.meeting_id ≡ id) ⊎ (c.close_requested ≡ true)
    go x c h e =
        ground (
          arith,
          e,
          h,
          contains-append ss (s ∷ []) x,
          lookup-change (move id) s x cs,
          v.belongs x c,
        )
