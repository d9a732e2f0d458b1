-- ===== src/Realtime/Meetings/Grace.antt =====
-- The time that a member has to reconnect.
use sync_rtc.Prelude.{
  ℕ, zero, suc, ◌+◌, ◌*◌, ◌<◌, ◌≡◌, ◌≢◌, refl, ap, subst, sym, ◌∙◌, Bool, true, false, not, ltb,
  Option, none, some, List, [], ◌∷◌, ◌==◌, if◌then◌else◌, arith, Bytes, codes, ℤ, pos, negsuc,
  Bool-cases, inl, inr, is_empty,
}
use sync_rtc.Prelude.Json.{same_bytes}
use sync_rtc.Prelude.Assoc.{lookup, lookup-assign, lookup-erase}
use sync_rtc.Realtime.Session.{second}
use sync_rtc.Realtime.Meetings.{
  Connection, Membership, Notice, World, removes_member, removes_deadline, broadcast, release_media,
  set_meeting_id, user_key, positive, leading_int, set_sessions, keep_sessions,
}
use sync_rtc.Realtime.Meetings.Leaving.{not_session}
use sync_rtc.Realtime.Meetings.Reconnection.{
  grace_seconds, LossAnswers, lose, disconnect, drop_session, start_grace, belongs_to, tell_lost,
  mark_lost, lost_alone, ExpiryAnswers, nothing, only_writes, expelled, remove_expired, at_deadline,
  expire_user, expire_member, still_waits, int_or_zero, or_whole, after_colon,
}

-- What the table of members says of another user stays.
abbrev Keeps : ℕ → World → World → Type 0
Keeps uid w w' = lookup uid w'.room.members ≡ lookup uid w.room.members

expelled-Keeps :
    (k uid : ℕ) (a : ExpiryAnswers) (w : World)
    → (k == uid) ≡ false
    → Keeps uid w (expelled k a w).world
unfolding expelled broadcast
expelled-Keeps k uid a w h = ground (arith, h, lookup-erase k uid w.room.members)

remove_expired-Keeps :
    (k uid : ℕ) (a : ExpiryAnswers) (w : World)
    → (k == uid) ≡ false
    → Keeps uid w (remove_expired k a w).world
remove_expired-Keeps k uid a w h = go a.removed a.deadline_removed
  where
    go :
        (b d : Bool)
        → Keeps uid w
            (if not b
              then only_writes (removes_member k ∷ []) w
              else if not d
              then only_writes (removes_member k ∷ (removes_deadline k ∷ [])) w
              else expelled k a w).world
    go false d = refl
    go true false = refl
    go true true = expelled-Keeps k uid a w h

at_deadline-Keeps :
    (k uid : ℕ) (a : ExpiryAnswers) (o : Option ℤ) (w : World)
    → (k == uid) ≡ false
    → Keeps uid w (at_deadline k a o w).world
at_deadline-Keeps k uid a none w h = refl
at_deadline-Keeps k uid a (some (negsuc d)) w h =
    choose (same_bytes a.room_state (codes "reconnecting"))
  where
    choose :
        (r : Bool)
        → Keeps uid w
            (if r then remove_expired k a w else only_writes (removes_deadline k ∷ []) w).world
    choose true = remove_expired-Keeps k uid a w h
    choose false = refl
at_deadline-Keeps k uid a (some (pos d)) w h =
    choose (d == 0) (ltb a.now d) (same_bytes a.room_state (codes "reconnecting"))
  where
    choose :
        (z e r : Bool)
        → Keeps uid w
            (if z
              then only_writes (removes_deadline k ∷ []) w
              else if e
              then nothing w
              else if r
              then remove_expired k a w
              else only_writes (removes_deadline k ∷ []) w).world
    choose true e r = refl
    choose false true r = refl
    choose false false true = remove_expired-Keeps k uid a w h
    choose false false false = refl

-- Before the deadline of a member no entry of the deadlines takes it out.
expire_member-Keeps :
    (uid : ℕ) (m : Membership) (entry : Bytes) (a : ExpiryAnswers) (w : World)
    → lookup uid w.room.members ≡ some m
    → a.steady_now < m.deadline
    → Keeps uid w (expire_member entry a w).world
unfolding expire_member
expire_member-Keeps uid m entry a w l h =
    go (int_or_zero (leading_int (or_whole entry (after_colon entry))))
  where
    waiting :
        (k : ℕ) (b : Bool)
        → (k == uid) ≡ false
        → Keeps uid w (if b then nothing w else at_deadline k a a.deadline w).world
    waiting k true e = refl
    waiting k false e = at_deadline-Keeps k uid a a.deadline w e

    named : (k : ℕ) → Keeps uid w (expire_user (some k) k a w).world
    named k = elim (Bool-cases (k == uid)) [
      | inl same ↦
          let t : still_waits (lookup k w.room.members) a.steady_now ≡ true =
            ground (arith, same, l, h, ap (λ (j : ℕ). lookup j w.room.members)) in
          rw t refl
      | inr other ↦ waiting k (still_waits (lookup k w.room.members) a.steady_now) other
    ]

    go : (n : ℤ) → Keeps uid w (expire_user (positive n) (user_key n) a w).world
    go (pos zero) = refl
    go (pos (suc n)) = named (suc n)
    go (negsuc n) = refl

abbrev pub Before : ℕ → List (Bytes × ExpiryAnswers) → Type 0
Before t [] = Unit {0}
Before t ((entry, a) ∷ es) = (a.steady_now < t) × Before t es

unfoldable pub expire_members : List (Bytes × ExpiryAnswers) → World → World
unfolding expire_member
expire_members [] w = w
expire_members ((entry, a) ∷ es) w = expire_members es (expire_member entry a w).world

expire_members-Keeps :
    (uid : ℕ) (m : Membership) (es : List (Bytes × ExpiryAnswers)) (w : World)
    → lookup uid w.room.members ≡ some m
    → Before m.deadline es
    → lookup uid (expire_members es w).room.members ≡ some m
unfolding expire_members
expire_members-Keeps uid m [] w l b = l
expire_members-Keeps uid m ((entry, a) ∷ es) w l b =
    expire_members-Keeps uid m es (expire_member entry a w).world
      (expire_member-Keeps uid m entry a w l b.0 ∙ l) b.1

tell_lost-Keeps : (uid k : ℕ) (n : Option Notice) (w : World) → Keeps uid w (tell_lost k n w).0
unfolding tell_lost broadcast
tell_lost-Keeps uid k none w = refl
tell_lost-Keeps uid k (some n) w = refl

start_grace_lem :
    (uid s t : ℕ) (m : Membership) (o : Option Membership) (w : World)
    → o ≡ some m
    → m.session ≡ some s
    → lookup uid (start_grace uid s t o w).room.members ≡ some (record m { deadline = t })
start_grace_lem uid s t m o w e h =
    subst
      (λ (p : Option Membership).
        lookup uid (start_grace uid s t p w).room.members ≡ some (record m { deadline = t }))
      (sym e)
      (rw mine (ground (arith, lookup-assign uid uid (record m { deadline = t }) w.room.members)))
  where
    mine : belongs_to s m.session ≡ true
    mine = ground (arith, h)

lose_starts :
    (a : LossAnswers) (s : ℕ) (c : Connection) (w : World) (m : Membership)
    → lookup (user_key c.user_id) w.room.members ≡ some m
    → m.session ≡ some s
    → lookup (user_key c.user_id) (lose a s c w).world.room.members
      ≡ some (record m { deadline = a.steady_now + grace_seconds * second })
unfolding lose drop_session release_media set_meeting_id
lose_starts a s c w m l o =
    let uid = user_key c.user_id in
    let kept = set_sessions (keep_sessions (not_session s) w.connections w.room.sessions) w in
    let marked =
      start_grace uid s (a.steady_now + grace_seconds * second) (lookup uid w.room.members) kept in
    let notice = (mark_lost (lost_alone s uid w) (positive c.user_id) a).1 in
    tell_lost-Keeps uid uid notice marked
    ∙ start_grace_lem uid s (a.steady_now + grace_seconds * second) m (lookup uid w.room.members)
        kept l o

-- The loss of the connection of a member starts its time to reconnect.
disconnect_starts :
    (a : LossAnswers) (s : ℕ) (c : Connection) (w : World) (m : Membership)
    → c.meeting_id ≢ 0
    → is_empty w.room.sessions ≡ false
    → lookup (user_key c.user_id) w.room.members ≡ some m
    → m.session ≡ some s
    → lookup (user_key c.user_id) (disconnect a s c w).world.room.members
      ≡ some (record m { deadline = a.steady_now + grace_seconds * second })
unfolding disconnect
disconnect_starts a s c w m n e l o =
    let z : (c.meeting_id == 0) ≡ false = ground (arith, n) in
    rw z (rw e (lose_starts a s c w m l o))

-- A member whose session loses its connection, in a meeting with sessions, stays a member for 45
-- seconds of the steady clock: whatever expiries are handled at readings before that, for its own
-- entry or others, and whatever storage and the wall clock answer, the membership is there with its
-- ticket, token and generation, and with the deadline.
pub disconnect-expire_members :
    (a : LossAnswers) (s : ℕ) (c : Connection) (w : World) (m : Membership)
    (es : List (Bytes × ExpiryAnswers))
    → c.meeting_id ≢ 0
    → is_empty w.room.sessions ≡ false
    → lookup (user_key c.user_id) w.room.members ≡ some m
    → m.session ≡ some s
    → Before (a.steady_now + grace_seconds * second) es
    → lookup (user_key c.user_id) (expire_members es (disconnect a s c w).world).room.members
      ≡ some (record m { deadline = a.steady_now + grace_seconds * second })
disconnect-expire_members a s c w m es n e l o b =
    expire_members-Keeps (user_key c.user_id)
      (record m { deadline = a.steady_now + grace_seconds * second }) es (disconnect a s c w).world
      (disconnect_starts a s c w m n e l o) b
