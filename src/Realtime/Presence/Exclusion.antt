-- ===== src/Realtime/Presence/Exclusion.antt =====
-- A user is in one meeting at a time.
use sync_rtc.Prelude.{
  ℕ, ◌+◌, ◌%◌, ◌^◌, ◌≡◌, ◌≢◌, refl, ap, ◌∙◌, Bool, true, false, Option, none, some, List, [], ◌∷◌,
  arith,
}
use sync_rtc.Prelude.Assoc.{Assoc, lookup, lookup-assign, lookup-erase}
use sync_rtc.Realtime.Presence.{
  UserPresence, reserved, reserve_user, after_join, finished, released, release_room_users,
  PresenceCall, reserves, finishes, releases, releases_all, call, calls,
}

-- None of the calls is of the meeting.
abbrev pub Elsewhere : ℕ → List (ℕ × PresenceCall) → Type 0
Elsewhere m [] = Unit {0}
Elsewhere m ((k, c) ∷ cs) = (k ≢ m) × Elsewhere m cs

module _ (u m : ℕ) (e : UserPresence) (of_meeting : e.meeting ≡ m) where
  abbrev Held : Assoc UserPresence → Type 0
  Held p = lookup u p ≡ some e

  module _ (k : ℕ) (other : k ≢ m) (p : Assoc UserPresence) (held : Held p) where
    reserved-Held :
        (uid : ℕ) (o : Option UserPresence) → lookup uid p ≡ o → Held (reserved uid k o p).0
    reserved-Held uid none f = ground (
      arith,
      held,
      f,
      lookup-assign uid u (record { meeting = k; joining = 1; joined = false }) p,
    )
    reserved-Held uid (some d) f = ground (
      arith,
      held,
      f,
      other,
      of_meeting,
      lookup-assign uid u (record d { joining = (d.joining + 1) % 2 ^ 64 }) p,
    )

    finished-Held :
        (uid : ℕ) (joined : Bool) (o : Option UserPresence)
        → lookup uid p ≡ o
        → Held (finished uid k joined o p)
    finished-Held uid joined none f = held
    finished-Held uid joined (some d) f = ground (
      arith,
      held,
      f,
      other,
      of_meeting,
      lookup-assign uid u (after_join joined d) p,
      lookup-erase uid u p,
    )

    released-Held :
        (uid : ℕ) (o : Option UserPresence) → lookup uid p ≡ o → Held (released uid k o p)
    released-Held uid none f = held
    released-Held uid (some d) f = ground (arith, held, f, other, of_meeting, lookup-erase uid u p)

  release_room-Held :
      (k : ℕ) → k ≢ m → (p : Assoc UserPresence) → Held p → Held (release_room_users k p)
  unfolding lookup release_room_users
  release_room-Held k other [] held = held
  release_room-Held k other ((uid, d) ∷ p) held =
      ground (arith, held, other, of_meeting, release_room-Held k other p)

  call-Held :
      (k : ℕ) (c : PresenceCall) (p : Assoc UserPresence) → k ≢ m → Held p → Held (call k c p)
  unfolding call
  call-Held k (reserves uid) p other held = reserved-Held k other p held uid (lookup uid p) refl
  call-Held k (finishes uid joined) p other held =
      finished-Held k other p held uid joined (lookup uid p) refl
  call-Held k (releases uid) p other held = released-Held k other p held uid (lookup uid p) refl
  call-Held k releases_all p other held = release_room-Held k other p held

  calls-Held :
      (cs : List (ℕ × PresenceCall)) (p : Assoc UserPresence)
      → Elsewhere m cs
      → Held p
      → Held (calls cs p)
  unfolding calls
  calls-Held [] p x held = held
  calls-Held ((k, c) ∷ cs) p x held = calls-Held cs (call k c p) x.1 (call-Held k c p x.0 held)

-- The entry that a granted reservation leaves.
pub reserve_entry :
    (u m : ℕ) (p : Assoc UserPresence)
    → (reserve_user u m p).1 ≡ true
    → (e : UserPresence) × (lookup u (reserve_user u m p).0 ≡ some e) × (e.meeting ≡ m)
unfolding reserve_user
reserve_entry u m p = go (lookup u p)
  where
    fresh : UserPresence
    fresh = record { meeting = m; joining = 1; joined = false }

    go :
        (o : Option UserPresence)
        → (reserved u m o p).1 ≡ true
        → (e : UserPresence) × (lookup u (reserved u m o p).0 ≡ some e) × (e.meeting ≡ m)
    go none h = (fresh, ground (arith, lookup-assign u u fresh p), refl)
    go (some d) h = (
      record d { joining = (d.joining + 1) % 2 ^ 64 },
      ground (arith, h, lookup-assign u u (record d { joining = (d.joining + 1) % 2 ^ 64 }) p),
      ground (arith, h),
    )

-- The entry of a user in a meeting stays as it is whatever is done for other meetings.
pub others_keep :
    (u m : ℕ) (e : UserPresence) (cs : List (ℕ × PresenceCall)) (p : Assoc UserPresence)
    → e.meeting ≡ m
    → Elsewhere m cs
    → lookup u p ≡ some e
    → lookup u (calls cs p) ≡ some e
others_keep u m e cs p of_meeting x held = calls-Held u m e of_meeting cs p x held

refused :
    (u k m : ℕ) (e : UserPresence) (p : Assoc UserPresence)
    → e.meeting ≡ m
    → k ≢ m
    → lookup u p ≡ some e
    → (reserve_user u k p).1 ≡ false
unfolding reserve_user
refused u k m e p of_meeting other held =
    ap (λ o. (reserved u k o p).1) held ∙ ground (arith, of_meeting, other)

-- While a meeting has the user reserved, whatever other meetings do in between, no other meeting
-- gets a reservation of the user.
pub reservation_excludes :
    (u m k : ℕ) (cs : List (ℕ × PresenceCall)) (p : Assoc UserPresence)
    → (reserve_user u m p).1 ≡ true
    → Elsewhere m cs
    → k ≢ m
    → (reserve_user u k (calls cs (reserve_user u m p).0)).1 ≡ false
reservation_excludes u m k cs p granted x other =
    let (e, held, of_meeting) = reserve_entry u m p granted in
    refused u k m e _ of_meeting other (others_keep u m e cs _ of_meeting x held)
