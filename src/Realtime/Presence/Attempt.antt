-- ===== src/Realtime/Presence/Attempt.antt =====
-- A whole attempt to join: the reservation, what other meetings do meanwhile, and its end.
use sync_rtc.Prelude.{
  ℕ, ◌+◌, ◌-◌, ◌%◌, ◌^◌, ◌<◌, ◌≡◌, refl, ap, ◌∙◌, Bool, true, false, not, ◌||◌, ◌&&◌, Option, none,
  some, List, ◌==◌, if◌then◌else◌, arith,
}
use sync_rtc.Prelude.Assoc.{Assoc, lookup, lookup-assign, lookup-erase}
use sync_rtc.Realtime.Presence.{
  UserPresence, reserved, reserve_user, after_join, finished, finish_join, PresenceCall, calls,
}
use sync_rtc.Realtime.Presence.Exclusion.{Elsewhere, others_keep}

-- A user who is in the table has joined or is joining, and the count of joins is not at its end.
abbrev pub IsPresent : Option UserPresence → Type 0
IsPresent none = Unit {0}
IsPresent (some e) = ((e.joined || not (e.joining == 0)) ≡ true) × (e.joining + 1 < 2 ^ 64)

-- The entry after a reservation for the same meeting.
abbrev raised : ℕ → Option UserPresence → UserPresence
raised m none = record { meeting = m; joining = 1; joined = false }
raised m (some e) = record e { joining = (e.joining + 1) % 2 ^ 64 }

module _ (u m : ℕ) (cs : List (ℕ × PresenceCall)) (x : Elsewhere m cs)
    (p : Assoc UserPresence) where
  finish_at :
      (joined : Bool) (q : Assoc UserPresence) (e : UserPresence)
      → e.meeting ≡ m
      → lookup u q ≡ some e
      → lookup u (finish_join u m joined q) ≡ (
          if not (e.joined || joined) && ((e.joining + (2 ^ 64 - 1)) % 2 ^ 64 == 0)
          then none
          else some (after_join joined e))
  unfolding finish_join
  finish_at joined q e of_meeting held =
      ap (λ o. lookup u (finished u m joined o q)) held
      ∙ ground (arith, of_meeting, lookup-assign u u (after_join joined e) q, lookup-erase u u q)

  reserve_at :
      (o : Option UserPresence)
      → lookup u p ≡ o
      → (reserved u m o p).1 ≡ true
      → (lookup u (reserved u m o p).0 ≡ some (raised m o)) × ((raised m o).meeting ≡ m)
  reserve_at none e h = (ground (arith, lookup-assign u u (raised m none) p), refl)
  reserve_at (some d) e h =
      (ground (arith, h, lookup-assign u u (raised m (some d)) p), ground (arith, h))

  middle :
      (o : Option UserPresence)
      → lookup u p ≡ o
      → (reserved u m o p).1 ≡ true
      → (joined : Bool)
      → lookup u (finish_join u m joined (calls cs (reserved u m o p).0)) ≡ (
          if not ((raised m o).joined || joined)
            && (((raised m o).joining + (2 ^ 64 - 1)) % 2 ^ 64 == 0)
          then none
          else some (after_join joined (raised m o)))
  middle o e h joined =
      let (held, of_meeting) = reserve_at o e h in
      finish_at joined _ (raised m o) of_meeting
        (others_keep u m (raised m o) cs _ of_meeting x held)

  -- Either end of an attempt, for the entry that was there before.
  Ends : Option UserPresence → Assoc UserPresence → Type 0
  Ends o q =
      (lookup u (finish_join u m false q) ≡ o)
      × ((e : UserPresence) × (lookup u (finish_join u m true q) ≡ some e)
          × (e.joined ≡ true)
          × (e.meeting ≡ m))

  attempt-Ends :
      (o : Option UserPresence)
      → lookup u p ≡ o
      → IsPresent o
      → (reserved u m o p).1 ≡ true
      → Ends o (calls cs (reserved u m o p).0)
  unfolding Ends
  attempt-Ends none e v h = (
    middle none e h false ∙ refl,
    (after_join true (raised m none), middle none e h true ∙ refl, refl, refl),
  )
  attempt-Ends (some d) e v h = (
    middle (some d) e h false ∙ ground (arith, v, h),
    (
      after_join true (raised m (some d)),
      middle (some d) e h true ∙ ground arith,
      ground arith,
      ground (arith, h),
    ),
  )

  -- A join that fails leaves the user where the table had it before, and one that succeeds leaves
  -- the user in the meeting as joined, whatever other meetings do meanwhile.
  pub join_attempt :
      IsPresent (lookup u p)
      → (reserve_user u m p).1 ≡ true
      → (lookup u (finish_join u m false (calls cs (reserve_user u m p).0)) ≡ lookup u p)
        × ((e : UserPresence) × (lookup u (finish_join u m true (calls cs (reserve_user u m p).0))
              ≡ some e)
            × (e.joined ≡ true)
            × (e.meeting ≡ m))
  unfolding reserve_user Ends
  join_attempt v granted = attempt-Ends (lookup u p) refl v granted
