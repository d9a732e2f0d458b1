-- ===== src/Realtime/Session/Heartbeats/Grace.antt =====
-- When a silent connection is given up.
use sync_rtc.Prelude.{
  ℕ, ◌+◌, ◌*◌, ◌≤◌, ◌≡◌, ◌∙◌, Bool, true, false, Option, List, [], ◌∷◌, Bytes, codes, arith,
}
use sync_rtc.Prelude.Json.{Json}
use sync_rtc.Realtime.Session.{Session, second, request_close}
use sync_rtc.Realtime.Session.Sending.{
  Event, sends, writes, requests_close, closes, step, send, submit,
}
use sync_rtc.Realtime.Session.Heartbeats.{
  Beat, bad, plain, sequenced, read_beat, counted, accept_beat, apply_beat, handle_heartbeat,
  sequence_reply, connection_expired, overdue,
}

-- What happens to a connection whose user stays the same: a check for expiry with its time and its
-- permission of a second chance, a heartbeat with its time, or a call that sends, writes or closes.
pub data Incident : Type 0 where
  checks : ℕ → Bool → Incident
  beats : ℕ → Bytes → Incident
  does : Event → Incident

module _ (read : Bytes → Option Json) where
  unfoldable pub befall : Incident → Session → Session
  befall (checks now allow) s = (connection_expired now allow s).0
  befall (beats now payload) s = handle_heartbeat read now payload s
  befall (does e) s = step s e

  unfoldable pub befall_all : List Incident → Session → Session
  unfolding befall
  befall_all [] s = s
  befall_all (i ∷ is) s = befall_all is (befall i s)

  -- None of the heartbeats is accepted: an accepted one clears recheck_used.
  abbrev pub NoneAccepted : List Incident → Session → Type 0
  NoneAccepted [] s = Unit {0}
  NoneAccepted (beats now payload ∷ is) s =
      ((handle_heartbeat read now payload s).recheck_used ≡ true)
      × NoneAccepted is (handle_heartbeat read now payload s)
  NoneAccepted (i ∷ is) s = NoneAccepted is (befall i s)

  -- The state of a second chance that ends by `limit`.
  abbrev Ending : ℕ → ℕ → Session → Type 0
  Ending now limit s = (s.recheck_used ≡ true) × (s.recheck_until ≤ limit) × (overdue now s ≡ true)

  -- What decides on expiry.
  abbrev Same : Session → Session → Type 0
  Same s t =
      (t.heartbeat_enabled ≡ s.heartbeat_enabled)
      × (t.last_heartbeat ≡ s.last_heartbeat)
      × (t.recheck_until ≡ s.recheck_until)
      × (t.created_at ≡ s.created_at)
      × (t.user_id ≡ s.user_id)

  accept_beat_clears :
      (now : ℕ) (reply : Bytes) (s : Session) → (accept_beat now reply s).recheck_used ≡ false
  unfolding accept_beat request_close send submit
  accept_beat_clears now reply s = ground arith

  apply_beat-Same :
      (b : Beat) (now : ℕ) (s : Session)
      → (apply_beat b now s).recheck_used ≡ true
      → Same s (apply_beat b now s)
  unfolding apply_beat request_close
  apply_beat-Same bad now s e = ground arith
  apply_beat-Same plain now s e = ground (arith, accept_beat_clears now (codes "{}") s, e)
  apply_beat-Same (sequenced text n) now s e = ground (
    arith,
    e,
    accept_beat_clears now (sequence_reply text) (record s {
      heart = record s.heart { sequenced_heartbeat = true; heartbeat_sequence = n };
    }),
  )

  handle_heartbeat-Same :
      (now : ℕ) (payload : Bytes) (s : Session)
      → (handle_heartbeat read now payload s).recheck_used ≡ true
      → Same s (handle_heartbeat read now payload s)
  unfolding handle_heartbeat request_close
  handle_heartbeat-Same now payload s e = ground (
    arith,
    e,
    apply_beat-Same (read_beat s.sequenced_heartbeat (read payload)) now (counted now s),
  )

  step-Same :
      (e : Event) (s : Session) → Same s (step s e) × ((step s e).recheck_used ≡ s.recheck_used)
  unfolding step send submit request_close
  step-Same (sends id payload) s = ground arith
  step-Same (writes results) s = ground arith
  step-Same requests_close s = ground arith
  step-Same closes s = ground arith

  Same-Ending :
      (now limit : ℕ) (s t : Session)
      → Same s t
      → t.recheck_used ≡ true
      → Ending now limit s
      → Ending now limit t
  Same-Ending now limit s t same u e = ground (arith, same, u, e)

  check-Ending :
      (now limit t : ℕ) (allow : Bool) (s : Session)
      → Ending now limit s
      → Ending now limit (connection_expired t allow s).0
  unfolding connection_expired
  check-Ending now limit t allow s e = ground arith

  befall_all-Ending :
      (now limit : ℕ) (is : List Incident) (s : Session)
      → NoneAccepted is s
      → Ending now limit s
      → Ending now limit (befall_all is s)
  unfolding befall_all
  befall_all-Ending now limit [] s n e = e
  befall_all-Ending now limit (checks t allow ∷ is) s n e =
      befall_all-Ending now limit is _ n (check-Ending now limit t allow s e)
  befall_all-Ending now limit (beats t payload ∷ is) s n e = befall_all-Ending now limit is _ n.1 (
      Same-Ending now limit s (handle_heartbeat read t payload s)
        (handle_heartbeat-Same t payload s n.0) n.0 e)
  befall_all-Ending now limit (does d ∷ is) s n e =
      let (same, used) = step-Same d s in
      befall_all-Ending now limit is _ n (Same-Ending now limit s (step s d) same (used ∙ e.0) e)

  Ending-expired :
      (now limit t : ℕ) (allow : Bool) (s : Session)
      → Ending now limit s
      → limit ≤ t
      → now ≤ t
      → (connection_expired t allow s).1 ≡ true
  unfolding connection_expired
  Ending-expired now limit t allow s e h k = ground arith

  grant-Ending :
      (now : ℕ) (s : Session)
      → overdue now s ≡ true
      → s.recheck_used ≡ false
      → Ending now (now + 3 * second) (connection_expired now true s).0
  unfolding connection_expired
  grant-Ending now s o u = ground arith

  -- A connection that is overdue and gets a second chance is given up three seconds later, whatever
  -- checks, sends, writes, closes and heartbeats come in between and whatever the checks permit, if its
  -- user stays the same and none of those heartbeats is accepted (an accepted one clears recheck_used).
  pub grace_is_bounded :
      (s : Session) (now : ℕ) (is : List Incident) (t : ℕ) (allow : Bool)
      → overdue now s ≡ true
      → s.recheck_used ≡ false
      → NoneAccepted is (connection_expired now true s).0
      → now + 3 * second ≤ t
      → (connection_expired t allow (befall_all is (connection_expired now true s).0)).1 ≡ true
  grace_is_bounded s now is t allow o u n h =
      Ending-expired now (now + 3 * second) t allow _
        (befall_all-Ending now (now + 3 * second) is _ n (grant-Ending now s o u)) h (omega arith)
