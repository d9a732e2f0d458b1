-- ===== src/Realtime/Session/Heartbeats/Limits.antt =====
-- What a client gains by a heartbeat, and how many it may send.
use sync_rtc.Prelude.{
  ℕ, ◌+◌, ◌-◌, ◌≤◌, ◌<◌, ◌≡◌, refl, subst, sym, ◌∙◌, ◌≢◌, ◌⊎◌, inl, inr, Bool, true, false, Option,
  none, some, List, [], ◌∷◌, length, Bytes, codes, arith,
}
use sync_rtc.Prelude.Json.{Json, obj, str, member}
use sync_rtc.Realtime.Session.{Session, second, is_closed, request_close}
use sync_rtc.Realtime.Session.Sending.{send, submit}
use sync_rtc.Realtime.Session.Heartbeats.{
  sequence_number, sequenced_beat, sequence_beat, Beat, bad, plain, sequenced, read_beat, counted,
  handle_heartbeat, apply_beat, accept_beat, sequence_reply,
}

-- What `s'` may owe to a heartbeat at time `now` that `s` received.
pub record Renewal (now : ℕ) (s s' : Session) : Type 0 where
  pub sequence_kept : s.heartbeat_sequence ≤ s'.heartbeat_sequence
  pub mode_kept : s.sequenced_heartbeat ≡ true → s'.sequenced_heartbeat ≡ true
  pub earned :
      ((s'.last_heartbeat ≡ s.last_heartbeat) × (s'.recheck_used ≡ s.recheck_used))
      ⊎ ((s'.last_heartbeat ≡ now)
          × ((s.heartbeat_sequence < s'.heartbeat_sequence) ⊎ (s.sequenced_heartbeat ≡ false)))

heart-send : (id : ℕ) (payload : Bytes) (s : Session) → (send id payload s).0.heart ≡ s.heart
unfolding send submit
heart-send id payload s = ground arith

heart-accept :
    (now : ℕ) (reply : Bytes) (s : Session)
    → ((accept_beat now reply s).last_heartbeat ≡ now)
      × ((accept_beat now reply s).heartbeat_sequence ≡ s.heartbeat_sequence)
      × ((accept_beat now reply s).sequenced_heartbeat ≡ s.sequenced_heartbeat)
      × ((accept_beat now reply s).heartbeat_count ≡ s.heartbeat_count)
      × ((accept_beat now reply s).heartbeat_window ≡ s.heartbeat_window)
unfolding accept_beat request_close send submit
heart-accept now reply s = ground arith

sequenced_beat-ne-plain : (text : Bytes) (n : Option ℕ) → sequenced_beat text n ≢ plain
sequenced_beat-ne-plain text none e = cc
sequenced_beat-ne-plain text (some n) e = cc

sequence_beat-ne-plain : (j : Json) → sequence_beat j ≢ plain
sequence_beat-ne-plain (str text) e = sequenced_beat-ne-plain text (sequence_number text) e
sequence_beat-ne-plain _ e = cc

read_beat-plain : (mode : Bool) (v : Option Json) → read_beat mode v ≡ plain → mode ≡ false
unfolding read_beat
read_beat-plain mode (some (obj fields)) e =
    ground (arith, sequence_beat-ne-plain (member "seq" fields))
read_beat-plain mode _ e = cc

apply_beat-Renewal :
    (b : Beat) (now : ℕ) (s : Session)
    → (b ≡ plain → s.sequenced_heartbeat ≡ false)
    → Renewal now s (apply_beat b now s)
unfolding apply_beat request_close
apply_beat-Renewal bad now s h = ground arith
apply_beat-Renewal plain now s h = ground (arith, heart-accept now (codes "{}") s, h refl)
apply_beat-Renewal (sequenced text n) now s h = ground (
  arith,
  heart-accept now (sequence_reply text)
      (record s { heart = record s.heart { sequenced_heartbeat = true; heartbeat_sequence = n } }),
)

sequenced-counted :
    (now : ℕ) (s : Session) → (counted now s).sequenced_heartbeat ≡ s.sequenced_heartbeat
sequenced-counted now s = ground arith

-- A heartbeat never lowers the sequence number and never leaves the numbered mode. It extends the
-- life of the connection, or ends a second chance, only if its number is above every earlier one or
-- if the connection never used numbers; so a replayed or reordered packet extends nothing.
pub handle_heartbeat-Renewal :
    (read : Bytes → Option Json) (now : ℕ) (payload : Bytes) (s : Session)
    → Renewal now s (handle_heartbeat read now payload s)
unfolding handle_heartbeat request_close
handle_heartbeat-Renewal read now payload s = ground (
  arith,
  apply_beat-Renewal (read_beat s.sequenced_heartbeat (read payload)) now (counted now s)
      (λ e. sequenced-counted now s ∙ read_beat-plain s.sequenced_heartbeat (read payload) e),
)

-- The heartbeats of a client, each with its time, handled in order.
unfoldable pub handle_all : (Bytes → Option Json) → List (ℕ × Bytes) → Session → Session
handle_all read [] s = s
handle_all read ((now, payload) ∷ beats) s =
    handle_all read beats (handle_heartbeat read now payload s)

-- All times lie in the window of one second that begins at `start`.
abbrev pub InWindow : ℕ → List (ℕ × Bytes) → Type 0
InWindow start [] = Unit {0}
InWindow start ((now, payload) ∷ beats) = (now - start < second) × InWindow start beats

closed-accept :
    (now : ℕ) (reply : Bytes) (s : Session)
    → is_closed s ≡ true
    → is_closed (accept_beat now reply s) ≡ true
unfolding accept_beat request_close send submit
closed-accept now reply s c = ground arith

pub closed-request_close : (s : Session) → is_closed (request_close s) ≡ true
unfolding request_close
closed-request_close s = ground arith

closed-apply_beat :
    (b : Beat) (now : ℕ) (s : Session) → is_closed s ≡ true → is_closed (apply_beat b now s) ≡ true
unfolding apply_beat
closed-apply_beat bad now s c = closed-request_close s
closed-apply_beat plain now s c = closed-accept now _ s c
closed-apply_beat (sequenced text n) now s c = ground (
  arith,
  closed-accept now (sequence_reply text)
      (record s { heart = record s.heart { sequenced_heartbeat = true; heartbeat_sequence = n } }),
)

closed-handle_heartbeat :
    (read : Bytes → Option Json) (now : ℕ) (payload : Bytes) (s : Session)
    → is_closed s ≡ true
    → is_closed (handle_heartbeat read now payload s) ≡ true
unfolding handle_heartbeat
closed-handle_heartbeat read now payload s c = ground (
  arith,
  closed-request_close s,
  closed-request_close (counted now s),
  closed-apply_beat (read_beat s.sequenced_heartbeat (read payload)) now (counted now s) c,
)

closed-handle_all :
    (read : Bytes → Option Json) (beats : List (ℕ × Bytes)) (s : Session)
    → is_closed s ≡ true
    → is_closed (handle_all read beats s) ≡ true
unfolding handle_all
closed-handle_all read [] s c = c
closed-handle_all read ((now, payload) ∷ beats) s c =
    closed-handle_all read beats _ (closed-handle_heartbeat read now payload s c)

apply_beat-counts :
    (b : Beat) (now : ℕ) (s : Session)
    → (is_closed (apply_beat b now s) ≡ true)
      ⊎ (((apply_beat b now s).heartbeat_window ≡ s.heartbeat_window)
          × ((apply_beat b now s).heartbeat_count ≡ s.heartbeat_count))
unfolding apply_beat
apply_beat-counts bad now s = inl (closed-request_close s)
apply_beat-counts plain now s = ground (arith, heart-accept now (codes "{}") s)
apply_beat-counts (sequenced text n) now s = ground (
  arith,
  heart-accept now (sequence_reply text)
      (record s { heart = record s.heart { sequenced_heartbeat = true; heartbeat_sequence = n } }),
)

heartbeat_counts :
    (read : Bytes → Option Json) (now : ℕ) (payload : Bytes) (s : Session)
    → now - s.heartbeat_window < second
    → s.heartbeat_count ≤ 4
    → (is_closed (handle_heartbeat read now payload s) ≡ true)
      ⊎ (((handle_heartbeat read now payload s).heartbeat_window ≡ s.heartbeat_window)
          × ((handle_heartbeat read now payload s).heartbeat_count ≡ s.heartbeat_count + 1)
          × (s.heartbeat_count + 1 ≤ 4))
unfolding handle_heartbeat
heartbeat_counts read now payload s w c = ground (
  arith,
  closed-request_close s,
  closed-request_close (counted now s),
  apply_beat-counts (read_beat s.sequenced_heartbeat (read payload)) now (counted now s),
)

-- A client that sends more than four heartbeats within one window of a second is disconnected:
-- counting those of the window already, the fifth and all later ones leave the connection closing.
pub rate_limit :
    (read : Bytes → Option Json) (beats : List (ℕ × Bytes)) (s : Session)
    → InWindow s.heartbeat_window beats
    → s.heartbeat_count ≤ 4
    → 4 < s.heartbeat_count + length beats
    → is_closed (handle_all read beats s) ≡ true
unfolding handle_all
rate_limit read [] s w c h = absurd (omega arith)
rate_limit read ((now, payload) ∷ beats) s w c h =
    elim (heartbeat_counts read now payload s w.0 c) [
      | inl shut ↦ closed-handle_all read beats _ shut
      | inr (window, count, small) ↦
          rate_limit read beats _ (subst (λ start. InWindow start beats) (sym window) w.1)
            (omega arith) (omega arith)
    ]
