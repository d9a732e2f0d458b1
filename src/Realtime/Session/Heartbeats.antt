-- ===== src/Realtime/Session/Heartbeats.antt =====
-- Session::HandleHeartbeat and ConnectionExpired. The JSON reader is jsoncpp's and a parameter; its
-- answer `none` is a text that is no JSON, or breaks the strict settings of the source.
pub mod Limits
pub mod Grace
use sync_rtc.Prelude.{
  ℕ, zero, suc, ◌+◌, ◌-◌, ◌*◌, ◌%◌, ◌^◌, Bool, true, false, not, Option, none, some, List, [], ◌∷◌,
  ◌++◌, ◌&&◌, ◌||◌, ltb, leb, ◌==◌, if◌then◌else◌, length, is_empty, is_positive, Bytes, codes,
}
use sync_rtc.Prelude.Json.{
  Json, null, bool, integer, real, str, arr, obj, Fields, end, field, field_count, member,
}
use sync_rtc.Realtime.Session.{Session, Heartbeat, second, request_close}
use sync_rtc.Realtime.Session.Sending.{send}

abbrev pub heartbeat_response : ℕ
heartbeat_response = 1049

abbrev pub is_digit : ℕ → Bool
is_digit c = leb b'0' c && leb c b'9'

abbrev pub all_digits : Bytes → Bool
all_digits [] = true
all_digits (c ∷ cs) = is_digit c && all_digits cs

abbrev pub digits_value : ℕ → Bytes → ℕ
digits_value n [] = n
digits_value n (c ∷ cs) = digits_value (n * 10 + (c - b'0')) cs

-- sequence.front() == '0'
abbrev pub zero_first : Bytes → Bool
zero_first [] = false
zero_first (c ∷ cs) = c == b'0'

-- The number of a sequence text: std::from_chars into an uint64_t reads it to its end.
unfoldable pub sequence_number : Bytes → Option ℕ
sequence_number s =
    if is_empty s
      || (ltb 20 (length s)
          || (zero_first s || (not (all_digits s) || leb (2 ^ 64) (digits_value 0 s))))
    then none
    else some (digits_value 0 s)

-- What a payload asks for.
pub data Beat : Type 0 where
  bad : Beat
  plain : Beat
  sequenced : Bytes → ℕ → Beat

abbrev pub sequenced_beat : Bytes → Option ℕ → Beat
sequenced_beat s none = bad
sequenced_beat s (some n) = sequenced s n

abbrev pub sequence_beat : Json → Beat
sequence_beat (str s) = sequenced_beat s (sequence_number s)
sequence_beat _ = bad

-- `mode` is m_sequenced_heartbeat: an empty object is refused once the numbers are in use.
unfoldable pub read_beat : Bool → Option Json → Beat
unfolding sequence_number
read_beat mode (some (obj fields)) =
    if field_count fields == 0 && not mode
    then plain
    else if field_count fields == 1
    then sequence_beat (member "seq" fields)
    else bad
read_beat mode _ = bad

abbrev pub count_beat : ℕ → Heartbeat → Heartbeat
count_beat now h =
    if leb second (now - h.heartbeat_window)
    then record h { heartbeat_window = now; heartbeat_count = 1 }
    else record h { heartbeat_count = (h.heartbeat_count + 1) % 2 ^ 32 }

abbrev pub renew : ℕ → Heartbeat → Heartbeat
renew now h = record h { heartbeat_enabled = true; last_heartbeat = now; recheck_used = false }

abbrev pub sequence_reply : Bytes → Bytes
sequence_reply s = codes "{\"seq\":\"" ++ (s ++ codes "\"}")

abbrev pub or_close : Session × Bool → Session
or_close (s, sent) = if sent then s else request_close s

unfoldable pub accept_beat : ℕ → Bytes → Session → Session
accept_beat now reply s =
    or_close (send heartbeat_response reply (record s { heart = renew now s.heart }))

unfoldable pub apply_beat : Beat → ℕ → Session → Session
apply_beat bad now s = request_close s
apply_beat plain now s = accept_beat now (codes "{}") s
apply_beat (sequenced text number) now s =
    if leb number s.heartbeat_sequence
    then s
    else accept_beat now (sequence_reply text) (record s {
      heart = record s.heart { sequenced_heartbeat = true; heartbeat_sequence = number };
    })

abbrev pub counted : ℕ → Session → Session
counted now s = record s { heart = count_beat now s.heart }

unfoldable pub handle_heartbeat : (Bytes → Option Json) → ℕ → Bytes → Session → Session
unfolding apply_beat
handle_heartbeat read now payload s =
    if not (is_positive s.user_id) || ltb 96 (length payload)
    then request_close s
    else if ltb 4 (count_beat now s.heart).heartbeat_count
    then request_close (counted now s)
    else apply_beat (read_beat s.sequenced_heartbeat (read payload)) now (counted now s)

abbrev pub overdue : ℕ → Session → Bool
overdue now s =
    if is_positive s.user_id
    then s.heartbeat_enabled && leb (20 * second) (now - s.last_heartbeat)
    else leb (30 * second) (now - s.created_at)

-- One bounded second chance after a long pause of the I/O thread.
abbrev pub grant_recheck : ℕ → Bool → Heartbeat → Heartbeat
grant_recheck now allow_recheck h =
    if allow_recheck && not h.recheck_used
    then record h { recheck_used = true; recheck_until = now + 3 * second }
    else h

unfoldable pub connection_expired : ℕ → Bool → Session → Session × Bool
connection_expired now allow_recheck s =
    if overdue now s
    then (let h = grant_recheck now allow_recheck s.heart in
        (record s { heart = h }, not h.recheck_used || leb h.recheck_until now))
    else (s, false)
