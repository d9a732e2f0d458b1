-- ===== src/Realtime/Session/Receiving/Buffer.antt =====
-- Heartbeats and the closing of a connection neither read nor change the receive buffer.
use sync_rtc.Prelude.{ℕ, ◌≡◌, refl, true, Option, Bytes, codes, arith}
use sync_rtc.Prelude.Json.{Json}
use sync_rtc.Realtime.Session.{Session, request_close}
use sync_rtc.Realtime.Session.Sending.{send, submit}
use sync_rtc.Realtime.Session.Heartbeats.{
  Beat, bad, plain, sequenced, read_beat, counted, accept_beat, apply_beat, handle_heartbeat,
  sequence_reply,
}
use sync_rtc.Realtime.Session.Receiving.{with_buffer}

module _ (b : Bytes) where
  pub request_close-with_buffer :
      (s : Session) → request_close (with_buffer b s) ≡ with_buffer b (request_close s)
  unfolding request_close
  request_close-with_buffer s = refl

  accept_beat-with_buffer :
      (now : ℕ) (reply : Bytes) (s : Session)
      → accept_beat now reply (with_buffer b s) ≡ with_buffer b (accept_beat now reply s)
  unfolding accept_beat send submit request_close
  accept_beat-with_buffer now reply s = ground arith

  apply_beat-with_buffer :
      (beat : Beat) (now : ℕ) (s : Session)
      → apply_beat beat now (with_buffer b s) ≡ with_buffer b (apply_beat beat now s)
  unfolding apply_beat
  apply_beat-with_buffer bad now s = request_close-with_buffer s
  apply_beat-with_buffer plain now s = accept_beat-with_buffer now (codes "{}") s
  apply_beat-with_buffer (sequenced text n) now s = ground (
    arith,
    accept_beat-with_buffer now (sequence_reply text) (record s {
      heart = record s.heart { sequenced_heartbeat = true; heartbeat_sequence = n };
    }),
  )

  pub handle_heartbeat-with_buffer :
      (read : Bytes → Option Json) (now : ℕ) (payload : Bytes) (s : Session)
      → handle_heartbeat read now payload (with_buffer b s)
        ≡ with_buffer b (handle_heartbeat read now payload s)
  unfolding handle_heartbeat
  handle_heartbeat-with_buffer read now payload s = ground (
    arith,
    request_close-with_buffer s,
    request_close-with_buffer (counted now s),
    apply_beat-with_buffer (read_beat s.sequenced_heartbeat (read payload)) now (counted now s),
  )
