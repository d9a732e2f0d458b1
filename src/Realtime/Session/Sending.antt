-- ===== src/Realtime/Session/Sending.antt =====
-- Sending (Session::Send, HandleWrite, HasPendingWrite and Close).
pub mod Loop
pub mod Accounting
pub mod Stream
pub mod History
use sync_rtc.Prelude.{
  ℕ, zero, suc, ◌+◌, ◌-◌, ◌*◌, ◌^◌, min, Bool, true, false, not, List, [], ◌∷◌, ◌++◌, ◌||◌, ltb,
  leb, ◌==◌, if◌then◌else◌, length, is_empty, take, drop, Bytes,
}
use sync_rtc.Wire.{write16}
use sync_rtc.Realtime.Session.{Session, Outbox, notify_io, mark_closing, request_close}

abbrev pub header_length : ℕ
header_length = 4

abbrev pub io_budget : ℕ
io_budget = 64 * 1024

abbrev pub max_pending_bytes : ℕ
max_pending_bytes = 4 * 1024 * 1024

abbrev pub max_pending_frames : ℕ
max_pending_frames = 1024

-- The frame that Send builds: request id, payload length, payload.
unfoldable pub encode : ℕ → Bytes → Bytes
unfolding write16
encode request_id payload = write16 request_id ++ (write16 (length payload) ++ payload)

unfoldable pub enqueue : Bytes → Outbox → Outbox
enqueue message o = record o {
  pending = o.pending ++ message ∷ [];
  pending_bytes = o.pending_bytes + length message;
  pending_frames = o.pending_frames + 1;
}

-- The part of Send under the lock, with the answer of the wakeup object.
unfoldable pub submit : Bytes → Session → Session × Bool
unfolding enqueue
submit message s =
    let (w, told) = notify_io s.wakeup s.token in
    if s.closed || s.close_requested
    then (s, false)
    else if ltb (max_pending_bytes - s.pending_bytes) (length message)
        || leb max_pending_frames s.pending_frames
    then (record s { outbox = mark_closing s.outbox; wakeup = w }, false)
    else if told
    then (record s { outbox = enqueue message s.outbox; wakeup = w }, true)
    else (record s { outbox = mark_closing (enqueue message s.outbox); wakeup = w }, false)

unfoldable pub send : ℕ → Bytes → Session → Session × Bool
send request_id payload s =
    if ltb (2 ^ 16 - 1) (length payload) then (s, false) else submit (encode request_id payload) s

-- What one call of send(2) reports. `accepted n`: the kernel took n bytes, of those offered.
pub data SendResult : Type 0 where
  accepted : ℕ → SendResult
  interrupted : SendResult
  would_block : SendResult
  failed : SendResult

-- The kernel took `count` bytes of the message in front.
unfoldable pub advance : Bytes → List Bytes → ℕ → Outbox → Outbox
advance message rest count o =
    if o.send_offset + count == length message
    then record o {
      pending_bytes = o.pending_bytes - length message;
      pending_frames = o.pending_frames - 1;
      send_queue = rest;
      send_offset = 0;
    }
    else record o { send_offset = o.send_offset + count }

abbrev pub Written : Type 0
Written = Outbox × Bytes × Bool

abbrev pub after_chunk : Bytes → Written → Written
after_chunk chunk (o, out, alive) = (o, chunk ++ out, alive)

-- One answer of the kernel for `count` bytes offered and taken; `again` is the rest of the loop.
unfoldable pub take_chunk : ℕ → Bytes → List Bytes → ℕ → Outbox → (ℕ → Outbox → Written) → Written
unfolding advance
take_chunk zero message rest written o again = (o, [], false)
take_chunk (suc c) message rest written o again =
    after_chunk (take (suc c) (drop o.send_offset message))
      (again (written + suc c) (advance message rest (suc c) o))

unfoldable pub write_front : List Bytes → SendResult → ℕ → Outbox → (ℕ → Outbox → Written) → Written
unfolding take_chunk
write_front [] r written o again = (o, [], true)
write_front (message ∷ rest) r written o again =
    if leb io_budget written then (o, [], true) else elim r [
      | accepted n ↦
          take_chunk (min n (min (io_budget - written) (length message - o.send_offset))) message
            rest written o again
      | interrupted ↦ again written o
      | would_block ↦ (o, [], true)
      | failed ↦ (o, [], false)
    ]

-- The loop of HandleWrite over the answers of the kernel. The answers past the last one are
-- EAGAIN. Beside the new state it gives the bytes that the kernel took and the returned flag.
unfoldable pub write_loop : List SendResult → ℕ → Outbox → Written
unfolding write_front
write_loop [] written o = (o, [], true)
write_loop (r ∷ rs) written o = write_front o.send_queue r written o (write_loop rs)

-- m_send_queue.swap(m_pending) where the queue is empty
unfoldable pub refill : Outbox → Outbox
refill o = if is_empty o.send_queue then record o { send_queue = o.pending; pending = [] } else o

unfoldable pub handle_write : List SendResult → Outbox → Written
unfolding write_loop refill
handle_write rs o =
    if o.closed || o.close_requested then (o, [], false) else write_loop rs 0 (refill o)

unfoldable pub has_pending_write : Outbox → Bool
has_pending_write o = o.close_requested || not (o.pending_frames == 0)

unfoldable pub close : Outbox → Outbox
close o = record o {
  closed = true;
  pending = [];
  send_queue = [];
  pending_bytes = 0;
  pending_frames = 0;
  send_offset = 0;
}

-- What happens to the outbox of one connection, in the order in which m_send_mutex admits it.
pub data Event : Type 0 where
  sends : ℕ → Bytes → Event
  writes : List SendResult → Event
  requests_close : Event
  closes : Event

unfoldable pub step : Session → Event → Session
step s (sends request_id payload) = (send request_id payload s).0
step s (writes results) = record s { outbox = (handle_write results s.outbox).0 }
step s requests_close = request_close s
step s closes = record s { outbox = close s.outbox }

unfoldable pub run : Session → List Event → Session
run s [] = s
run s (e ∷ es) = run (step s e) es
