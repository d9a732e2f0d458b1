-- ===== src/Realtime/Session/Sending/Accounting.antt =====
-- The quota of the send queue: what it counts, and that it holds at every moment.
use sync_rtc.Prelude.{
  ℕ, suc, ◌+◌, ◌-◌, ◌≤◌, ◌<◌, ◌≡◌, refl, ap, subst, true, List, [], ◌∷◌, ◌++◌, length,
  length-append, Bytes, arith, Option,
}
use sync_rtc.Realtime.Session.Sending.Loop.{write_loop_rule, refill_rule}
use sync_rtc.Realtime.IoWakeup.{IoWakeup}
use sync_rtc.Realtime.Session.{Session, Outbox, new_session, request_close}
use sync_rtc.Realtime.Session.Sending.{
  max_pending_bytes, max_pending_frames, header_length, encode, enqueue, submit, send, SendResult,
  advance, write_loop, refill, handle_write, close, Event, sends, writes, requests_close, closes,
  step, run,
}

abbrev pub total : List Bytes → ℕ
total [] = 0
total (m ∷ ms) = length m + total ms

total-append : (ms ns : List Bytes) → total (ms ++ ns) ≡ total ms + total ns
total-append [] ns = omega arith
total-append (m ∷ ms) ns = omega (arith, total-append ms ns)

-- Every frame has its header.
abbrev pub AllFrames : List Bytes → Type 0
AllFrames [] = Unit {0}
AllFrames (m ∷ ms) = (header_length ≤ length m) × AllFrames ms

AllFrames-snoc :
    (ms : List Bytes) (m : Bytes)
    → AllFrames ms
    → header_length ≤ length m
    → AllFrames (ms ++ m ∷ [])
AllFrames-snoc [] m a h = (h, tt)
AllFrames-snoc (x ∷ xs) m a h = (a.0, AllFrames-snoc xs m a.1 h)

-- The offset lies inside the frame in front.
abbrev pub OffsetWithin : List Bytes → ℕ → Type 0
OffsetWithin [] offset = offset ≡ 0
OffsetWithin (m ∷ ms) offset = offset < length m

OffsetWithin-zero : (ms : List Bytes) → AllFrames ms → OffsetWithin ms 0
OffsetWithin-zero [] a = refl
OffsetWithin-zero (m ∷ ms) a = omega arith

pub record IsCounted (o : Outbox) : Type 0 where
  pub bytes_counted : o.pending_bytes ≡ total o.send_queue + total o.pending
  pub frames_counted : o.pending_frames ≡ length o.send_queue + length o.pending
  pub bytes_bounded : o.pending_bytes ≤ max_pending_bytes
  pub frames_bounded : o.pending_frames ≤ max_pending_frames
  pub offset_within : OffsetWithin o.send_queue o.send_offset
  pub queued_frames : AllFrames o.send_queue
  pub pending_frames_full : AllFrames o.pending

enqueue-IsCounted :
    (message : Bytes) (o : Outbox)
    → IsCounted o
    → header_length ≤ length message
    → o.pending_bytes + length message ≤ max_pending_bytes
    → o.pending_frames < max_pending_frames
    → IsCounted (enqueue message o)
unfolding enqueue
enqueue-IsCounted message o v h b f = record {
  bytes_counted = omega (arith, v.bytes_counted, total-append o.pending (message ∷ []));
  frames_counted = omega (arith, v.frames_counted, length-append o.pending (message ∷ []));
  bytes_bounded = b;
  frames_bounded = omega arith;
  offset_within = v.offset_within;
  queued_frames = v.queued_frames;
  pending_frames_full = AllFrames-snoc o.pending message v.pending_frames_full h;
}

closing-IsCounted : (o : Outbox) → IsCounted o → IsCounted (record o { close_requested = true })
closing-IsCounted o v = record {
  bytes_counted = v.bytes_counted;
  frames_counted = v.frames_counted;
  bytes_bounded = v.bytes_bounded;
  frames_bounded = v.frames_bounded;
  offset_within = v.offset_within;
  queued_frames = v.queued_frames;
  pending_frames_full = v.pending_frames_full;
}

length-encode : (id : ℕ) (payload : Bytes) → header_length ≤ length (encode id payload)
unfolding encode
length-encode id payload = omega arith

submit-IsCounted :
    (message : Bytes) (s : Session)
    → IsCounted s.outbox
    → header_length ≤ length message
    → IsCounted (submit message s).0.outbox
unfolding submit
submit-IsCounted message s v h = ground (
  arith,
  closing-IsCounted s.outbox v,
  enqueue-IsCounted message s.outbox v h,
  closing-IsCounted (enqueue message s.outbox),
)

send-IsCounted :
    (id : ℕ) (payload : Bytes) (s : Session)
    → IsCounted s.outbox
    → IsCounted (send id payload s).0.outbox
unfolding send
send-IsCounted id payload s v =
    ground (arith, v, submit-IsCounted (encode id payload) s v (length-encode id payload))

-- One chunk that the kernel took keeps the accounts.
pub advance-IsCounted :
    (message : Bytes) (rest : List Bytes) (count : ℕ) (o : Outbox)
    → IsCounted o
    → o.send_queue ≡ message ∷ rest
    → count ≤ length message - o.send_offset
    → IsCounted (advance message rest count o)
unfolding advance
advance-IsCounted message rest count o v e h =
    let within : OffsetWithin (message ∷ rest) o.send_offset =
      subst (λ q. OffsetWithin q o.send_offset) e v.offset_within in
    let full : AllFrames (message ∷ rest) = subst AllFrames e v.queued_frames in
    ground (arith, v, ap total e, ap length e, OffsetWithin-zero rest full.1)

pub refill-IsCounted : (o : Outbox) → IsCounted o → IsCounted (refill o)
refill-IsCounted o v =
    refill_rule IsCounted o
      (λ e.
        ground
          (arith, v, ap total e, ap length e, OffsetWithin-zero o.pending v.pending_frames_full))
      v

close-IsCounted : (o : Outbox) → IsCounted (close o)
unfolding close
close-IsCounted o = record {
  bytes_counted = refl;
  frames_counted = refl;
  bytes_bounded = omega arith;
  frames_bounded = omega arith;
  offset_within = refl;
  queued_frames = tt;
  pending_frames_full = tt;
}

handle_write-IsCounted :
    (rs : List SendResult) (o : Outbox) → IsCounted o → IsCounted (handle_write rs o).0
unfolding handle_write
handle_write-IsCounted rs o v = ground (arith, v, loop)
  where
    loop : IsCounted (write_loop rs 0 (refill o)).0
    loop =
        write_loop_rule (λ _ p res. IsCounted p → IsCounted res.0) (λ _ p _ w. w)
          (λ _ p message rest c res e _ h keep w.
            keep (advance-IsCounted message rest (suc c) p w e h))
          rs 0 (refill o) (refill-IsCounted o v)

pub step-IsCounted : (s : Session) (e : Event) → IsCounted s.outbox → IsCounted (step s e).outbox
unfolding step request_close
step-IsCounted s (sends id payload) v = send-IsCounted id payload s v
step-IsCounted s (writes rs) v = handle_write-IsCounted rs s.outbox v
step-IsCounted s requests_close v = closing-IsCounted s.outbox v
step-IsCounted s closes v = close-IsCounted s.outbox

run-IsCounted : (s : Session) (es : List Event) → IsCounted s.outbox → IsCounted (run s es).outbox
unfolding run
run-IsCounted s [] v = v
run-IsCounted s (e ∷ es) v = run-IsCounted (step s e) es (step-IsCounted s e v)

pub new_session-IsCounted :
    (fd : ℕ) (wakeup : Option IoWakeup) (token now : ℕ)
    → IsCounted (new_session fd wakeup token now).outbox
unfolding new_session
new_session-IsCounted fd wakeup token now = record {
  bytes_counted = refl;
  frames_counted = refl;
  bytes_bounded = omega arith;
  frames_bounded = omega arith;
  offset_within = refl;
  queued_frames = tt;
  pending_frames_full = tt;
}

-- At every moment of a connection's life the quota counters are exactly the bytes and the frames
-- that are queued, a frame in the middle of its transmission included; they stay within 4 MiB and
-- 1024 frames, and the send offset lies inside the frame in front.
pub run-new-IsCounted :
    (fd : ℕ) (wakeup : Option IoWakeup) (token now : ℕ) (es : List Event)
    → IsCounted (run (new_session fd wakeup token now) es).outbox
run-new-IsCounted fd wakeup token now es =
    run-IsCounted _ es (new_session-IsCounted fd wakeup token now)
