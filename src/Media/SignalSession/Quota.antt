-- ===== src/Media/SignalSession/Quota.antt =====
-- The quota counters of a Session of MediaServer.
use sync_rtc.Prelude.{
  ℕ, ◌+◌, ◌≤◌, ◌≡◌, refl, Bool, true, false, Option, none, some, List, [], ◌∷◌, ◌++◌, if◌then◌else◌,
  length, length-append, Bytes, arith,
}
use sync_rtc.Wire.{write32}
use sync_rtc.Media.SignalSession.{
  SignalSession, max_pending_bytes, max_pending_frames, stop, frame, send, pop, take_frame,
  finish_frame, abandon, send_all, SignalTurn, sends, stops, loops, conclude, act, send_turn,
  send_turns,
}

abbrev pub total : List Bytes → ℕ
total [] = 0
total (m ∷ ms) = length m + total ms

abbrev pub held : Option Bytes → List Bytes
held none = []
held (some m) = m ∷ []

-- Until the session stops, the counters are the bytes and the frames of the queue and of the frame
-- that is being written.
pub record IsQuoted (s : SignalSession) : Type 0 where
  pub bytes : s.stopping ≡ false → s.pending_bytes ≡ total (held s.sending) + total s.send_queue
  pub frames : s.stopping ≡ false → s.pending_frames ≡ length (held s.sending) + length s.send_queue
  pub below : (s.pending_bytes ≤ max_pending_bytes) × (s.pending_frames ≤ max_pending_frames)
  pub dropped :
      s.stopping ≡ true → (s.send_queue ≡ []) × (s.pending_bytes ≡ 0) × (s.pending_frames ≡ 0)
  pub works : s.left ≡ true → s.stopping ≡ true

total-append : (ms : List Bytes) (m : Bytes) → total (ms ++ m ∷ []) ≡ total ms + length m
total-append [] m = omega arith
total-append (x ∷ ms) m = omega (arith, total-append ms m)

length-frame : (payload : Bytes) → length (frame payload) ≡ length payload + 4
unfolding frame write32
length-frame payload = omega arith

stop-IsQuoted : (s : SignalSession) → IsQuoted s → IsQuoted (stop s)
unfolding stop
stop-IsQuoted s v = record {
  bytes = ground (arith, v.bytes);
  frames = ground (arith, v.frames);
  below = ground (arith, v.below);
  dropped = ground (arith, v.dropped);
  works = ground (arith, v.works);
}

send-IsQuoted : (payload : Bytes) (s : SignalSession) → IsQuoted s → IsQuoted (send payload s).0
unfolding send stop
send-IsQuoted payload s v = record {
  bytes = ground (arith, v.bytes, total-append s.send_queue (frame payload));
  frames = ground (arith, v.frames, length-append s.send_queue (frame payload ∷ []));
  below = ground (arith, v.below, length-frame payload);
  dropped = ground (arith, v.dropped);
  works = ground (arith, v.works);
}

take_frame-IsQuoted : (s : SignalSession) → s.sending ≡ none → IsQuoted s → IsQuoted (take_frame s)
unfolding take_frame
take_frame-IsQuoted s e v = go s.send_queue refl
  where
    go :
        (q : List Bytes)
        → s.send_queue ≡ q
        → IsQuoted (if s.stopping then record s { left = true } else pop q s)
    go [] f = record {
      bytes = ground (arith, v.bytes);
      frames = ground (arith, v.frames);
      below = ground (arith, v.below);
      dropped = ground (arith, v.dropped);
      works = ground (arith, v.works);
    }
    go (m ∷ rest) f = record {
      bytes = ground (arith, v.bytes, e, f);
      frames = ground (arith, v.frames, e, f);
      below = ground (arith, v.below);
      dropped = ground (arith, v.dropped);
      works = ground (arith, v.works);
    }

conclude-IsQuoted :
    (message : Bytes) (x : Bytes × Option Bool) (s : SignalSession)
    → s.sending ≡ some message
    → IsQuoted s
    → IsQuoted (conclude message x s)
unfolding finish_frame abandon stop
conclude-IsQuoted message (out, none) s e v = v
conclude-IsQuoted message (out, some true) s e v = record {
  bytes = ground (arith, v.bytes, e);
  frames = ground (arith, v.frames, e);
  below = ground (arith, v.below);
  dropped = ground (arith, v.dropped);
  works = ground (arith, v.works);
}
conclude-IsQuoted message (out, some false) s e v = record {
  bytes = ground (arith, v.bytes, e);
  frames = ground (arith, v.frames, e);
  below = ground (arith, v.below);
  dropped = ground (arith, v.dropped);
  works = ground (arith, v.works);
}

turn-IsQuoted : (s : SignalSession) (t : SignalTurn) → IsQuoted s → IsQuoted (send_turn s t)
unfolding send_turn
turn-IsQuoted s (sends payload) v = send-IsQuoted payload s v
turn-IsQuoted s stops v = stop-IsQuoted s v
turn-IsQuoted s (loops rs) v = go s.left s.sending refl
  where
    go : (b : Bool) (o : Option Bytes) → s.sending ≡ o → IsQuoted (if b then s else act o rs s)
    go true o e = v
    go false none e = take_frame-IsQuoted s e v
    go false (some m) e = conclude-IsQuoted m (send_all rs m) s e v

-- However the threads take turns, the quota counters of a working connection are exactly the bytes
-- and frames that it holds, the one that is being written included, and never above 4 MiB and 1024
-- frames; a stopped one holds nothing in its queue, and the sending thread leaves only then.
pub send_turns-IsQuoted :
    (s : SignalSession) (ts : List SignalTurn) → IsQuoted s → IsQuoted (send_turns s ts)
unfolding send_turns
send_turns-IsQuoted s [] v = v
send_turns-IsQuoted s (t ∷ ts) v = send_turns-IsQuoted (send_turn s t) ts (turn-IsQuoted s t v)
