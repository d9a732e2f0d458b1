-- ===== src/Media/SignalSession.antt =====
-- Session of MediaServer (MediaServer/src/net/Session.cpp): one connection of the Unix socket. Other
-- threads call Send and Stop, the connection's own thread runs SendLoop; they take turns under
-- m_send_mutex. Send gives the mutex back before its Stop; a frame taken over in between is dropped
-- by that Stop, and the two are one turn here. `sending` is the frame that the thread writes without the mutex.
pub mod Quota
pub mod Receiving
pub mod Transfer
use sync_rtc.Prelude.{
  ℕ, zero, suc, ◌+◌, ◌-◌, ◌*◌, min, Bool, true, false, not, ◌||◌, Option, none, some, List, [], ◌∷◌,
  ◌++◌, ltb, leb, if◌then◌else◌, length, take, drop, Bytes,
}
use sync_rtc.Wire.{write32}

pub record SignalSession : Type 0 where
  pub send_queue : List Bytes
  pub sending : Option Bytes
  pub pending_bytes : ℕ
  pub pending_frames : ℕ
  pub stopping : Bool
  -- the thread has left SendLoop
  pub left : Bool

unfoldable pub new_signal_session : SignalSession
new_signal_session = record {
  send_queue = [];
  sending = none;
  pending_bytes = 0;
  pending_frames = 0;
  stopping = false;
  left = false;
}

abbrev pub max_pending_bytes : ℕ
max_pending_bytes = 4 * 1024 * 1024

abbrev pub max_pending_frames : ℕ
max_pending_frames = 1024

unfoldable pub stop : SignalSession → SignalSession
stop s =
    if s.stopping
    then s
    else record s { stopping = true; send_queue = []; pending_bytes = 0; pending_frames = 0 }

unfoldable pub frame : Bytes → Bytes
unfolding write32
frame payload = write32 (length payload) ++ payload

abbrev pub push : Bytes → SignalSession → SignalSession
push message s = record s {
  send_queue = s.send_queue ++ message ∷ [];
  pending_bytes = s.pending_bytes + length message;
  pending_frames = s.pending_frames + 1;
}

unfoldable pub send : Bytes → SignalSession → SignalSession × Bool
unfolding frame stop
send payload s =
    if s.stopping
    then (s, false)
    else if ltb (max_pending_bytes - 4) (length payload)
        || (ltb (max_pending_bytes - s.pending_bytes) (length payload + 4)
            || leb max_pending_frames s.pending_frames)
    then (stop s, false)
    else (push (frame payload) s, true)

-- The thread under the mutex: it leaves, waits, or takes a frame.
abbrev pub pop : List Bytes → SignalSession → SignalSession
pop [] s = s
pop (message ∷ rest) s = record s { send_queue = rest; sending = some message }

unfoldable pub take_frame : SignalSession → SignalSession
take_frame s = if s.stopping then record s { left = true } else pop s.send_queue s

-- After SendAll wrote the frame.
unfoldable pub finish_frame : Bytes → SignalSession → SignalSession
finish_frame message s = if s.stopping then record s { sending = none; left = true } else record s {
  sending = none;
  pending_bytes = s.pending_bytes - length message;
  pending_frames = s.pending_frames - 1;
}

-- After SendAll failed.
unfoldable pub abandon : SignalSession → SignalSession
unfolding stop
abandon s = record (stop s) { sending = none; left = true }

-- The answers of the kernel to send(2): it takes a part of what is offered, is interrupted, or
-- fails. What is not answered yet is still blocked.
pub data SendAnswer : Type 0 where
  takes : ℕ → SendAnswer
  interrupted : SendAnswer
  fails : SendAnswer

-- SendAll, with the bytes that went out; `none` while it is blocked.
abbrev pub after : Bytes → Bytes × Option Bool → Bytes × Option Bool
after chunk (out, done) = (chunk ++ out, done)

unfoldable pub send_all : List SendAnswer → Bytes → Bytes × Option Bool
send_all rs [] = ([], some true)
send_all [] (b ∷ bs) = ([], none)
send_all (interrupted ∷ rs) (b ∷ bs) = send_all rs (b ∷ bs)
send_all (fails ∷ rs) (b ∷ bs) = ([], some false)
send_all (takes zero ∷ rs) (b ∷ bs) = ([], some false)
send_all (takes (suc n) ∷ rs) (b ∷ bs) =
    after (take (suc n) (b ∷ bs)) (send_all rs (drop (suc n) (b ∷ bs)))

-- One turn: another thread sends or stops, or the thread acts, with the answers it gets.
pub data SignalTurn : Type 0 where
  sends : Bytes → SignalTurn
  stops : SignalTurn
  loops : List SendAnswer → SignalTurn

abbrev pub conclude : Bytes → Bytes × Option Bool → SignalSession → SignalSession
conclude message (out, none) s = s
conclude message (out, some true) s = finish_frame message s
conclude message (out, some false) s = abandon s

abbrev pub act : Option Bytes → List SendAnswer → SignalSession → SignalSession
act none rs s = take_frame s
act (some message) rs s = conclude message (send_all rs message) s

unfoldable pub send_turn : SignalSession → SignalTurn → SignalSession
unfolding send stop take_frame finish_frame abandon
send_turn s (sends payload) = (send payload s).0
send_turn s stops = stop s
send_turn s (loops rs) = if s.left then s else act s.sending rs s

unfoldable pub send_turns : SignalSession → List SignalTurn → SignalSession
unfolding send_turn
send_turns s [] = s
send_turns s (t ∷ ts) = send_turns (send_turn s t) ts
