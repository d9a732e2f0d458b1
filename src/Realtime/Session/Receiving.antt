-- ===== src/Realtime/Session/Receiving.antt =====
-- Session::HandleRead and ParseFrames. LogicSystem, jsoncpp and the steady clock stand behind an
-- interface: what it makes of a frame is up to it, and a refusal closes the connection as PostMsgToQue
-- does; every heartbeat reads the clock anew.
pub mod Buffer
pub mod Chunks
pub mod Frames
use sync_rtc.Prelude.{
  ℕ, zero, suc, ◌+◌, ◌-◌, ◌*◌, Bool, true, false, Option, List, [], ◌∷◌, ◌++◌, ltb, leb, ◌==◌,
  if◌then◌else◌, length, take, drop, Bytes,
}
use sync_rtc.Prelude.Json.{Json}
use sync_rtc.Wire.{read16}
use sync_rtc.Realtime.Session.{Session, is_closed, request_close}
use sync_rtc.Realtime.Session.Sending.{io_budget}
use sync_rtc.Realtime.Session.Heartbeats.{handle_heartbeat}

-- The part of a LogicNode that comes from the wire.
pub record Frame : Type 0 where
  pub request_id : ℕ
  pub payload : Bytes

pub record Env : Type 1 where
  -- LogicSystem and the clock, and PostMsgToQue: false where the queue of the connection is full
  pub Logic : Type 0
  pub post : Frame → Logic → Logic × Bool
  -- steady_clock::now
  pub read_clock : Logic → Logic × ℕ
  -- the strict reader of HandleHeartbeat
  pub read_json : Bytes → Option Json

abbrev pub heartbeat_request : ℕ
heartbeat_request = 1048

-- Ids from here on name events inside LogicSystem.
abbrev pub first_internal_id : ℕ
first_internal_id = 0xFFF0

abbrev pub with_buffer : Bytes → Session → Session
with_buffer buffer s = record s { receive_buffer = buffer }

-- What a call of recv(2) reports.
pub data RecvResult : Type 0 where
  received : Bytes → RecvResult
  interrupted : RecvResult
  would_block : RecvResult
  failed : RecvResult

module _ (env : Env) where
  open env use {Logic, post, read_clock, read_json}

  abbrev post_frame : Frame → Session → Logic → Session × Logic
  post_frame frame s l =
      let (l', taken) = post frame l in (if taken then s else request_close s, l')

  abbrev continue : (Session → Logic → Session × Logic) → Session × Logic → Session × Logic
  continue again (s, l) = again s l

  abbrev continue_open : (Session → Logic → Session × Logic) → Session → Logic → Session × Logic
  continue_open again s l = if is_closed s then (s, l) else again s l

  abbrev beat : (Session → Logic → Session × Logic) → Bytes → Session → Logic × ℕ → Session × Logic
  beat again body s (l, now) = continue_open again (handle_heartbeat read_json now body s) l

  -- A whole frame, taken off the buffer; `again` is the rest of the loop.
  unfoldable pub handle_frame :
      ℕ → Bytes → Session → Logic → (Session → Logic → Session × Logic) → Session × Logic
  handle_frame id body s l again =
      if id == heartbeat_request
      then beat again body s (read_clock l)
      else continue again (post_frame (record { request_id = id; payload = body }) s l)

  -- One round of the loop, on the bytes of the buffer.
  unfoldable pub parse_front :
      Bytes → Session → Logic → (Session → Logic → Session × Logic) → Session × Logic
  unfolding handle_frame
  parse_front (b₀ ∷ (b₁ ∷ (b₂ ∷ (b₃ ∷ body)))) s l again =
      if leb first_internal_id (read16 b₀ b₁)
      then (request_close s, l)
      else if ltb (length body) (read16 b₂ b₃)
      then (s, l)
      else handle_frame (read16 b₀ b₁) (take (read16 b₂ b₃) body)
          (with_buffer (drop (read16 b₂ b₃) body) s) l again
  parse_front _ s l again = (s, l)

  unfoldable pub parse_loop : ℕ → Session → Logic → Session × Logic
  unfolding parse_front
  parse_loop zero s l = (s, l)
  parse_loop (suc fuel) s l = parse_front s.receive_buffer s l (parse_loop fuel)

  -- Every round takes four bytes at least, so the length of the buffer is fuel enough.
  unfoldable pub parse_frames : Session → Logic → Session × Logic
  unfolding parse_loop
  parse_frames s l = parse_loop (suc (length s.receive_buffer)) s l

  -- append, then ParseFrames
  unfoldable pub feed : Bytes → Session → Logic → Session × Logic
  unfolding parse_frames
  feed bytes s l = parse_frames (with_buffer (s.receive_buffer ++ bytes) s) l

  abbrev after_feed :
      (Session → Logic → Session × Logic × Bool) → Session × Logic → Session × Logic × Bool
  after_feed again (s, l) = if is_closed s then (s, l, false) else again s l

  abbrev receive :
      (ℕ → Session → Logic → Session × Logic × Bool)
      → RecvResult
      → ℕ
      → Session
      → Logic
      → Session × Logic × Bool
  receive again (received []) got s l = (s, l, false)
  receive again (received (b ∷ bytes)) got s l =
      after_feed (again (got + length (b ∷ bytes))) (feed (b ∷ bytes) s l)
  receive again interrupted got s l = again got s l
  receive again would_block got s l = (s, l, true)
  receive again failed got s l = (s, l, false)

  unfoldable pub read_loop : List RecvResult → ℕ → Session → Logic → Session × Logic × Bool
  unfolding feed
  read_loop [] got s l = (s, l, true)
  read_loop (r ∷ rs) got s l =
      let again = read_loop rs in
      if leb io_budget got then (s, l, true) else receive again r got s l

  unfoldable pub handle_read : List RecvResult → Session → Logic → Session × Logic × Bool
  unfolding read_loop
  handle_read rs s l = read_loop rs 0 s l
