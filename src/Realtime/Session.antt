-- ===== src/Realtime/Session.antt =====
-- Session (RealtimeServer/include/net/Session.h and src/net/Session.cpp): one TCP connection of a
-- client. Here are its state and the small operations; the files below hold reading and writing.
pub mod Sending
pub mod Heartbeats
pub mod Receiving
use sync_rtc.Prelude.{
  ℕ, zero, suc, ◌+◌, ◌*◌, Bool, true, false, Option, none, some, List, [], ◌∷◌, ◌||◌, ◌==◌,
  if◌then◌else◌, ℤ, pos, Bytes,
}
use sync_rtc.Realtime.IoWakeup.{IoWakeup, notify}

-- One second of the steady clock, whose readings are nanoseconds.
abbrev pub second : ℕ
second = 1_000_000_000

-- What the senders and the I/O thread share under m_send_mutex, with the queue of the I/O thread.
pub record Outbox : Type 0 where
  -- m_pending, m_pending_bytes, m_pending_frames
  pub pending : List Bytes
  pub pending_bytes : ℕ
  pub pending_frames : ℕ
  pub closed : Bool
  pub close_requested : Bool
  -- m_send_queue and m_send_offset
  pub send_queue : List Bytes
  pub send_offset : ℕ

pub record Heartbeat : Type 0 where
  pub heartbeat_enabled : Bool
  pub sequenced_heartbeat : Bool
  pub heartbeat_sequence : ℕ
  pub created_at : ℕ
  pub last_heartbeat : ℕ
  pub heartbeat_window : ℕ
  pub heartbeat_count : ℕ
  pub recheck_used : Bool
  pub recheck_until : ℕ

-- A session with the wakeup object that it shares with its server (none in a test without one).
pub record Session : Type 0 where
  pub fd : ℕ
  pub token : ℕ
  pub user_id : ℤ
  pub auth_token : Bytes
  pub meeting_id : ℕ
  pub media_signal_id : ℕ
  pub receive_buffer : Bytes
  pub heart : Heartbeat
  pub open heart use *
  pub outbox : Outbox
  pub open outbox use *
  pub wakeup : Option IoWakeup

unfoldable pub new_session : ℕ → Option IoWakeup → ℕ → ℕ → Session
new_session fd wakeup token now = record {
  fd = fd;
  token = token;
  user_id = pos 0;
  auth_token = [];
  meeting_id = 0;
  media_signal_id = 0;
  receive_buffer = [];
  heart = record {
    heartbeat_enabled = false;
    sequenced_heartbeat = false;
    heartbeat_sequence = 0;
    created_at = now;
    last_heartbeat = 0;
    heartbeat_window = 0;
    heartbeat_count = 0;
    recheck_used = false;
    recheck_until = 0;
  };
  outbox = record {
    pending = [];
    pending_bytes = 0;
    pending_frames = 0;
    closed = false;
    close_requested = false;
    send_queue = [];
    send_offset = 0;
  };
  wakeup = wakeup;
}

unfoldable pub set_user_id : ℤ → Session → Session
set_user_id uid s = record s { user_id = uid }

unfoldable pub set_meeting_id : ℕ → Session → Session
set_meeting_id id s = record s { meeting_id = id }

unfoldable pub set_media_signal_id : ℕ → Session → Session
set_media_signal_id id s = record s { media_signal_id = id }

-- compare_exchange_strong(expected, 0)
unfoldable pub clear_media_signal_id : ℕ → Session → Session
clear_media_signal_id expected s =
    if s.media_signal_id == expected then record s { media_signal_id = 0 } else s

abbrev pub is_closed : Session → Bool
is_closed s = s.closed || s.close_requested

-- `m_wakeup->Notify(m_token)`, and true where there is no wakeup object.
unfoldable pub notify_io : Option IoWakeup → ℕ → Option IoWakeup × Bool
notify_io none token = (none, true)
notify_io (some w) token = let (w', told) = notify token w in (some w', told)

abbrev pub mark_closing : Outbox → Outbox
mark_closing o = record o { close_requested = true }

unfoldable pub request_close : Session → Session
unfolding notify_io
request_close s = record s {
  outbox = mark_closing s.outbox;
  wakeup = (notify_io s.wakeup s.token).0;
}
