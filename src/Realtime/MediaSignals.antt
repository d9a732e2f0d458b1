-- ===== src/Realtime/MediaSignals.antt =====
-- The table of media negotiations (RegisterSignal, FindSignal, RemoveSignal, ReleaseMediaSession and
-- AcceptMediaEvent of RealtimeServer/src/service/LogicDispatch.cpp). A session is known by a number;
-- `signal_ids` is the m_media_signal_id of each. A session that is gone keeps its number, since what
-- the sources do not do to it could not be seen. An epoch numbers a connection to MediaServer.
pub mod Epochs
use sync_rtc.Prelude.{
  ℕ, ◌+◌, Bool, true, false, not, ◌||◌, ◌&&◌, ltb, Option, none, some, List, [], ◌∷◌, ◌++◌, ◌==◌,
  if◌then◌else◌,
}
use sync_rtc.Prelude.Assoc.{Assoc, lookup, assign, erase}

pub record Signal : Type 0 where
  pub session : ℕ
  pub meeting : ℕ
  pub epoch : ℕ

pub record MediaSignals : Type 0 where
  pub signals : Assoc Signal
  pub media_epoch : ℕ
  pub signal_ids : Assoc ℕ

unfoldable pub register_signal : ℕ → ℕ → ℕ → MediaSignals → MediaSignals × ℕ
register_signal id session meeting t = (
  record t {
    signals =
        assign id (record { session = session; meeting = meeting; epoch = t.media_epoch })
          t.signals;
  },
  t.media_epoch,
)

unfoldable pub find_signal : ℕ → MediaSignals → Option Signal
find_signal id t = lookup id t.signals

unfoldable pub remove_signal : ℕ → MediaSignals → MediaSignals
remove_signal id t = record t { signals = erase id t.signals }

abbrev pub signal_id_of : Option ℕ → ℕ
signal_id_of none = 0
signal_id_of (some id) = id

-- SetMediaSignalId, and ClearMediaSignalId with its compare and exchange
unfoldable pub set_signal_id : ℕ → ℕ → MediaSignals → MediaSignals
set_signal_id session id t = record t { signal_ids = assign session id t.signal_ids }

unfoldable pub clear_signal_id : ℕ → ℕ → Assoc ℕ → Assoc ℕ
clear_signal_id session expected ids =
    if signal_id_of (lookup session ids) == expected then assign session 0 ids else ids

-- The leave request that ReleaseMediaSession sends to MediaServer.
pub record Leave : Type 0 where
  pub signal_id : ℕ
  pub meeting_id : ℕ
  pub epoch : ℕ

abbrev pub leave_for : ℕ → ℕ → Option Signal → List Leave
leave_for session id none = []
leave_for session id (some s) =
    if not (s.epoch == 0) && s.session == session
    then record { signal_id = id; meeting_id = s.meeting; epoch = s.epoch } ∷ []
    else []

abbrev pub released_session : ℕ → ℕ → MediaSignals → MediaSignals × List Leave
released_session session id t = if id == 0 then (t, []) else (
  record t { signals = erase id t.signals; signal_ids = clear_signal_id session id t.signal_ids },
  leave_for session id (lookup id t.signals),
)

unfoldable pub release_media_session : ℕ → MediaSignals → MediaSignals × List Leave
unfolding clear_signal_id
release_media_session session t =
    released_session session (signal_id_of (lookup session t.signal_ids)) t

pub data EventKind : Type 0 where
  message : EventKind
  up : EventKind
  down : EventKind

-- The loop over the table
unfoldable pub clear_all : Assoc Signal → Assoc ℕ → Assoc ℕ
unfolding clear_signal_id
clear_all [] ids = ids
clear_all ((id, s) ∷ m) ids = clear_all m (clear_signal_id s.session id ids)

abbrev pub new_epoch : ℕ → MediaSignals → MediaSignals
new_epoch epoch t = record {
  signals = [];
  media_epoch = epoch;
  signal_ids = clear_all t.signals t.signal_ids;
}

-- `is_current` is IsCurrent of the client for the epoch of the table.
unfoldable pub accept_media_event : EventKind → ℕ → Bool → MediaSignals → MediaSignals × Bool
unfolding clear_all
accept_media_event message epoch is_current t = (t, epoch == t.media_epoch && is_current)
accept_media_event up epoch is_current t =
    if ltb epoch t.media_epoch || epoch == t.media_epoch
    then (t, false)
    else (new_epoch epoch t, false)
accept_media_event down epoch is_current t =
    if ltb epoch t.media_epoch then (t, false) else (new_epoch epoch t, false)

pub data SignalCall : Type 0 where
  registers : ℕ → ℕ → ℕ → SignalCall
  removes : ℕ → SignalCall
  sets : ℕ → ℕ → SignalCall
  releases : ℕ → SignalCall
  events : EventKind → ℕ → Bool → SignalCall

unfoldable pub signal_call : SignalCall → MediaSignals → MediaSignals
unfolding register_signal remove_signal set_signal_id release_media_session accept_media_event
signal_call (registers id session meeting) t = (register_signal id session meeting t).0
signal_call (removes id) t = remove_signal id t
signal_call (sets session id) t = set_signal_id session id t
signal_call (releases session) t = (release_media_session session t).0
signal_call (events kind epoch is_current) t = (accept_media_event kind epoch is_current t).0

unfoldable pub signal_calls : List SignalCall → MediaSignals → MediaSignals
unfolding signal_call
signal_calls [] t = t
signal_calls (c ∷ cs) t = signal_calls cs (signal_call c t)
