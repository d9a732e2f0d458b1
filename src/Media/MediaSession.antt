-- ===== src/Media/MediaSession.antt =====
-- MediaSession (MediaServer/src/media/MediaSession.cpp): the state of one PeerConnection that the
-- room reads and writes. The library's tracks and descriptions are not modelled; where a call of
-- libdatachannel may throw, the operation has an argument that says so.
use sync_rtc.Prelude.{ℕ, Bool, true, false, Option, none, some, [], not, ◌||◌, ◌==◌, if◌then◌else◌}
use sync_rtc.Prelude.Assoc.{Assoc, lookup, assign, erase}

pub data MediaType : Type 0 where
  video audio : MediaType

pub record OutgoingTrack : Type 0 where
  pub ssrc : ℕ
  pub publisher_session_id : ℕ

-- `connection` names the control connection of GetSignalSession, `instance_id` the object.
pub record MediaSession : Type 0 where
  pub uid : ℕ
  pub instance_id : ℕ
  pub signal_id : ℕ
  pub connection : ℕ
  pub outgoing_video_tracks : Assoc OutgoingTrack
  pub outgoing_audio_tracks : Assoc OutgoingTrack
  pub initial_answer_created : Bool
  pub waiting_remote_answer : Bool
  pub negotiation_pending : Bool

unfoldable pub new_media_session : ℕ → ℕ → ℕ → ℕ → MediaSession
new_media_session uid instance_id signal_id connection = record {
  uid = uid;
  instance_id = instance_id;
  signal_id = signal_id;
  connection = connection;
  outgoing_video_tracks = [];
  outgoing_audio_tracks = [];
  initial_answer_created = false;
  waiting_remote_answer = false;
  negotiation_pending = false;
}

abbrev pub outgoing_tracks : MediaType → MediaSession → Assoc OutgoingTrack
outgoing_tracks video s = s.outgoing_video_tracks
outgoing_tracks audio s = s.outgoing_audio_tracks

abbrev pub set_outgoing_tracks : MediaType → Assoc OutgoingTrack → MediaSession → MediaSession
set_outgoing_tracks video m s = record s { outgoing_video_tracks = m }
set_outgoing_tracks audio m s = record s { outgoing_audio_tracks = m }

abbrev pub is_some {ℓ} : {A : Type ℓ} → Option A → Bool
is_some none = false
is_some (some a) = true

-- none is an exception of addTrack, which `throws` foretells.
unfoldable pub add_outgoing_track :
    Bool → ℕ → ℕ → MediaType → ℕ → MediaSession → Option MediaSession
add_outgoing_track throws publisher_uid publisher_session_id media ssrc s =
    if is_some (lookup publisher_uid (outgoing_tracks media s))
    then some s
    else if throws
    then none
    else some (
        set_outgoing_tracks media
          (assign publisher_uid
            (record { ssrc = ssrc; publisher_session_id = publisher_session_id })
            (outgoing_tracks media s))
          s)

unfoldable pub remove_outgoing_tracks : ℕ → MediaSession → MediaSession
remove_outgoing_tracks publisher_uid s = record s {
  outgoing_video_tracks = erase publisher_uid s.outgoing_video_tracks;
  outgoing_audio_tracks = erase publisher_uid s.outgoing_audio_tracks;
}

-- The flag says whether the server creates an offer now.
unfoldable pub request_renegotiation : MediaSession → MediaSession × Bool
request_renegotiation s =
    if not s.initial_answer_created || s.waiting_remote_answer
    then (record s { negotiation_pending = true }, false)
    else (record s { waiting_remote_answer = true }, true)

-- A pending negotiation starts once the connection is stable.
abbrev pub start_pending : MediaSession → MediaSession × Bool
start_pending s =
    if s.negotiation_pending
    then (record s { negotiation_pending = false; waiting_remote_answer = true }, true)
    else (s, false)

-- SetRemoteOffer from the initial answer on
unfoldable pub initial_answer : MediaSession → MediaSession × Bool
initial_answer s = start_pending (record s { initial_answer_created = true })

-- SetRemoteAnswer from the applied answer on
unfoldable pub remote_answer : MediaSession → MediaSession × Bool
remote_answer s = start_pending (record s { waiting_remote_answer = false })

-- Which tracks of the library are open now: of the session with this instance id, for this publisher.
abbrev pub OpenTracks : Type 0
OpenTracks = ℕ → ℕ → MediaType → Bool

abbrev pub if_open : Bool → OutgoingTrack → Option OutgoingTrack
if_open true track = some track
if_open false track = none

-- The track that ForwardRtp writes a packet to; none drops it.
unfoldable pub forward_track : OpenTracks → ℕ → ℕ → MediaType → MediaSession → Option OutgoingTrack
forward_track is_open publisher_uid publisher_session_id media s =
    elim (lookup publisher_uid (outgoing_tracks media s)) [
      | none ↦ none
      | some track ↦
          if track.publisher_session_id == publisher_session_id
          then if_open (is_open s.instance_id publisher_uid media) track
          else none
    ]
