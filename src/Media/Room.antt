-- ===== src/Media/Room.antt =====
-- MediaRoom (MediaServer/src/media/MediaRoom.cpp). A session object is known by its instance id,
-- which the process gives out once; a uid is an int that is only compared, held as its bit pattern.
pub mod Registration
pub mod Consistency
pub mod Updates
pub mod Tracks
pub mod Publishing
pub mod Membership
pub mod Forwarding
use sync_rtc.Prelude.{
  ℕ, zero, suc, ◌+◌, ◌*◌, ◌%◌, ◌^◌, Bool, true, false, not, ◌||◌, ◌&&◌, Option, none, some, List,
  [], ◌∷◌, ◌++◌, ◌==◌, if◌then◌else◌, length,
}
use sync_rtc.Prelude.Assoc.{Assoc, lookup, assign, erase}
use sync_rtc.Media.MediaSession.{
  MediaType, video, audio, MediaSession, OutgoingTrack, outgoing_tracks, is_some,
  add_outgoing_track, remove_outgoing_tracks, request_renegotiation, OpenTracks, forward_track,
}

pub record MediaPeer : Type 0 where
  pub peer_uid : ℕ
  pub session : Option MediaSession

pub record MediaRoom : Type 0 where
  pub meeting_id : ℕ
  pub next_ssrc : ℕ
  pub peers : Assoc MediaPeer
  pub video_publishers : Assoc ℕ
  pub audio_publishers : Assoc ℕ

unfoldable pub new_room : ℕ → MediaRoom
new_room meeting_id = record {
  meeting_id = meeting_id;
  next_ssrc = 100000;
  peers = [];
  video_publishers = [];
  audio_publishers = [];
}

abbrev pub publishers : MediaType → MediaRoom → Assoc ℕ
publishers video r = r.video_publishers
publishers audio r = r.audio_publishers

abbrev pub peer_session : Option MediaPeer → Option MediaSession
peer_session none = none
peer_session (some peer) = peer.session

-- GetPeer(uid), then GetSession where there is a peer
abbrev pub session_of : ℕ → MediaRoom → Option MediaSession
session_of uid r = peer_session (lookup uid r.peers)

unfoldable pub add_peer : MediaPeer → MediaRoom → MediaRoom
add_peer peer r = record r { peers = assign peer.peer_uid peer r.peers }

unfoldable pub peer_count : MediaRoom → ℕ
peer_count r = length r.peers

abbrev pub map_session : (MediaSession → MediaSession) → MediaPeer → MediaPeer
map_session f peer = record peer {
  session = elim peer.session [ none ↦ none | some s ↦ some (f s) ];
}

-- An update of every session of the room.
unfoldable pub map_sessions : (MediaSession → MediaSession) → Assoc MediaPeer → Assoc MediaPeer
map_sessions f [] = []
map_sessions f ((uid, peer) ∷ m) = (uid, map_session f peer) ∷ map_sessions f m

abbrev pub has_instance : ℕ → Option MediaSession → Bool
has_instance id none = false
has_instance id (some s) = s.instance_id == id

abbrev pub removed : ℕ → MediaRoom → MediaRoom
removed uid r = record r {
  peers = map_sessions (remove_outgoing_tracks uid) (erase uid r.peers);
  video_publishers = erase uid r.video_publishers;
  audio_publishers = erase uid r.audio_publishers;
}

unfoldable pub remove_peer : ℕ → ℕ → MediaRoom → MediaRoom
unfolding map_sessions
remove_peer uid expected_session_id r =
    if not (expected_session_id == 0) && not (has_instance expected_session_id (session_of uid r))
    then r
    else removed uid r

abbrev pub add_for_connection : ℕ → Option MediaSession → List MediaSession → List MediaSession
add_for_connection connection none rest = rest
add_for_connection connection (some s) rest = if s.connection == connection then s ∷ rest else rest

-- The sessions that belong to a control connection.
unfoldable pub sessions_for_connection : ℕ → Assoc MediaPeer → List MediaSession
sessions_for_connection connection [] = []
sessions_for_connection connection ((uid, peer) ∷ m) =
    add_for_connection connection peer.session (sessions_for_connection connection m)

abbrev pub add_receiver : ℕ → ℕ → Option MediaSession → List MediaSession → List MediaSession
add_receiver publisher_uid uid none rest = rest
add_receiver publisher_uid uid (some s) rest = if uid == publisher_uid then rest else s ∷ rest

-- The members that are to receive a new publisher.
unfoldable pub receivers : ℕ → Assoc MediaPeer → List MediaSession
receivers publisher_uid [] = []
receivers publisher_uid ((uid, peer) ∷ m) =
    add_receiver publisher_uid uid peer.session (receivers publisher_uid m)

-- The object behind a session pointer changes where the room holds it.
abbrev pub put_session : ℕ → MediaSession → MediaRoom → MediaRoom
put_session uid s r = record r {
  peers = assign uid (record { peer_uid = uid; session = some s }) r.peers;
}

-- Where a packet goes: the receiver and the track that it is written to.
unfoldable pub deliveries :
    OpenTracks → ℕ → ℕ → MediaType → List MediaSession → List (ℕ × OutgoingTrack)
unfolding forward_track
deliveries is_open publisher_uid publisher_session_id media [] = []
deliveries is_open publisher_uid publisher_session_id media (t ∷ ts) =
    let rest = deliveries is_open publisher_uid publisher_session_id media ts in
    elim (forward_track is_open publisher_uid publisher_session_id media t) [
      | none ↦ rest
      | some track ↦ (t.uid, track) ∷ rest
    ]

unfoldable pub forward_rtp : OpenTracks → ℕ → ℕ → MediaType → MediaRoom → List (ℕ × OutgoingTrack)
unfolding deliveries receivers
forward_rtp is_open publisher_uid publisher_session_id media r =
    if not (has_instance publisher_session_id (session_of publisher_uid r))
    then []
    else deliveries is_open publisher_uid publisher_session_id media
        (receivers publisher_uid r.peers)
