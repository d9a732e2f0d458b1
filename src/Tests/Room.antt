-- ===== src/Tests/Room.antt =====
-- Runs of a MediaRoom (MediaServer/src/media/MediaRoom.cpp).
use sync_rtc.Prelude.{
  ℕ, ◌+◌, ◌^◌, ◌<◌, ◌≡◌, ◌↔◌, refl, Bool, true, false, Option, none, some, List, [], ◌∷◌, ◌++◌,
  if◌then◌else◌, ◌==◌, arith,
}
use sync_rtc.Prelude.Assoc.{Assoc, lookup, UniqueKeys}
use sync_rtc.Media.MediaSession.{
  MediaType, video, audio, MediaSession, OutgoingTrack, OpenTracks, new_media_session,
}
use sync_rtc.Media.Room.{
  MediaRoom, MediaPeer, new_room, add_peer, remove_peer, session_of, publishers, forward_rtp,
  has_instance,
}
use sync_rtc.Media.Room.Registration.{Binding, register_publisher_track}
use sync_rtc.Media.Room.Consistency.{IsConsistent}
use sync_rtc.Media.Room.Publishing.{register_publisher_track-IsConsistent}
use sync_rtc.Media.Room.Forwarding.{
  new_room-IsConsistent, add_peer-IsConsistent, forward_rtp-lookup, Receives,
}

abbrev first_session : MediaSession
first_session = new_media_session 1 11 21 31

abbrev second_session : MediaSession
second_session = new_media_session 2 12 22 32

abbrev peer_of : ℕ → MediaSession → MediaPeer
peer_of uid s = record { peer_uid = uid; session = some s }

abbrev room_of_one : MediaRoom
room_of_one = add_peer (peer_of 1 first_session) (new_room 9)

abbrev room_of_two : MediaRoom
room_of_two = add_peer (peer_of 2 second_session) room_of_one

room_of_one-IsConsistent : IsConsistent room_of_one
unfolding new_media_session lookup new_room
room_of_one-IsConsistent =
    add_peer-IsConsistent (new_room 9) 1 first_session (new_room-IsConsistent 9) refl refl refl refl

room_of_two-IsConsistent : IsConsistent room_of_two
unfolding new_media_session lookup new_room add_peer sync_rtc.Prelude.Assoc.assign
room_of_two-IsConsistent =
    add_peer-IsConsistent room_of_one 2 second_session room_of_one-IsConsistent refl refl refl refl

abbrev quiet : Binding → Bool
quiet b = false

abbrev calm : ℕ → Bool
calm id = false

abbrev or_empty : Option MediaRoom → MediaRoom
or_empty none = new_room 9
or_empty (some r) = r

abbrev with_audio : MediaRoom
with_audio = or_empty (register_publisher_track quiet calm 1 audio room_of_two)

abbrev with_both : MediaRoom
with_both = or_empty (register_publisher_track quiet calm 1 video with_audio)

register_publisher_track-IsConsistent_example :
    (r' : MediaRoom) × (register_publisher_track quiet calm 1 audio room_of_two ≡ some r')
    × IsConsistent r'
unfolding new_room add_peer
register_publisher_track-IsConsistent_example =
    register_publisher_track-IsConsistent quiet calm 1 audio room_of_two room_of_two-IsConsistent
      (omega arith)

with_audio-IsConsistent : IsConsistent with_audio
unfolding new_room add_peer
with_audio-IsConsistent =
    let (r', e, c) =
      register_publisher_track-IsConsistent quiet calm 1 audio room_of_two room_of_two-IsConsistent
        (omega arith) in
    rw e c

with_both-IsConsistent : IsConsistent with_both
unfolding new_room add_peer register_publisher_track lookup sync_rtc.Prelude.Assoc.assign
with_both-IsConsistent =
    let (r', e, c) =
      register_publisher_track-IsConsistent quiet calm 1 video with_audio with_audio-IsConsistent
        (omega arith) in
    rw e c

abbrev all_open : OpenTracks
all_open s p m = true

-- The second member is sent the video of the first.
video_sent :
    forward_rtp all_open 1 11 video with_both
    ≡ (2, record { ssrc = 100001; publisher_session_id = 11 }) ∷ []
unfolding forward_rtp register_publisher_track add_peer new_room new_media_session lookup
    sync_rtc.Prelude.Assoc.assign sync_rtc.Media.Room.Registration.existing_bindings
    sync_rtc.Media.Room.Registration.receiver_bindings
    sync_rtc.Media.MediaSession.add_outgoing_track sync_rtc.Media.MediaSession.request_renegotiation
video_sent = refl

-- A track that is not negotiated yet is skipped.
video_skipped : forward_rtp (λ s p m. false) 1 11 video with_both ≡ []
unfolding forward_rtp register_publisher_track add_peer new_room new_media_session lookup
    sync_rtc.Prelude.Assoc.assign sync_rtc.Media.Room.Registration.existing_bindings
    sync_rtc.Media.Room.Registration.receiver_bindings
    sync_rtc.Media.MediaSession.add_outgoing_track sync_rtc.Media.MediaSession.request_renegotiation
video_skipped = refl

forward_rtp-lookup_example :
    UniqueKeys (forward_rtp all_open 1 11 video with_both)
    × ((u : ℕ) (track : OutgoingTrack)
        → (lookup u (forward_rtp all_open 1 11 video with_both) ≡ some track)
          ↔ Receives all_open 1 11 video with_both u track)
forward_rtp-lookup_example = forward_rtp-lookup all_open 1 11 video with_both with_both-IsConsistent
