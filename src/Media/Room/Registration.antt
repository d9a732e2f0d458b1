-- ===== src/Media/Room/Registration.antt =====
-- MediaRoom::RegisterPublisherTrack (MediaServer/src/media/MediaRoom.cpp): what a new track of a
-- publisher sets off in the room.
use sync_rtc.Prelude.{
  ℕ, ◌+◌, ◌%◌, ◌^◌, Bool, true, false, not, ◌||◌, ◌&&◌, Option, none, some, List, [], ◌∷◌, ◌++◌,
  ◌==◌, if◌then◌else◌,
}
use sync_rtc.Prelude.Assoc.{Assoc, lookup, assign}
use sync_rtc.Media.MediaSession.{
  MediaType, video, audio, MediaSession, is_some, add_outgoing_track, request_renegotiation,
}
use sync_rtc.Media.Room.{MediaRoom, publishers, session_of, put_session, remove_peer, receivers}

-- OutgoingTrackBinding; the receiving session stands as uid and instance.
pub record Binding : Type 0 where
  pub target_uid : ℕ
  pub target_session_id : ℕ
  pub publisher_uid : ℕ
  pub publisher_session_id : ℕ
  pub media : MediaType
  pub ssrc : ℕ

abbrev pub both_bindings : MediaSession → ℕ → ℕ → ℕ → ℕ → List Binding → List Binding
both_bindings target publisher_uid publisher_session_id video_ssrc audio_ssrc rest =
    bind video video_ssrc ∷ (bind audio audio_ssrc ∷ rest)
  where
    bind : MediaType → ℕ → Binding
    bind media ssrc = record {
      target_uid = target.uid;
      target_session_id = target.instance_id;
      publisher_uid = publisher_uid;
      publisher_session_id = publisher_session_id;
      media = media;
      ssrc = ssrc;
    }

unfoldable pub receiver_bindings : ℕ → ℕ → ℕ → ℕ → List MediaSession → List Binding
receiver_bindings uid session_id video_ssrc audio_ssrc [] = []
receiver_bindings uid session_id video_ssrc audio_ssrc (t ∷ ts) =
    both_bindings t uid session_id video_ssrc audio_ssrc
      (receiver_bindings uid session_id video_ssrc audio_ssrc ts)

-- What the new member is to receive: every other publisher with both media. none is the fault of
-- a publisher without a session, whose m_peers.at(…)->GetSession() the source dereferences.
unfoldable pub existing_bindings : ℕ → MediaSession → MediaRoom → Assoc ℕ → Option (List Binding)
existing_bindings publisher_uid s r [] = some []
existing_bindings publisher_uid s r ((uid, video_ssrc) ∷ m) =
    elim (existing_bindings publisher_uid s r m) [
      | none ↦ none
      | some rest ↦
          if uid == publisher_uid then some rest else elim (lookup uid r.audio_publishers) [
            | none ↦ some rest
            | some audio_ssrc ↦ elim (session_of uid r) [
              | none ↦ none
              | some source ↦
                  some (both_bindings s uid source.instance_id video_ssrc audio_ssrc rest)
            ]
          ]
    ]

-- publishers.emplace(publisher_uid, m_next_ssrc++) with its uint32_t
unfoldable pub publish : MediaType → ℕ → MediaRoom → MediaRoom
publish video uid r = record r {
  next_ssrc = (r.next_ssrc + 1) % 2 ^ 32;
  video_publishers = assign uid r.next_ssrc r.video_publishers;
}
publish audio uid r = record r {
  next_ssrc = (r.next_ssrc + 1) % 2 ^ 32;
  audio_publishers = assign uid r.next_ssrc r.audio_publishers;
}

abbrev pub or_remove : MediaSession → Option MediaSession → MediaRoom → MediaRoom
or_remove t none r = remove_peer t.uid t.instance_id r
or_remove t (some t') r = put_session t.uid t' r

-- One round of the loop over tracks_to_add, for the sessions that GetPeer finds now; `throws`
-- foretells the exceptions of addTrack.
unfoldable pub add_track_to :
    (Binding → Bool) → Binding → Option MediaSession → Option MediaSession → MediaRoom → MediaRoom
unfolding remove_peer
add_track_to throws b (some t) (some source) r =
    if not (t.instance_id == b.target_session_id)
      || not (source.instance_id == b.publisher_session_id)
    then r
    else or_remove t
        (add_outgoing_track (throws b) b.publisher_uid b.publisher_session_id b.media b.ssrc t) r
add_track_to throws b _ _ r = r

unfoldable pub add_track : (Binding → Bool) → Binding → MediaRoom → MediaRoom
unfolding add_track_to
add_track throws b r =
    add_track_to throws b (session_of b.target_uid r) (session_of b.publisher_uid r) r

unfoldable pub add_tracks : (Binding → Bool) → List Binding → MediaRoom → MediaRoom
unfolding add_track
add_tracks throws [] r = r
add_tracks throws (b ∷ bs) r = add_tracks throws bs (add_track throws b r)

-- One round of the loop over sessions_to_negotiate; `throws` foretells setLocalDescription.
unfoldable pub negotiate_with : (ℕ → Bool) → ℕ → Option MediaSession → MediaRoom → MediaRoom
unfolding remove_peer
negotiate_with throws instance_id none r = r
negotiate_with throws instance_id (some t) r =
    if not (t.instance_id == instance_id)
    then r
    else if (request_renegotiation t).1 && throws t.instance_id
    then remove_peer t.uid t.instance_id r
    else put_session t.uid (request_renegotiation t).0 r

unfoldable pub negotiate : (ℕ → Bool) → MediaSession → MediaRoom → MediaRoom
unfolding negotiate_with
negotiate throws s r = negotiate_with throws s.instance_id (session_of s.uid r) r

unfoldable pub negotiate_all : (ℕ → Bool) → List MediaSession → MediaRoom → MediaRoom
unfolding negotiate
negotiate_all throws [] r = r
negotiate_all throws (s ∷ ss) r = negotiate_all throws ss (negotiate throws s r)

abbrev pub is_empty_list {ℓ} : {A : Type ℓ} → List A → Bool
is_empty_list [] = true
is_empty_list (x ∷ xs) = false

-- What RegisterPublisherTrack collects under the lock, for a publisher with both media.
unfoldable pub collect :
    ℕ → MediaSession → ℕ → ℕ → MediaRoom → Option (List Binding × List MediaSession)
collect publisher_uid s video_ssrc audio_ssrc r =
    elim (existing_bindings publisher_uid s r r.video_publishers) [
      | none ↦ none
      | some existing ↦
          let targets = receivers publisher_uid r.peers in
          some (
            receiver_bindings publisher_uid s.instance_id video_ssrc audio_ssrc targets ++ existing,
            targets ++ (if is_empty_list existing then [] else s ∷ []),
          )
    ]

abbrev pub carry_out :
    (Binding → Bool)
    → (ℕ → Bool)
    → MediaRoom
    → Option (List Binding × List MediaSession)
    → Option MediaRoom
carry_out add_throws offer_throws r none = none
carry_out add_throws offer_throws r (some (tracks, sessions)) =
    some (negotiate_all offer_throws sessions (add_tracks add_throws tracks r))

abbrev pub announce :
    (Binding → Bool)
    → (ℕ → Bool)
    → ℕ
    → MediaSession
    → Option ℕ
    → Option ℕ
    → MediaRoom
    → Option MediaRoom
announce add_throws offer_throws uid s (some video_ssrc) (some audio_ssrc) r =
    carry_out add_throws offer_throws r (collect uid s video_ssrc audio_ssrc r)
announce add_throws offer_throws uid s _ _ r = some r

-- After the lookup of the publisher's session; none is the fault that `existing_bindings` names.
unfoldable pub register_session :
    (Binding → Bool)
    → (ℕ → Bool)
    → ℕ
    → MediaType
    → Option MediaSession
    → MediaRoom
    → Option MediaRoom
unfolding publish add_tracks negotiate_all collect
register_session add_throws offer_throws uid media none r = some r
register_session add_throws offer_throws uid media (some s) r =
    if is_some (lookup uid (publishers media r))
    then some r
    else let r' = publish media uid r in
      announce add_throws offer_throws uid s (lookup uid r'.video_publishers)
        (lookup uid r'.audio_publishers) r'

unfoldable pub register_publisher_track :
    (Binding → Bool) → (ℕ → Bool) → ℕ → MediaType → MediaRoom → Option MediaRoom
unfolding register_session
register_publisher_track add_throws offer_throws uid media r =
    register_session add_throws offer_throws uid media (session_of uid r) r
