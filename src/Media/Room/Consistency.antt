-- ===== src/Media/Room/Consistency.antt =====
-- What holds of a room between its operations.
use sync_rtc.Prelude.{
  ℕ, ◌<◌, ◌≡◌, ◌≢◌, refl, ap, subst, ◌∙◌, Option, none, some, [], ◌∷◌, ◌==◌, if◌then◌else◌, arith,
}
use sync_rtc.Prelude.Assoc.{
  Assoc, is_free, lookup, erase, lookup-erase, UniqueKeys, erase-UniqueKeys,
}
use sync_rtc.Media.MediaSession.{
  MediaType, video, audio, MediaSession, OutgoingTrack, outgoing_tracks, remove_outgoing_tracks,
}
use sync_rtc.Media.Room.{
  MediaRoom, MediaPeer, publishers, peer_session, session_of, remove_peer, removed, map_sessions,
}

-- `track` leads from the member under `uid` to the current session of the publisher `p`, with the
-- SSRC under which `p` publishes.
abbrev pub IsCurrent : MediaRoom → MediaType → ℕ → OutgoingTrack → Type 0
IsCurrent r m p track =
    (lookup p (publishers m r) ≡ some track.ssrc)
    × ((source : MediaSession) × (session_of p r ≡ some source)
        × (source.instance_id ≡ track.publisher_session_id))

pub record IsConsistent (r : MediaRoom) : Type 0 where
  -- a member is filed under its own uid
  pub filed : (u : ℕ) (s : MediaSession) → session_of u r ≡ some s → s.uid ≡ u
  -- a registered publisher has a session
  pub registered :
      (m : MediaType) (p ssrc : ℕ)
      → lookup p (publishers m r) ≡ some ssrc
      → (s : MediaSession) × (session_of p r ≡ some s)
  -- the SSRCs given out lie below the next one
  pub below :
      (m : MediaType) (p ssrc : ℕ) → lookup p (publishers m r) ≡ some ssrc → ssrc < r.next_ssrc
  -- no two publications share an SSRC
  pub distinct :
      (m n : MediaType) (p q ssrc : ℕ)
      → lookup p (publishers m r) ≡ some ssrc
      → lookup q (publishers n r) ≡ some ssrc
      → (m ≡ n) × (p ≡ q)
  -- every outgoing track of a member leads to a current publication
  pub current :
      (u : ℕ) (s : MediaSession) (m : MediaType) (p : ℕ) (track : OutgoingTrack)
      → session_of u r ≡ some s
      → lookup p (outgoing_tracks m s) ≡ some track
      → IsCurrent r m p track
  pub unique_video : UniqueKeys r.video_publishers
  pub unique_peers : UniqueKeys r.peers

session_of-map_sessions :
    (f : MediaSession → MediaSession) (u : ℕ) (m : Assoc MediaPeer)
    → peer_session (lookup u (map_sessions f m))
      ≡ (elim (peer_session (lookup u m)) [ none ↦ none | some s ↦ some (f s) ])
unfolding lookup map_sessions
session_of-map_sessions f u [] = refl
session_of-map_sessions f u ((v, peer) ∷ m) = ground (arith, session_of-map_sessions f u m)

is_free-map_sessions :
    (f : MediaSession → MediaSession) (u : ℕ) (m : Assoc MediaPeer)
    → is_free u (map_sessions f m) ≡ is_free u m
unfolding map_sessions
is_free-map_sessions f u [] = refl
is_free-map_sessions f u ((v, peer) ∷ m) = ground (arith, is_free-map_sessions f u m)

map_sessions-UniqueKeys :
    (f : MediaSession → MediaSession) (m : Assoc MediaPeer)
    → UniqueKeys m
    → UniqueKeys (map_sessions f m)
unfolding map_sessions
map_sessions-UniqueKeys f [] k = tt
map_sessions-UniqueKeys f ((v, peer) ∷ m) k =
    (is_free-map_sessions f v m ∙ k.0, map_sessions-UniqueKeys f m k.1)

-- Both tables of publishers, and both tables of tracks, without one uid.
publishers-erase :
    (m : MediaType) (uid p : ℕ) (r : MediaRoom) (x : ℕ)
    → lookup p (publishers m (removed uid r)) ≡ some x
    → (p ≢ uid) × (lookup p (publishers m r) ≡ some x)
publishers-erase video uid p r x h = ground (arith, lookup-erase uid p r.video_publishers)
publishers-erase audio uid p r x h = ground (arith, lookup-erase uid p r.audio_publishers)

pub publishers-keep :
    (m : MediaType) (uid p : ℕ) (r : MediaRoom)
    → p ≢ uid
    → lookup p (publishers m (removed uid r)) ≡ lookup p (publishers m r)
publishers-keep video uid p r h = ground (arith, lookup-erase uid p r.video_publishers)
publishers-keep audio uid p r h = ground (arith, lookup-erase uid p r.audio_publishers)

outgoing-erase :
    (m : MediaType) (uid p : ℕ) (s : MediaSession) (t : OutgoingTrack)
    → lookup p (outgoing_tracks m (remove_outgoing_tracks uid s)) ≡ some t
    → (p ≢ uid) × (lookup p (outgoing_tracks m s) ≡ some t)
unfolding remove_outgoing_tracks
outgoing-erase video uid p s t h = ground (arith, lookup-erase uid p s.outgoing_video_tracks)
outgoing-erase audio uid p s t h = ground (arith, lookup-erase uid p s.outgoing_audio_tracks)

pub session_of-removed :
    (uid u : ℕ) (r : MediaRoom)
    → session_of u (removed uid r) ≡ (
        if uid == u
        then none
        else elim (session_of u r) [ none ↦ none | some s ↦ some (remove_outgoing_tracks uid s) ])
session_of-removed uid u r = ground (
  arith,
  session_of-map_sessions (remove_outgoing_tracks uid) u (erase uid r.peers),
  lookup-erase uid u r.peers,
)

-- Where a session of the smaller room comes from.
removed_source :
    (uid u : ℕ) (r : MediaRoom) (s : MediaSession)
    → session_of u (removed uid r) ≡ some s
    → (t : MediaSession) × (session_of u r ≡ some t)
      × (u ≢ uid)
      × (s ≡ remove_outgoing_tracks uid t)
removed_source uid u r s h = go (session_of u r) refl
  where
    go :
        (o : Option MediaSession)
        → session_of u r ≡ o
        → (t : MediaSession) × (session_of u r ≡ some t)
          × (u ≢ uid)
          × (s ≡ remove_outgoing_tracks uid t)
    go none e = absurd (ground (arith, session_of-removed uid u r))
    go (some t) e = (
      t,
      e,
      ground (arith, session_of-removed uid u r),
      ground (arith, session_of-removed uid u r),
    )

-- A session of the larger room is one of the smaller, but for the tracks.
removed_target :
    (uid u : ℕ) (r : MediaRoom) (t : MediaSession)
    → session_of u r ≡ some t
    → u ≢ uid
    → session_of u (removed uid r) ≡ some (remove_outgoing_tracks uid t)
removed_target uid u r t e n = ground (arith, session_of-removed uid u r)

removed-IsConsistent : (uid : ℕ) (r : MediaRoom) → IsConsistent r → IsConsistent (removed uid r)
unfolding remove_outgoing_tracks
removed-IsConsistent uid r v = record {
  filed = λ u s h.
      let (t, e, n, q) = removed_source uid u r s h in
      ap (λ (x : MediaSession). x.uid) q ∙ v.filed u t e;
  registered = λ m p ssrc h.
      let (n, e) = publishers-erase m uid p r ssrc h in
      let (s, f) = v.registered m p ssrc e in
      (remove_outgoing_tracks uid s, removed_target uid p r s f n);
  below = λ m p ssrc h. v.below m p ssrc (publishers-erase m uid p r ssrc h).1;
  distinct = λ m n p q ssrc h k.
      v.distinct m n p q ssrc (publishers-erase m uid p r ssrc h).1
        (publishers-erase n uid q r ssrc k).1;
  current = λ u s m p track h k.
      let (t, e, n, q) = removed_source uid u r s h in
      let k' : lookup p (outgoing_tracks m (remove_outgoing_tracks uid t)) ≡ some track =
        subst (λ x. lookup p (outgoing_tracks m x) ≡ some track) q k in
      let (d, k2) = outgoing-erase m uid p t track k' in
      let c = v.current u t m p track e k2 in
      (
        publishers-keep m uid p r d ∙ c.0,
        (remove_outgoing_tracks uid c.1.0, removed_target uid p r c.1.0 c.1.1 d, c.1.2),
      );
  unique_video = erase-UniqueKeys uid r.video_publishers v.unique_video;
  unique_peers =
      map_sessions-UniqueKeys (remove_outgoing_tracks uid) (erase uid r.peers)
        (erase-UniqueKeys uid r.peers v.unique_peers);
}

-- RemovePeer keeps a room consistent, with and without an expected session.
pub remove_peer-IsConsistent :
    (uid id : ℕ) (r : MediaRoom) → IsConsistent r → IsConsistent (remove_peer uid id r)
unfolding remove_peer
remove_peer-IsConsistent uid id r v = ground (arith, v, removed-IsConsistent uid r v)
