-- ===== src/Media/Room/Forwarding.antt =====
-- Where MediaRoom::ForwardRtp writes a packet (MediaServer/src/media/MediaRoom.cpp), and members who join.
use sync_rtc.Prelude.{
  ℕ, ◌≡◌, ◌≢◌, ◌↔◌, refl, sym, ap, ◌∙◌, inl, inr, true, Option, none, some, List, [], ◌∷◌, ◌==◌,
  if◌then◌else◌, arith, Bool-cases,
}
use sync_rtc.Prelude.Assoc.{
  Assoc, lookup, lookup-assign, assign-UniqueKeys, UniqueKeys, lookup-is_free, is_free-lookup,
}
use sync_rtc.Media.MediaSession.{
  MediaType, video, audio, MediaSession, OutgoingTrack, OpenTracks, outgoing_tracks, forward_track,
}
use sync_rtc.Media.Room.{
  MediaRoom, MediaPeer, publishers, peer_session, session_of, receivers, add_receiver, deliveries,
  forward_rtp, has_instance, add_peer, new_room,
}
use sync_rtc.Media.Room.Consistency.{IsConsistent}

pub new_room-IsConsistent : (meeting_id : ℕ) → IsConsistent (new_room meeting_id)
unfolding new_room lookup
new_room-IsConsistent meeting_id = record {
  filed = λ u s h. ground (arith, h);
  registered = λ m p ssrc h. absurd (nothing m p ssrc h);
  below = λ m p ssrc h. absurd (nothing m p ssrc h);
  distinct = λ m n p q ssrc h k. absurd (nothing m p ssrc h);
  current = λ u s m p track h k. ground (arith, h);
  unique_video = tt;
  unique_peers = tt;
}
  where
    nothing :
        (m : MediaType) (p ssrc : ℕ) → ¬ (lookup p (publishers m (new_room meeting_id)) ≡ some ssrc)
    nothing video p ssrc h = ground (arith, h)
    nothing audio p ssrc h = ground (arith, h)

-- What a member with this session, if any, is sent of a packet.
abbrev pub sent_to : OpenTracks → ℕ → ℕ → MediaType → ℕ → Option MediaSession → Option OutgoingTrack
sent_to is_open p id media u none = none
sent_to is_open p id media u (some s) = if u == p then none else forward_track is_open p id media s

-- The entries of `m` hold sessions of their own uid.
abbrev AllFiled : Assoc MediaPeer → Type 0
AllFiled [] = Unit {0}
AllFiled ((uid, peer) ∷ m) = ((s : MediaSession) → peer.session ≡ some s → s.uid ≡ uid) × AllFiled m

filed-AllFiled :
    (m : Assoc MediaPeer)
    → UniqueKeys m
    → ((u : ℕ) (s : MediaSession) → peer_session (lookup u m) ≡ some s → s.uid ≡ u)
    → AllFiled m
unfolding lookup
filed-AllFiled [] k h = tt
filed-AllFiled ((uid, peer) ∷ m) k h = (
  λ s e. h uid s (ground arith),
  filed-AllFiled m k.1 (λ u s e. h u s (ground (arith, lookup-is_free uid m k.0))),
)

module _ (is_open : OpenTracks) (p id : ℕ) (media : MediaType) where
  receiver_step :
      (u uid : ℕ) (o : Option MediaSession) (rest : List MediaSession) (next : Option MediaSession)
      → ((s : MediaSession) → o ≡ some s → s.uid ≡ uid)
      → lookup u (deliveries is_open p id media rest) ≡ sent_to is_open p id media u next
      → (uid ≡ u → next ≡ none)
      → lookup u (deliveries is_open p id media (add_receiver p uid o rest))
        ≡ sent_to is_open p id media u (if uid == u then o else next)
  unfolding deliveries lookup forward_track
  receiver_step u uid none rest next f ih free = ground (arith, ih, free)
  receiver_step u uid (some s) rest next f ih free = ground (arith, ih, free, f s refl)

  deliveries-lookup :
      (u : ℕ) (m : Assoc MediaPeer)
      → UniqueKeys m
      → AllFiled m
      → lookup u (deliveries is_open p id media (receivers p m))
        ≡ sent_to is_open p id media u (peer_session (lookup u m))
  unfolding deliveries receivers lookup
  deliveries-lookup u [] k f = refl
  deliveries-lookup u ((uid, peer) ∷ m) k f =
      receiver_step u uid peer.session (receivers p m) (peer_session (lookup u m)) f.0
        (deliveries-lookup u m k.1 f.1) (λ e. ground (arith, lookup-is_free uid m k.0))
      ∙ ground arith

  deliver_step-UniqueKeys :
      (uid : ℕ) (o : Option MediaSession) (rest : List MediaSession)
      → ((s : MediaSession) → o ≡ some s → s.uid ≡ uid)
      → lookup uid (deliveries is_open p id media rest) ≡ none
      → UniqueKeys (deliveries is_open p id media rest)
      → UniqueKeys (deliveries is_open p id media (add_receiver p uid o rest))
  unfolding deliveries forward_track
  deliver_step-UniqueKeys uid none rest f free k = k
  deliver_step-UniqueKeys uid (some s) rest f free k =
      ground (arith, k, f s refl, is_free-lookup s.uid (deliveries is_open p id media rest))

  deliveries-UniqueKeys :
      (m : Assoc MediaPeer)
      → UniqueKeys m
      → AllFiled m
      → UniqueKeys (deliveries is_open p id media (receivers p m))
  unfolding deliveries receivers
  deliveries-UniqueKeys [] k f = tt
  deliveries-UniqueKeys ((uid, peer) ∷ m) k f =
      deliver_step-UniqueKeys uid peer.session (receivers p m) f.0
        (deliveries-lookup uid m k.1 f.1
          ∙ ap (λ o. sent_to is_open p id media uid (peer_session o)) (lookup-is_free uid m k.0))
        (deliveries-UniqueKeys m k.1 f.1)

-- Where a packet goes, by the session of each member.
forward_rtp-sent_to :
    (is_open : OpenTracks) (p id : ℕ) (media : MediaType) (r : MediaRoom)
    → IsConsistent r
    → UniqueKeys (forward_rtp is_open p id media r)
      × ((u : ℕ)
          → lookup u (forward_rtp is_open p id media r) ≡ (
              if has_instance id (session_of p r)
              then sent_to is_open p id media u (session_of u r)
              else none))
unfolding forward_rtp lookup
forward_rtp-sent_to is_open p id media r v = elim (Bool-cases (has_instance id (session_of p r))) [
  | inl t ↦ rw t (
    deliveries-UniqueKeys is_open p id media r.peers v.unique_peers filed,
    λ u. deliveries-lookup is_open p id media u r.peers v.unique_peers filed,
  )
  | inr t ↦ rw t (tt, λ u. refl)
]
  where
    filed : AllFiled r.peers
    filed = filed-AllFiled r.peers v.unique_peers v.filed

-- The member `u` is another one, and holds an open track for the member `p` and its session `id`.
pub record Receives (is_open : OpenTracks) (p id : ℕ) (media : MediaType) (r : MediaRoom) (u : ℕ)
    (track : OutgoingTrack) : Type 0 where
  pub receiver : MediaSession
  pub current : has_instance id (session_of p r) ≡ true
  pub other : u ≢ p
  pub member : session_of u r ≡ some receiver
  pub holds : lookup p (outgoing_tracks media receiver) ≡ some track
  pub for_session : track.publisher_session_id ≡ id
  pub is_negotiated : is_open receiver.instance_id p media ≡ true

sent_to-Receives :
    (is_open : OpenTracks) (p id : ℕ) (media : MediaType) (r : MediaRoom) (u : ℕ)
    (track : OutgoingTrack)
    → (if has_instance id (session_of p r)
        then sent_to is_open p id media u (session_of u r)
        else none)
      ≡ some track
    → Receives is_open p id media r u track
unfolding forward_track
sent_to-Receives is_open p id media r u track h = go (session_of u r) refl h
  where
    go :
        (o : Option MediaSession)
        → session_of u r ≡ o
        → (if has_instance id (session_of p r) then sent_to is_open p id media u o else none)
          ≡ some track
        → Receives is_open p id media r u track
    go none e q = absurd (ground arith)
    go (some s) e q = record {
      receiver = s;
      current = ground (arith, q);
      other = ground (arith, q);
      member = e;
      holds = ground (arith, q);
      for_session = ground (arith, q);
      is_negotiated = ground (arith, q);
    }

Receives-sent_to :
    (is_open : OpenTracks) (p id : ℕ) (media : MediaType) (r : MediaRoom) (u : ℕ)
    (track : OutgoingTrack)
    → Receives is_open p id media r u track
    → (if has_instance id (session_of p r)
        then sent_to is_open p id media u (session_of u r)
        else none)
      ≡ some track
unfolding forward_track
Receives-sent_to is_open p id media r u track v =
    ground (arith, v.current, v.other, v.member, v.holds, v.for_session, v.is_negotiated)

-- In a consistent room a packet of the session `id` of the member `p` is written to a member at
-- most once, and to exactly these: while `id` is the session of `p`, each other member that holds
-- an open track for `p` and that session, through that track.
pub forward_rtp-lookup :
    (is_open : OpenTracks) (p id : ℕ) (media : MediaType) (r : MediaRoom)
    → IsConsistent r
    → UniqueKeys (forward_rtp is_open p id media r)
      × ((u : ℕ) (track : OutgoingTrack)
          → (lookup u (forward_rtp is_open p id media r) ≡ some track)
            ↔ Receives is_open p id media r u track)
forward_rtp-lookup is_open p id media r v =
    let (unique, at) = forward_rtp-sent_to is_open p id media r v in
    (
      unique,
      λ u track. (
        λ h. sent_to-Receives is_open p id media r u track (sym (at u) ∙ h),
        λ h. at u ∙ Receives-sent_to is_open p id media r u track h,
      ),
    )

-- The track of a delivery: of another member, to the current session of the publisher, with the
-- SSRC that stands in the table of publishers.
pub forward_rtp_current :
    (is_open : OpenTracks) (p id : ℕ) (media : MediaType) (r : MediaRoom) (u : ℕ)
    (track : OutgoingTrack)
    → IsConsistent r
    → lookup u (forward_rtp is_open p id media r) ≡ some track
    → (u ≢ p)
      × (lookup p (publishers media r) ≡ some track.ssrc)
      × (track.publisher_session_id ≡ id)
      × (has_instance id (session_of p r) ≡ true)
unfolding forward_track
forward_rtp_current is_open p id media r u track v h =
    go (session_of u r) refl (sym ((forward_rtp-sent_to is_open p id media r v).1 u) ∙ h)
  where
    go :
        (o : Option MediaSession)
        → session_of u r ≡ o
        → (if has_instance id (session_of p r) then sent_to is_open p id media u o else none)
          ≡ some track
        → (u ≢ p)
          × (lookup p (publishers media r) ≡ some track.ssrc)
          × (track.publisher_session_id ≡ id)
          × (has_instance id (session_of p r) ≡ true)
    go none e q = absurd (ground arith)
    go (some s) e q =
        let held : (lookup p (outgoing_tracks media s) ≡ some track)
            × (u ≢ p)
            × (track.publisher_session_id ≡ id)
            × (has_instance id (session_of p r) ≡ true) =
          ground arith in
        (held.1, (v.current u s media p track e held.0).0, held.2, held.3)

outgoing_none :
    (m : MediaType) (s : MediaSession) (p : ℕ)
    → s.outgoing_video_tracks ≡ []
    → s.outgoing_audio_tracks ≡ []
    → lookup p (outgoing_tracks m s) ≡ none
unfolding lookup
outgoing_none video s p hv ha = rw hv refl
outgoing_none audio s p hv ha = rw ha refl

-- A member who joins under a uid that no session of the room has, with a session of that uid and
-- no tracks yet, leaves a consistent room consistent.
pub add_peer-IsConsistent :
    (r : MediaRoom) (u : ℕ) (s : MediaSession)
    → IsConsistent r
    → session_of u r ≡ none
    → s.uid ≡ u
    → s.outgoing_video_tracks ≡ []
    → s.outgoing_audio_tracks ≡ []
    → IsConsistent (add_peer (record { peer_uid = u; session = some s }) r)
unfolding add_peer
add_peer-IsConsistent r u s v new own hv ha = record {
  filed = λ w x h. ground (arith, at w, v.filed w x, h);
  registered =
      λ m p ssrc h. let (x, e) = v.registered m p ssrc (same m p ∙ h) in (x, ground (arith, at p));
  below = λ m p ssrc h. v.below m p ssrc (same m p ∙ h);
  distinct = λ m n p q ssrc h k. v.distinct m n p q ssrc (same m p ∙ h) (same n q ∙ k);
  current = λ w x m p track h k. elim (Bool-cases (u == w)) [
    | inl t ↦ absurd (
        let e : x ≡ s = ground (arith, at w) in
        let e' = ap (λ y. lookup p (outgoing_tracks m y)) e in
        let q = outgoing_none m s p hv ha in cc)
    | inr t ↦
        let c = v.current w x m p track (ground (arith, at w)) k in
        (sym (same m p) ∙ c.0, (c.1.0, ground (arith, at p, c.1.1), c.1.2))
  ];
  unique_video = v.unique_video;
  unique_peers = assign-UniqueKeys u _ r.peers v.unique_peers;
}
  where
    r' : MediaRoom
    r' = add_peer (record { peer_uid = u; session = some s }) r

    at : (w : ℕ) → session_of w r' ≡ (if u == w then some s else session_of w r)
    at w = ground (arith, lookup-assign u w (record { peer_uid = u; session = some s }) r.peers)

    same : (m : MediaType) (p : ℕ) → lookup p (publishers m r) ≡ lookup p (publishers m r')
    same video p = refl
    same audio p = refl
