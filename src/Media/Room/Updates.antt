-- ===== src/Media/Room/Updates.antt =====
-- Changes of one member and of one publication keep a room consistent.
use sync_rtc.Prelude.{
  ℕ, ◌+◌, ◌%◌, ◌^◌, ◌<◌, ◌≡◌, refl, sym, ap, subst, ◌∙◌, ◌⊎◌, inl, inr, none, some, ◌==◌,
  if◌then◌else◌, arith, Bool-cases,
}
use sync_rtc.Prelude.Assoc.{lookup, lookup-assign, UniqueKeys, assign-UniqueKeys}
use sync_rtc.Media.MediaSession.{
  MediaType, video, audio, MediaSession, OutgoingTrack, outgoing_tracks,
}
use sync_rtc.Media.Room.{MediaRoom, publishers, peer_session, session_of, put_session}
use sync_rtc.Media.Room.Registration.{publish}
use sync_rtc.Media.Room.Consistency.{IsConsistent, IsCurrent}

pub session_of-put :
    (u w : ℕ) (s : MediaSession) (r : MediaRoom)
    → session_of w (put_session u s r) ≡ (if u == w then some s else session_of w r)
session_of-put u w s r =
    ground (arith, lookup-assign u w (record { peer_uid = u; session = some s }) r.peers)

pub publishers-put :
    (m : MediaType) (u p : ℕ) (s : MediaSession) (r : MediaRoom)
    → lookup p (publishers m (put_session u s r)) ≡ lookup p (publishers m r)
publishers-put video u p s r = refl
publishers-put audio u p s r = refl

module _ (u : ℕ) (s s' : MediaSession) (r : MediaRoom) (found : session_of u r ≡ some s)
    (same : s'.instance_id ≡ s.instance_id) where
  put_target :
      (p : ℕ) (source : MediaSession)
      → session_of p r ≡ some source
      → (x : MediaSession) × (session_of p (put_session u s' r) ≡ some x)
        × (x.instance_id ≡ source.instance_id)
  put_target p source e = elim (Bool-cases (u == p)) [
    | inl t ↦ (s', ground (arith, session_of-put u p s' r), ground arith)
    | inr t ↦ (source, ground (arith, session_of-put u p s' r), refl)
  ]

  put_source :
      (p : ℕ) (x : MediaSession)
      → session_of p (put_session u s' r) ≡ some x
      → ((p ≡ u) × (x ≡ s')) ⊎ (session_of p r ≡ some x)
  put_source p x e = ground (arith, session_of-put u p s' r)

  put-IsCurrent :
      (m : MediaType) (p : ℕ) (t : OutgoingTrack)
      → IsCurrent r m p t
      → IsCurrent (put_session u s' r) m p t
  put-IsCurrent m p t c =
      let (x, e, q) = put_target p c.1.0 c.1.1 in
      (publishers-put m u p s' r ∙ c.0, (x, e, q ∙ c.1.2))

  -- An update of a member's object that keeps its identity and leads to current publications.
  pub put_session-IsConsistent :
      IsConsistent r
      → s'.uid ≡ u
      → ((m : MediaType) (p : ℕ) (t : OutgoingTrack)
          → lookup p (outgoing_tracks m s') ≡ some t
          → IsCurrent r m p t)
      → IsConsistent (put_session u s' r)
  put_session-IsConsistent v own tracks = record {
    filed = λ w x h. elim (put_source w x h) [
      | inl (pw, xs) ↦ ap (λ (y : MediaSession). y.uid) xs ∙ own ∙ sym pw
      | inr e ↦ v.filed w x e
    ];
    registered = λ m p ssrc h.
        let (y, e) = v.registered m p ssrc (sym (publishers-put m u p s' r) ∙ h) in
        let (x, f, _) = put_target p y e in (x, f);
    below = λ m p ssrc h. v.below m p ssrc (sym (publishers-put m u p s' r) ∙ h);
    distinct = λ m n p q ssrc h k.
        v.distinct m n p q ssrc (sym (publishers-put m u p s' r) ∙ h)
          (sym (publishers-put n u q s' r) ∙ k);
    current = λ w x m p track h k. put-IsCurrent m p track (elim (put_source w x h) [
      | inl (pw, xs) ↦
          tracks m p track (subst (λ y. lookup p (outgoing_tracks m y) ≡ some track) xs k)
      | inr e ↦ v.current w x m p track e k
    ]);
    unique_video = v.unique_video;
    unique_peers = assign-UniqueKeys u _ r.peers v.unique_peers;
  }

-- A new publication: the next SSRC, for a member with a session that does not publish this media.
pub publish_room :
    (media : MediaType) (uid p x : ℕ) (m : MediaType) (r : MediaRoom)
    → lookup p (publishers m (publish media uid r)) ≡ some x
    → ((m ≡ media) × (p ≡ uid) × (x ≡ r.next_ssrc)) ⊎ (lookup p (publishers m r) ≡ some x)
unfolding publish
publish_room video uid p x video r h =
    ground (arith, lookup-assign uid p r.next_ssrc r.video_publishers)
publish_room video uid p x audio r h = inr h
publish_room audio uid p x video r h = inr h
publish_room audio uid p x audio r h =
    ground (arith, lookup-assign uid p r.next_ssrc r.audio_publishers)

pub publish_keep :
    (media : MediaType) (uid p x : ℕ) (m : MediaType) (r : MediaRoom)
    → lookup uid (publishers media r) ≡ none
    → lookup p (publishers m r) ≡ some x
    → lookup p (publishers m (publish media uid r)) ≡ some x
unfolding publish
publish_keep video uid p x video r n h =
    ground (arith, lookup-assign uid p r.next_ssrc r.video_publishers)
publish_keep video uid p x audio r n h = h
publish_keep audio uid p x video r n h = h
publish_keep audio uid p x audio r n h =
    ground (arith, lookup-assign uid p r.next_ssrc r.audio_publishers)

pub publish_rest :
    (media : MediaType) (uid : ℕ) (r : MediaRoom)
    → ((publish media uid r).peers ≡ r.peers)
      × ((publish media uid r).next_ssrc ≡ (r.next_ssrc + 1) % 2 ^ 32)
unfolding publish
publish_rest video uid r = (refl, refl)
publish_rest audio uid r = (refl, refl)

publish-UniqueKeys :
    (media : MediaType) (uid : ℕ) (r : MediaRoom)
    → UniqueKeys r.video_publishers
    → UniqueKeys (publish media uid r).video_publishers
unfolding publish
publish-UniqueKeys video uid r u = assign-UniqueKeys uid r.next_ssrc r.video_publishers u
publish-UniqueKeys audio uid r u = u

pub publish-IsConsistent :
    (media : MediaType) (uid : ℕ) (r : MediaRoom) (s : MediaSession)
    → IsConsistent r
    → session_of uid r ≡ some s
    → lookup uid (publishers media r) ≡ none
    → r.next_ssrc + 1 < 2 ^ 32
    → IsConsistent (publish media uid r)
publish-IsConsistent media uid r s v found new room = record {
  filed = λ w x h. v.filed w x (at w ∙ h);
  registered = λ m p ssrc h. elim (publish_room media uid p ssrc m r h) [
    | inl (_, e, _) ↦ (s, sym (at p) ∙ ap (λ w. session_of w r) e ∙ found)
    | inr e ↦ (let (x, f) = v.registered m p ssrc e in (x, sym (at p) ∙ f))
  ];
  below = λ m p ssrc h. elim (publish_room media uid p ssrc m r h) [
    | inl (_, _, e) ↦ omega (arith, next)
    | inr e ↦ (let lt = v.below m p ssrc e in omega (arith, next))
  ];
  distinct = λ m n p q ssrc h k. elim (publish_room media uid p ssrc m r h) [
    | inl (em, ep, e) ↦ elim (publish_room media uid q ssrc n r k) [
      | inl (en, eq', f) ↦ (em ∙ sym en, ep ∙ sym eq')
      | inr f ↦ absurd (let lt = v.below n q ssrc f in omega arith)
    ]
    | inr e ↦ elim (publish_room media uid q ssrc n r k) [
      | inl (en, eq', f) ↦ absurd (let lt = v.below m p ssrc e in omega arith)
      | inr f ↦ v.distinct m n p q ssrc e f
    ]
  ];
  current = λ w x m p track h k.
      let c = v.current w x m p track (at w ∙ h) k in
      (publish_keep media uid p track.ssrc m r new c.0, (c.1.0, sym (at p) ∙ c.1.1, c.1.2));
  unique_video = publish-UniqueKeys media uid r v.unique_video;
  unique_peers = subst UniqueKeys (sym (publish_rest media uid r).0) v.unique_peers;
}
  where
    at : (w : ℕ) → session_of w r ≡ session_of w (publish media uid r)
    at w = ap (λ m. peer_session (lookup w m)) (sym (publish_rest media uid r).0)

    next : (publish media uid r).next_ssrc ≡ (r.next_ssrc + 1) % 2 ^ 32
    next = (publish_rest media uid r).1
