-- ===== src/Media/Room/Membership.antt =====
-- The operations of a room bring no session into it; only AddPeer does.
use sync_rtc.Prelude.{
  ℕ, ◌≡◌, refl, sym, ap, subst, ◌∙◌, inl, inr, Bool, true, false, not, ◌||◌, ◌&&◌, Option, none,
  some, List, [], ◌∷◌, ◌==◌, if◌then◌else◌, arith, Bool-cases,
}
use sync_rtc.Prelude.Assoc.{lookup}
use sync_rtc.Media.MediaSession.{
  MediaType, video, audio, MediaSession, is_some, remove_outgoing_tracks, add_outgoing_track,
  request_renegotiation,
}
use sync_rtc.Media.Room.{
  MediaRoom, session_of, peer_session, publishers, put_session, remove_peer, removed, has_instance,
}
use sync_rtc.Media.Room.Registration.{
  Binding, publish, or_remove, add_track_to, add_track, add_tracks, negotiate_with, negotiate,
  negotiate_all, collect, carry_out, announce, register_session, register_publisher_track,
}
use sync_rtc.Media.Room.Consistency.{session_of-removed}
use sync_rtc.Media.Room.Updates.{session_of-put, publish_rest}

-- Every member of `r'` was one of `r`, on the same connection.
pub record NoneJoined (r r' : MediaRoom) : Type 0 where
  pub was :
      (u : ℕ) (s' : MediaSession)
      → session_of u r' ≡ some s'
      → (s : MediaSession) × (session_of u r ≡ some s) × (s.connection ≡ s'.connection)

pub NoneJoined-refl : (r : MediaRoom) → NoneJoined r r
NoneJoined-refl r = record { was = λ u s h. (s, h, refl) }

pub NoneJoined-trans : (a b c : MediaRoom) → NoneJoined a b → NoneJoined b c → NoneJoined a c
NoneJoined-trans a b c f g = record {
  was = λ u s h. let (t, e, q) = g.was u s h in let (x, e', q') = f.was u t e in (x, e', q' ∙ q);
}

removed-NoneJoined : (uid : ℕ) (r : MediaRoom) → NoneJoined r (removed uid r)
unfolding remove_outgoing_tracks
removed-NoneJoined uid r = record { was = λ u s h. go u s h (session_of u r) refl }
  where
    go :
        (u : ℕ) (s : MediaSession)
        → session_of u (removed uid r) ≡ some s
        → (o : Option MediaSession) → session_of u r ≡ o
        → (t : MediaSession) × (session_of u r ≡ some t) × (t.connection ≡ s.connection)
    go u s h none e = absurd (ground (arith, e, session_of-removed uid u r))
    go u s h (some t) e = (t, e, ground (arith, e, session_of-removed uid u r))

pub remove_peer-NoneJoined : (uid id : ℕ) (r : MediaRoom) → NoneJoined r (remove_peer uid id r)
unfolding remove_peer
remove_peer-NoneJoined uid id r = ground (arith, removed-NoneJoined uid r, NoneJoined-refl r)

pub put_session-NoneJoined :
    (u : ℕ) (s s' : MediaSession) (r : MediaRoom)
    → session_of u r ≡ some s
    → s.connection ≡ s'.connection
    → NoneJoined r (put_session u s' r)
put_session-NoneJoined u s s' r found same = record {
  was = λ w x h. elim (Bool-cases (u == w)) [
    | inl t ↦ (s, ground (arith, found), ground (arith, same, session_of-put u w s' r))
    | inr t ↦ (x, ground (arith, session_of-put u w s' r), refl)
  ];
}

publish-NoneJoined :
    (media : MediaType) (uid : ℕ) (r : MediaRoom) → NoneJoined r (publish media uid r)
publish-NoneJoined media uid r = record {
  was = λ u s h.
      (s, ap (λ m. peer_session (lookup u m)) (sym (publish_rest media uid r).0) ∙ h, refl);
}

added-connection :
    (throws : Bool) (p id ssrc : ℕ) (m : MediaType) (s s' : MediaSession)
    → add_outgoing_track throws p id m ssrc s ≡ some s'
    → s.connection ≡ s'.connection
unfolding add_outgoing_track
added-connection throws p id ssrc video s s' e = ground arith
added-connection throws p id ssrc audio s s' e = ground arith

-- Members are filed under their own uid, under which the loops put a changed session back.
abbrev pub FiledAt : MediaRoom → Type 0
FiledAt r = (u : ℕ) (s : MediaSession) → session_of u r ≡ some s → s.uid ≡ u

removed-FiledAt : (uid : ℕ) (r : MediaRoom) → FiledAt r → FiledAt (removed uid r)
unfolding remove_outgoing_tracks
removed-FiledAt uid r f u s h = go (session_of u r) refl
  where
    go : (o : Option MediaSession) → session_of u r ≡ o → s.uid ≡ u
    go none e = absurd (ground (arith, e, session_of-removed uid u r))
    go (some t) e = ground (arith, e, f u t e, session_of-removed uid u r)

abbrev pub Kept : MediaRoom → MediaRoom → Type 0
Kept r r' = NoneJoined r r' × FiledAt r'

remove_peer-Kept : (uid id : ℕ) (r : MediaRoom) → FiledAt r → Kept r (remove_peer uid id r)
unfolding remove_peer
remove_peer-Kept uid id r f = go (not (id == 0) && not (has_instance id (session_of uid r)))
  where
    go : (b : Bool) → Kept r (if b then r else removed uid r)
    go true = (NoneJoined-refl r, f)
    go false = (removed-NoneJoined uid r, removed-FiledAt uid r f)

put_session-Kept :
    (u : ℕ) (s s' : MediaSession) (r : MediaRoom)
    → session_of u r ≡ some s
    → s.connection ≡ s'.connection
    → s'.uid ≡ u
    → FiledAt r
    → Kept r (put_session u s' r)
put_session-Kept u s s' r found same own f = (
  put_session-NoneJoined u s s' r found same,
  λ w x h. elim (Bool-cases (u == w)) [
    | inl t ↦ ground (arith, own, session_of-put u w s' r)
    | inr t ↦ f w x (ground (arith, session_of-put u w s' r))
  ],
)

added_uid :
    (throws : Bool) (p id ssrc : ℕ) (m : MediaType) (s s' : MediaSession)
    → add_outgoing_track throws p id m ssrc s ≡ some s'
    → s'.uid ≡ s.uid
unfolding add_outgoing_track
added_uid throws p id ssrc video s s' e = ground arith
added_uid throws p id ssrc audio s s' e = ground arith

add_track-Kept :
    (throws : Binding → Bool) (b : Binding) (r : MediaRoom)
    → FiledAt r
    → Kept r (add_track throws b r)
unfolding add_track
add_track-Kept throws b r f = go (session_of b.target_uid r) (session_of b.publisher_uid r) refl
  where
    tried :
        (t : MediaSession) (o : Option MediaSession)
        → session_of t.uid r ≡ some t
        → add_outgoing_track (throws b) b.publisher_uid b.publisher_session_id b.media b.ssrc t ≡ o
        → Kept r (or_remove t o r)
    tried t none e q = remove_peer-Kept t.uid t.instance_id r f
    tried t (some t') e q =
        put_session-Kept t.uid t t' r e
          (added-connection (throws b) b.publisher_uid b.publisher_session_id b.ssrc b.media t t' q)
          (added_uid (throws b) b.publisher_uid b.publisher_session_id b.ssrc b.media t t' q) f

    go :
        (x y : Option MediaSession)
        → session_of b.target_uid r ≡ x
        → Kept r (add_track_to throws b x y r)
    go (some t) (some source) e =
        elim (Bool-cases (
          not (t.instance_id == b.target_session_id)
          || not (source.instance_id == b.publisher_session_id))) [
            | inl x ↦ rw x (NoneJoined-refl r, f)
            | inr x ↦ rw x (tried t _ (ap (λ u. session_of u r) (f b.target_uid t e) ∙ e) refl)
          ]
    go _ _ e = (NoneJoined-refl r, f)

add_tracks-Kept :
    (throws : Binding → Bool) (bs : List Binding) (r : MediaRoom)
    → FiledAt r
    → Kept r (add_tracks throws bs r)
unfolding add_tracks
add_tracks-Kept throws [] r f = (NoneJoined-refl r, f)
add_tracks-Kept throws (b ∷ bs) r f =
    let (j, g) = add_track-Kept throws b r f in
    let (k, h) = add_tracks-Kept throws bs _ g in (NoneJoined-trans r _ _ j k, h)

renegotiated :
    (s : MediaSession)
    → ((request_renegotiation s).0.connection ≡ s.connection)
      × ((request_renegotiation s).0.uid ≡ s.uid)
unfolding request_renegotiation
renegotiated s = ground arith

negotiate-Kept :
    (throws : ℕ → Bool) (s : MediaSession) (r : MediaRoom)
    → FiledAt r
    → Kept r (negotiate throws s r)
unfolding negotiate
negotiate-Kept throws s r f = go (session_of s.uid r) refl
  where
    go :
        (x : Option MediaSession)
        → session_of s.uid r ≡ x
        → Kept r (negotiate_with throws s.instance_id x r)
    go none e = (NoneJoined-refl r, f)
    go (some t) e =
        let (c, own) = renegotiated t in
        let here : session_of t.uid r ≡ some t = ap (λ u. session_of u r) (f s.uid t e) ∙ e in
        let put : Kept r (put_session t.uid (request_renegotiation t).0 r) =
          put_session-Kept t.uid t _ r here (sym c) own f in
        let gone : Kept r (remove_peer t.uid t.instance_id r) =
          remove_peer-Kept t.uid t.instance_id r f in
        let same : Kept r r = (NoneJoined-refl r, f) in
        elim (Bool-cases (not (t.instance_id == s.instance_id))) [
          | inl x ↦ rw x same
          | inr x ↦ elim (Bool-cases ((request_renegotiation t).1 && throws t.instance_id)) [
            | inl y ↦ rw (x, y) gone
            | inr y ↦ rw (x, y) put
          ]
        ]

negotiate_all-Kept :
    (throws : ℕ → Bool) (ss : List MediaSession) (r : MediaRoom)
    → FiledAt r
    → Kept r (negotiate_all throws ss r)
unfolding negotiate_all
negotiate_all-Kept throws [] r f = (NoneJoined-refl r, f)
negotiate_all-Kept throws (s ∷ ss) r f =
    let (j, g) = negotiate-Kept throws s r f in
    let (k, h) = negotiate_all-Kept throws ss _ g in (NoneJoined-trans r _ _ j k, h)

carry_out-NoneJoined :
    (add_throws : Binding → Bool) (offer_throws : ℕ → Bool) (r r' : MediaRoom)
    (o : Option (List Binding × List MediaSession))
    → FiledAt r
    → carry_out add_throws offer_throws r o ≡ some r'
    → NoneJoined r r'
carry_out-NoneJoined add_throws offer_throws r r' none f e = absurd (ground arith)
carry_out-NoneJoined add_throws offer_throws r r' (some (bs, ss)) f e =
    let tracked : Kept r (add_tracks add_throws bs r) = add_tracks-Kept add_throws bs r f in
    let negotiated : Kept (add_tracks add_throws bs r)
        (negotiate_all offer_throws ss (add_tracks add_throws bs r)) =
      negotiate_all-Kept offer_throws ss _ tracked.1 in
    let joined : NoneJoined r (negotiate_all offer_throws ss (add_tracks add_throws bs r)) =
      NoneJoined-trans r _ _ tracked.0 negotiated.0 in
    subst (NoneJoined r) (ground (arith, e)) joined

announce-NoneJoined :
    (add_throws : Binding → Bool) (offer_throws : ℕ → Bool) (uid : ℕ) (s : MediaSession)
    (x y : Option ℕ) (r r' : MediaRoom)
    → FiledAt r
    → announce add_throws offer_throws uid s x y r ≡ some r'
    → NoneJoined r r'
announce-NoneJoined add_throws offer_throws uid s (some a) (some b) r r' f e =
    carry_out-NoneJoined add_throws offer_throws r r' (collect uid s a b r) f e
announce-NoneJoined add_throws offer_throws uid s _ _ r r' f e =
    ground (arith, e, NoneJoined-refl r)

pub register_publisher_track-NoneJoined :
    (add_throws : Binding → Bool) (offer_throws : ℕ → Bool) (uid : ℕ) (media : MediaType)
    (r r' : MediaRoom)
    → FiledAt r
    → register_publisher_track add_throws offer_throws uid media r ≡ some r'
    → NoneJoined r r'
unfolding register_publisher_track register_session
register_publisher_track-NoneJoined add_throws offer_throws uid media r r' f = go (session_of uid r)
  where
    filed : FiledAt (publish media uid r)
    filed u s h = f u s (ap (λ m. peer_session (lookup u m)) (sym (publish_rest media uid r).0) ∙ h)

    go :
        (o : Option MediaSession)
        → register_session add_throws offer_throws uid media o r ≡ some r'
        → NoneJoined r r'
    go none e = ground (arith, e, NoneJoined-refl r)
    go (some s) e = at (is_some (lookup uid (publishers media r))) e
      where
        at :
            (b : Bool)
            → (if b
                then some r
                else announce add_throws offer_throws uid s
                    (lookup uid (publish media uid r).video_publishers)
                    (lookup uid (publish media uid r).audio_publishers)
                    (publish media uid r))
              ≡ some r'
            → NoneJoined r r'
        at true e = ground (arith, e, NoneJoined-refl r)
        at false e =
            NoneJoined-trans r _ r' (publish-NoneJoined media uid r)
              (announce-NoneJoined add_throws offer_throws uid s _ _ _ r' filed e)
