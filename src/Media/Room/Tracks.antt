-- ===== src/Media/Room/Tracks.antt =====
-- The two loops of RegisterPublisherTrack keep a room consistent, whatever calls of the library throw.
use sync_rtc.Prelude.{
  ℕ, ◌≡◌, refl, sym, ap, ◌∙◌, ◌⊎◌, inl, inr, Bool, not, ◌||◌, Option, none, some, List, [], ◌∷◌,
  ◌==◌, arith, Bool-cases,
}
use sync_rtc.Prelude.Assoc.{lookup, lookup-assign}
use sync_rtc.Media.MediaSession.{
  MediaType, video, audio, MediaSession, OutgoingTrack, outgoing_tracks, add_outgoing_track,
  request_renegotiation,
}
use sync_rtc.Media.Room.{MediaRoom, publishers, session_of, put_session, remove_peer, removed}
use sync_rtc.Media.Room.Registration.{
  Binding, or_remove, add_track_to, add_track, add_tracks, negotiate_with, negotiate, negotiate_all,
}
use sync_rtc.Media.Room.Consistency.{
  IsConsistent, IsCurrent, remove_peer-IsConsistent, publishers-keep, session_of-removed,
}
use sync_rtc.Media.Room.Updates.{put_session-IsConsistent, session_of-put, publishers-put}

-- The publication that a binding was made for stands, or its publisher is gone.
abbrev pub IsBacked : MediaRoom → ℕ → MediaType → ℕ → Type 0
IsBacked r p m ssrc = (session_of p r ≡ none) ⊎ (lookup p (publishers m r) ≡ some ssrc)

-- What the operations on other members do to a publication.
pub record Keeps (r r' : MediaRoom) : Type 0 where
  pub backed : (p : ℕ) (m : MediaType) (ssrc : ℕ) → IsBacked r p m ssrc → IsBacked r' p m ssrc

Keeps-removed : (uid : ℕ) (r : MediaRoom) → Keeps r (removed uid r)
Keeps-removed uid r = record {
  backed = λ p m ssrc h. ground (arith, session_of-removed uid p r, publishers-keep m uid p r);
}

Keeps-remove_peer : (uid id : ℕ) (r : MediaRoom) → Keeps r (remove_peer uid id r)
unfolding remove_peer
Keeps-remove_peer uid id r = record {
  backed = λ p m ssrc h. ground (arith, h, (Keeps-removed uid r).backed p m ssrc h);
}

Keeps-put :
    (u : ℕ) (s s' : MediaSession) (r : MediaRoom)
    → session_of u r ≡ some s
    → Keeps r (put_session u s' r)
Keeps-put u s s' r found = record {
  backed = λ p m ssrc h. ground (arith, h, session_of-put u p s' r, publishers-put m u p s' r);
}

-- The tracks of a session after one was added.
added_track :
    (throws : Bool) (p id ssrc q : ℕ) (m n : MediaType) (s s' : MediaSession) (t : OutgoingTrack)
    → add_outgoing_track throws p id m ssrc s ≡ some s'
    → lookup q (outgoing_tracks n s') ≡ some t
    → (lookup q (outgoing_tracks n s) ≡ some t)
      ⊎ ((n ≡ m) × (q ≡ p) × (t ≡ record { ssrc = ssrc; publisher_session_id = id }))
unfolding add_outgoing_track
added_track throws p id ssrc q video video s s' t e h = ground (
  arith,
  lookup-assign p q (record { ssrc = ssrc; publisher_session_id = id }) s.outgoing_video_tracks,
)
added_track throws p id ssrc q video audio s s' t e h = ground arith
added_track throws p id ssrc q audio video s s' t e h = ground arith
added_track throws p id ssrc q audio audio s s' t e h = ground (
  arith,
  lookup-assign p q (record { ssrc = ssrc; publisher_session_id = id }) s.outgoing_audio_tracks,
)

added_same :
    (throws : Bool) (p id ssrc : ℕ) (m : MediaType) (s s' : MediaSession)
    → add_outgoing_track throws p id m ssrc s ≡ some s'
    → (s'.uid ≡ s.uid) × (s'.instance_id ≡ s.instance_id)
unfolding add_outgoing_track
added_same throws p id ssrc video s s' e = ground arith
added_same throws p id ssrc audio s s' e = ground arith

-- One round of either loop.
abbrev pub Sound : MediaRoom → MediaRoom → Type 0
Sound r r' = IsConsistent r' × Keeps r r'

Sound-remove_peer : (uid id : ℕ) (r : MediaRoom) → IsConsistent r → Sound r (remove_peer uid id r)
Sound-remove_peer uid id r v = (remove_peer-IsConsistent uid id r v, Keeps-remove_peer uid id r)

module _ (throws : Binding → Bool) (b : Binding) (r : MediaRoom) (v : IsConsistent r)
    (t source : MediaSession) (target : session_of t.uid r ≡ some t)
    (from : session_of b.publisher_uid r ≡ some source)
    (is_source : source.instance_id ≡ b.publisher_session_id)
    (backed : lookup b.publisher_uid (publishers b.media r) ≡ some b.ssrc) where
  added-Sound :
      (o : Option MediaSession)
      → add_outgoing_track (throws b) b.publisher_uid b.publisher_session_id b.media b.ssrc t ≡ o
      → Sound r (or_remove t o r)
  added-Sound none e = Sound-remove_peer t.uid t.instance_id r v
  added-Sound (some t') e = (
    put_session-IsConsistent t.uid t t' r target same.1 v same.0 leads,
    Keeps-put t.uid t t' r target,
  )
    where
      same : (t'.uid ≡ t.uid) × (t'.instance_id ≡ t.instance_id)
      same = added_same (throws b) b.publisher_uid b.publisher_session_id b.ssrc b.media t t' e

      leads :
          (m : MediaType) (p : ℕ) (track : OutgoingTrack)
          → lookup p (outgoing_tracks m t') ≡ some track
          → IsCurrent r m p track
      leads m p track h =
          elim (added_track (throws b) b.publisher_uid b.publisher_session_id b.ssrc p b.media m t
            t' track e h) [
              | inl old ↦ v.current t.uid t m p track target old
              | inr (em, ep, et) ↦ rw (em, ep, et) (backed, (source, from, is_source))
            ]

Keeps-refl : (r : MediaRoom) → Keeps r r
Keeps-refl r = record { backed = λ p m ssrc k. k }

add_track-Sound :
    (throws : Binding → Bool) (b : Binding) (r : MediaRoom)
    → IsConsistent r
    → IsBacked r b.publisher_uid b.media b.ssrc
    → Sound r (add_track throws b r)
unfolding add_track
add_track-Sound throws b r v h =
    go (session_of b.target_uid r) (session_of b.publisher_uid r) refl refl
  where
    go :
        (x y : Option MediaSession)
        → session_of b.target_uid r ≡ x
        → session_of b.publisher_uid r ≡ y
        → Sound r (add_track_to throws b x y r)
    go (some t) (some source) e f =
        elim (Bool-cases (
          not (t.instance_id == b.target_session_id)
          || not (source.instance_id == b.publisher_session_id))) [
            | inl x ↦ rw x (v, Keeps-refl r)
            | inr x ↦ rw x (
                added-Sound throws b r v t source
                  (ap (λ u. session_of u r) (v.filed b.target_uid t e) ∙ e) f (ground arith)
                  (ground arith) _ refl)
          ]
    go _ _ e f = (v, Keeps-refl r)

-- All bindings are backed.
abbrev pub AllBacked : MediaRoom → List Binding → Type 0
AllBacked r [] = Unit {0}
AllBacked r (b ∷ bs) = IsBacked r b.publisher_uid b.media b.ssrc × AllBacked r bs

AllBacked-Keeps :
    (bs : List Binding) (r r' : MediaRoom) → Keeps r r' → AllBacked r bs → AllBacked r' bs
AllBacked-Keeps [] r r' k h = tt
AllBacked-Keeps (b ∷ bs) r r' k h =
    (k.backed b.publisher_uid b.media b.ssrc h.0, AllBacked-Keeps bs r r' k h.1)

pub add_tracks-IsConsistent :
    (throws : Binding → Bool) (bs : List Binding) (r : MediaRoom)
    → IsConsistent r
    → AllBacked r bs
    → IsConsistent (add_tracks throws bs r)
unfolding add_tracks
add_tracks-IsConsistent throws [] r v h = v
add_tracks-IsConsistent throws (b ∷ bs) r v h =
    let s = add_track-Sound throws b r v h.0 in
    add_tracks-IsConsistent throws bs (add_track throws b r) s.0 (AllBacked-Keeps bs r _ s.1 h.1)

renegotiated_same :
    (s : MediaSession)
    → ((request_renegotiation s).0.uid ≡ s.uid)
      × ((request_renegotiation s).0.instance_id ≡ s.instance_id)
unfolding request_renegotiation
renegotiated_same s = ground arith

renegotiated_tracks :
    (m : MediaType) (s : MediaSession)
    → outgoing_tracks m (request_renegotiation s).0 ≡ outgoing_tracks m s
unfolding request_renegotiation
renegotiated_tracks video s = ground arith
renegotiated_tracks audio s = ground arith

negotiate-IsConsistent :
    (throws : ℕ → Bool) (s : MediaSession) (r : MediaRoom)
    → IsConsistent r
    → IsConsistent (negotiate throws s r)
unfolding negotiate
negotiate-IsConsistent throws s r v = go (session_of s.uid r) refl
  where
    go :
        (x : Option MediaSession)
        → session_of s.uid r ≡ x
        → IsConsistent (negotiate_with throws s.instance_id x r)
    go none e = v
    go (some t) e =
        let same = renegotiated_same t in
        let here : session_of t.uid r ≡ some t = ap (λ u. session_of u r) (v.filed s.uid t e) ∙ e in
        let kept : IsConsistent (put_session t.uid (request_renegotiation t).0 r) =
          put_session-IsConsistent t.uid t (request_renegotiation t).0 r here same.1 v same.0
            (λ m p track h.
              v.current t.uid t m p track here
                (ap (lookup p) (sym (renegotiated_tracks m t)) ∙ h)) in
        ground (arith, v, kept, remove_peer-IsConsistent t.uid t.instance_id r v)

pub negotiate_all-IsConsistent :
    (throws : ℕ → Bool) (ss : List MediaSession) (r : MediaRoom)
    → IsConsistent r
    → IsConsistent (negotiate_all throws ss r)
unfolding negotiate_all
negotiate_all-IsConsistent throws [] r v = v
negotiate_all-IsConsistent throws (s ∷ ss) r v =
    negotiate_all-IsConsistent throws ss (negotiate throws s r)
      (negotiate-IsConsistent throws s r v)
