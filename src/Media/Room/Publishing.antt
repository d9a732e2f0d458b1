-- ===== src/Media/Room/Publishing.antt =====
-- RegisterPublisherTrack as a whole keeps the room consistent and never faults.
use sync_rtc.Prelude.{
  ℕ, ◌+◌, ◌^◌, ◌<◌, ◌≡◌, refl, inl, inr, Bool, Option, none, some, List, [], ◌∷◌, ◌++◌, ◌==◌,
  if◌then◌else◌, arith, Bool-cases,
}
use sync_rtc.Prelude.Assoc.{Assoc, lookup, UniqueKeys, lookup-is_free}
use sync_rtc.Media.MediaSession.{MediaType, video, MediaSession}
use sync_rtc.Media.Room.{MediaRoom, publishers, session_of, receivers}
use sync_rtc.Media.Room.Registration.{
  Binding, negotiate_all, both_bindings, publish, collect, add_tracks, announce, existing_bindings,
  receiver_bindings, register_session, register_publisher_track, is_empty_list,
}
use sync_rtc.Media.Room.Consistency.{IsConsistent}
use sync_rtc.Media.Room.Updates.{publish-IsConsistent}
use sync_rtc.Media.Room.Tracks.{AllBacked, add_tracks-IsConsistent, negotiate_all-IsConsistent}

AllBacked-append :
    (r : MediaRoom) (bs cs : List Binding)
    → AllBacked r bs
    → AllBacked r cs
    → AllBacked r (bs ++ cs)
AllBacked-append r [] cs h k = k
AllBacked-append r (b ∷ bs) cs h k = (h.0, AllBacked-append r bs cs h.1 k)

receiver_bindings-AllBacked :
    (r : MediaRoom) (uid id v a : ℕ) (ts : List MediaSession)
    → lookup uid r.video_publishers ≡ some v
    → lookup uid r.audio_publishers ≡ some a
    → AllBacked r (receiver_bindings uid id v a ts)
unfolding receiver_bindings
receiver_bindings-AllBacked r uid id v a [] hv ha = tt
receiver_bindings-AllBacked r uid id v a (t ∷ ts) hv ha =
    (inr hv, (inr ha, receiver_bindings-AllBacked r uid id v a ts hv ha))

-- The entries `m` are among those of the room's table.
abbrev Among : Assoc ℕ → MediaRoom → Type 0
Among m r = (u x : ℕ) → lookup u m ≡ some x → lookup u r.video_publishers ≡ some x

module _ (publisher_uid : ℕ) (s : MediaSession) (r : MediaRoom) (v : IsConsistent r) where
  abbrev Collected : Option (List Binding) → Type 0
  Collected o = (bs : List Binding) × (o ≡ some bs) × AllBacked r bs

  existing_entry :
      (uid x : ℕ) (rest : List Binding)
      → lookup uid r.video_publishers ≡ some x
      → AllBacked r rest
      → Collected (
          if uid == publisher_uid then some rest else elim (lookup uid r.audio_publishers) [
            | none ↦ some rest
            | some audio_ssrc ↦ elim (session_of uid r) [
              | none ↦ none
              | some source ↦ some (both_bindings s uid source.instance_id x audio_ssrc rest)
            ]
          ])
  existing_entry uid x rest hx h = go (lookup uid r.audio_publishers) (session_of uid r) refl refl
    where
      go :
          (a : Option ℕ) (o : Option MediaSession)
          → lookup uid r.audio_publishers ≡ a
          → session_of uid r ≡ o
          → Collected (
              if uid == publisher_uid then some rest else elim a [
                | none ↦ some rest
                | some audio_ssrc ↦ elim o [
                  | none ↦ none
                  | some source ↦ some (both_bindings s uid source.instance_id x audio_ssrc rest)
                ]
              ])
      go none o ea eo = (rest, ground arith, h)
      go (some a) none ea eo = absurd (let (_, found) = v.registered video uid x hx in cc)
      go (some a) (some source) ea eo = elim (Bool-cases (uid == publisher_uid)) [
        | inl t ↦ (rest, ground arith, h)
        | inr t ↦
            (both_bindings s uid source.instance_id x a rest, ground arith, (inr hx, (inr ea, h)))
      ]

  existing_bindings-Collected :
      (m : Assoc ℕ) → UniqueKeys m → Among m r → Collected (existing_bindings publisher_uid s r m)
  unfolding existing_bindings lookup
  existing_bindings-Collected [] u among = ([], refl, tt)
  existing_bindings-Collected ((uid, x) ∷ m) u among =
      let (rest, e, h) =
        existing_bindings-Collected m u.1
          (λ w y k. among w y (ground (arith, lookup-is_free uid m u.0))) in
      rw e (existing_entry uid x rest (among uid x (ground arith)) h)

  collect-backed :
      (a_video a_audio : ℕ)
      → lookup publisher_uid r.video_publishers ≡ some a_video
      → lookup publisher_uid r.audio_publishers ≡ some a_audio
      → (bs : List Binding) × (ss : List MediaSession) × (collect publisher_uid s a_video a_audio r
          ≡ some (bs, ss))
        × AllBacked r bs
  unfolding collect
  collect-backed a_video a_audio hv ha =
      let (existing, e, h) =
        existing_bindings-Collected r.video_publishers v.unique_video (λ u x k. k) in
      let targets = receivers publisher_uid r.peers in
      let bs = receiver_bindings publisher_uid s.instance_id a_video a_audio targets in
      (
        bs ++ existing,
        targets ++ (if is_empty_list existing then [] else s ∷ []),
        rw (e, collect) refl,
        AllBacked-append r bs existing
            (receiver_bindings-AllBacked r publisher_uid s.instance_id a_video a_audio targets hv
              ha)
            h,
      )

  announce-IsConsistent :
      (add_throws : Binding → Bool) (offer_throws : ℕ → Bool) (x y : Option ℕ)
      → lookup publisher_uid r.video_publishers ≡ x
      → lookup publisher_uid r.audio_publishers ≡ y
      → (r' : MediaRoom) × (announce add_throws offer_throws publisher_uid s x y r ≡ some r')
        × IsConsistent r'
  announce-IsConsistent add_throws offer_throws (some a) (some b) ea eb =
      let (bs, ss, e, h) = collect-backed a b ea eb in
      (
        negotiate_all offer_throws ss (add_tracks add_throws bs r),
        rw e refl,
        negotiate_all-IsConsistent offer_throws ss _ (add_tracks-IsConsistent add_throws bs r v h),
      )
  announce-IsConsistent add_throws offer_throws _ _ ea eb = (r, refl, v)

-- In a consistent room whose SSRC counter is not at its last value, registering a track of a
-- publisher dereferences no missing peer and leaves the room consistent, whichever calls of the
-- WebRTC library throw.
pub register_publisher_track-IsConsistent :
    (add_throws : Binding → Bool) (offer_throws : ℕ → Bool) (uid : ℕ) (media : MediaType)
    (r : MediaRoom)
    → IsConsistent r
    → r.next_ssrc + 1 < 2 ^ 32
    → (r' : MediaRoom) × (register_publisher_track add_throws offer_throws uid media r ≡ some r')
      × IsConsistent r'
unfolding register_publisher_track register_session
register_publisher_track-IsConsistent add_throws offer_throws uid media r v room =
    go (session_of uid r) refl
  where
    go :
        (o : Option MediaSession)
        → session_of uid r ≡ o
        → (r' : MediaRoom) × (register_session add_throws offer_throws uid media o r ≡ some r')
          × IsConsistent r'
    go none e = (r, refl, v)
    go (some s) e = at (lookup uid (publishers media r)) refl
      where
        at :
            (k : Option ℕ)
            → lookup uid (publishers media r) ≡ k
            → (r' : MediaRoom) × (register_session add_throws offer_throws uid media (some s) r
                ≡ some r')
              × IsConsistent r'
        at (some k) f = (r, rw f refl, v)
        at none f =
            let (r', q, c) =
              announce-IsConsistent uid s (publish media uid r)
                (publish-IsConsistent media uid r s v e f room) add_throws offer_throws _ _ refl
                refl in
            (r', rw f q, c)
