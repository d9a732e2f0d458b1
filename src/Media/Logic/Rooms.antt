-- ===== src/Media/Logic/Rooms.antt =====
-- What the handlers of LogicSystem (MediaServer/src/service/LogicSystem.cpp) make of one room.
use sync_rtc.Prelude.{
  ℕ, ◌≡◌, refl, sym, ap, ◌∙◌, inl, inr, Bool, true, false, Option, none, some, [], ◌∷◌, ◌==◌,
  length, arith, Bool-cases,
}
use sync_rtc.Prelude.Assoc.{Assoc, lookup, assign, lookup-assign}
use sync_rtc.Media.MediaSession.{
  MediaType, video, audio, MediaSession, outgoing_tracks, initial_answer, remote_answer,
}
use sync_rtc.Media.Room.{MediaRoom, session_of, add_peer, peer_count, remove_peer, put_session}
use sync_rtc.Media.Room.Consistency.{IsConsistent, remove_peer-IsConsistent, session_of-removed}
use sync_rtc.Media.Room.Updates.{put_session-IsConsistent}
use sync_rtc.Media.Logic.{
  MediaSignal, or_gone, remove_session, belongs, admit, apply_offer, apply_answer,
}

-- A room that may stand in the index.
pub record IsGood (room : MediaRoom) : Type 0 where
  pub consistent : IsConsistent room
  pub inhabited : (peer_count room == 0) ≡ false

abbrev pub GoodOrGone : Option MediaRoom → Type 0
GoodOrGone none = Unit {0}
GoodOrGone (some room) = IsGood room

pub or_gone-GoodOrGone : (room : MediaRoom) → IsConsistent room → GoodOrGone (or_gone room)
or_gone-GoodOrGone room v = elim (Bool-cases (peer_count room == 0)) [
  | inl t ↦ rw t tt
  | inr t ↦ rw t (record { consistent = v; inhabited = t })
]

pub remove_session-GoodOrGone :
    (o : Option MediaSession) (room : MediaRoom)
    → IsConsistent room
    → GoodOrGone (remove_session o room)
unfolding remove_session
remove_session-GoodOrGone none room v = or_gone-GoodOrGone room v
remove_session-GoodOrGone (some s) room v =
    or_gone-GoodOrGone _ (remove_peer-IsConsistent s.uid s.instance_id room v)

length-assign : {V : Type 0} (k : ℕ) (x : V) (m : Assoc V) → (length (assign k x m) == 0) ≡ false
unfolding assign
length-assign k x [] = refl
length-assign k x ((j, y) ∷ m) = ground arith

-- A change of the negotiation flags.
pub record SameButFlags (s s' : MediaSession) : Type 0 where
  pub same_uid : s'.uid ≡ s.uid
  pub same_instance : s'.instance_id ≡ s.instance_id
  pub same_connection : s'.connection ≡ s.connection
  pub same_tracks : (m : MediaType) → outgoing_tracks m s' ≡ outgoing_tracks m s

pub initial_answer-SameButFlags : (s : MediaSession) → SameButFlags s (initial_answer s).0
unfolding initial_answer
initial_answer-SameButFlags s = record {
  same_uid = ground arith;
  same_instance = ground arith;
  same_connection = ground arith;
  same_tracks = tracks;
}
  where
    tracks : (m : MediaType) → outgoing_tracks m (initial_answer s).0 ≡ outgoing_tracks m s
    tracks video = ground arith
    tracks audio = ground arith

pub remote_answer-SameButFlags : (s : MediaSession) → SameButFlags s (remote_answer s).0
unfolding remote_answer
remote_answer-SameButFlags s = record {
  same_uid = ground arith;
  same_instance = ground arith;
  same_connection = ground arith;
  same_tracks = tracks;
}
  where
    tracks : (m : MediaType) → outgoing_tracks m (remote_answer s).0 ≡ outgoing_tracks m s
    tracks video = ground arith
    tracks audio = ground arith

put_flags-IsGood :
    (s s' : MediaSession) (room : MediaRoom)
    → SameButFlags s s'
    → session_of s.uid room ≡ some s
    → IsConsistent room
    → IsGood (put_session s.uid s' room)
unfolding peer_count
put_flags-IsGood s s' room f found v = record {
  consistent =
      put_session-IsConsistent s.uid s s' room found f.same_instance v f.same_uid (λ m p track h.
        v.current s.uid s m p track found (ap (lookup p) (sym (f.same_tracks m)) ∙ h));
  inhabited = length-assign s.uid _ room.peers;
}

pub apply_offer-GoodOrGone :
    (applies : Bool) (s : MediaSession) (room : MediaRoom)
    → session_of s.uid room ≡ some s
    → IsConsistent room
    → GoodOrGone (apply_offer applies s room)
apply_offer-GoodOrGone true s room found v =
    put_flags-IsGood s _ room (initial_answer-SameButFlags s) found v
apply_offer-GoodOrGone false s room found v = remove_session-GoodOrGone (some s) room v

pub apply_answer-GoodOrGone :
    (applies : Bool) (s : MediaSession) (room : MediaRoom)
    → session_of s.uid room ≡ some s
    → IsConsistent room
    → GoodOrGone (apply_answer applies s room)
apply_answer-GoodOrGone true s room found v =
    put_flags-IsGood s _ room (remote_answer-SameButFlags s) found v
apply_answer-GoodOrGone false s room found v = remove_session-GoodOrGone (some s) room v

-- What `admit` leaves: either no session under the uid, or the one that is there.
abbrev pub Admitted : ℕ → MediaRoom × Option MediaSession → Type 0
Admitted uid (room, none) = IsConsistent room × (session_of uid room ≡ none)
Admitted uid (room, some s) = IsConsistent room × (session_of s.uid room ≡ some s)

session_of-remove_peer :
    (uid : ℕ) (room : MediaRoom) → session_of uid (remove_peer uid 0 room) ≡ none
unfolding remove_peer
session_of-remove_peer uid room = ground (arith, session_of-removed uid uid room)

pub admit-Admitted :
    (connection : ℕ) (q : MediaSignal) (o : Option MediaSession) (room : MediaRoom)
    → session_of q.uid room ≡ o
    → IsConsistent room
    → Admitted q.uid (admit connection q o room)
unfolding admit
admit-Admitted connection q none room e v = (v, e)
admit-Admitted connection q (some s) room e v =
    elim (Bool-cases (belongs connection q.signal_id s)) [
      | inl t ↦ rw t (v, ap (λ u. session_of u room) (v.filed q.uid s e) ∙ e)
      | inr t ↦ rw t (remove_peer-IsConsistent q.uid 0 room v, session_of-remove_peer q.uid room)
    ]

pub session_of-add_peer :
    (u : ℕ) (s : MediaSession) (room : MediaRoom)
    → session_of u (add_peer (record { peer_uid = u; session = some s }) room) ≡ some s
unfolding add_peer
session_of-add_peer u s room =
    ground (arith, lookup-assign u u (record { peer_uid = u; session = some s }) room.peers)
