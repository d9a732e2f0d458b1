-- ===== src/Media/Logic/Rid.antt =====
-- Rooms without a session on a given connection, under the operations of a room.
use sync_rtc.Prelude.{
  ℕ, ◌≡◌, ◌≢◌, sym, ap, ◌∙◌, inl, inr, Bool, true, false, Option, none, some, ◌==◌, if◌then◌else◌,
  arith, Bool-cases,
}
use sync_rtc.Prelude.Assoc.{lookup, lookup-assign}
use sync_rtc.Media.MediaSession.{MediaSession}
use sync_rtc.Media.Room.{MediaRoom, new_room, session_of, add_peer, peer_count, put_session}
use sync_rtc.Media.Room.Membership.{NoneJoined, remove_peer-NoneJoined, put_session-NoneJoined}
use sync_rtc.Media.Logic.{or_gone, remove_session}
use sync_rtc.Media.Logic.Rooms.{SameButFlags}

module _ (c : ℕ) where
  -- No member of the room is on the connection.
  abbrev pub RidRoom : MediaRoom → Type 0
  RidRoom room = (u : ℕ) (s : MediaSession) → session_of u room ≡ some s → s.connection ≢ c

  abbrev pub RidOrGone : Option MediaRoom → Type 0
  RidOrGone none = Unit {0}
  RidOrGone (some room) = RidRoom room

  pub NoneJoined-RidRoom : (r r' : MediaRoom) → NoneJoined r r' → RidRoom r → RidRoom r'
  NoneJoined-RidRoom r r' j rid u s h on = let (t, e, q) = j.was u s h in rid u t e (q ∙ on)

  pub or_gone-RidOrGone : (room : MediaRoom) → RidRoom room → RidOrGone (or_gone room)
  or_gone-RidOrGone room rid = elim (Bool-cases (peer_count room == 0)) [
    | inl t ↦ rw t tt
    | inr t ↦ rw t rid
  ]

  pub remove_session-RidOrGone :
      (o : Option MediaSession) (room : MediaRoom)
      → RidRoom room
      → RidOrGone (remove_session o room)
  unfolding remove_session
  remove_session-RidOrGone none room rid = or_gone-RidOrGone room rid
  remove_session-RidOrGone (some s) room rid =
      or_gone-RidOrGone _
        (NoneJoined-RidRoom room _ (remove_peer-NoneJoined s.uid s.instance_id room) rid)

  pub apply-RidOrGone :
      (applies : Bool) (s s' : MediaSession) (room : MediaRoom)
      → SameButFlags s s'
      → session_of s.uid room ≡ some s
      → RidRoom room
      → RidOrGone
          (if applies then some (put_session s.uid s' room) else remove_session (some s) room)
  apply-RidOrGone true s s' room f found rid =
      NoneJoined-RidRoom room _
        (put_session-NoneJoined s.uid s s' room found (sym f.same_connection)) rid
  apply-RidOrGone false s s' room f found rid = remove_session-RidOrGone (some s) room rid

  pub add_peer-RidRoom :
      (u : ℕ) (s : MediaSession) (room : MediaRoom)
      → s.connection ≢ c
      → RidRoom room
      → RidRoom (add_peer (record { peer_uid = u; session = some s }) room)
  unfolding add_peer
  add_peer-RidRoom u s room other rid w x h on = elim (Bool-cases (u == w)) [
    | inl t ↦ other (
        let e : x ≡ s =
          ground
            (arith, lookup-assign u w (record { peer_uid = u; session = some s }) room.peers) in
        sym (ap (λ (y : MediaSession). y.connection) e) ∙ on)
    | inr t ↦
        rid w x
          (ground (arith, lookup-assign u w (record { peer_uid = u; session = some s }) room.peers))
          on
  ]

  pub new_room-RidRoom : (m : ℕ) → RidRoom (new_room m)
  unfolding new_room lookup
  new_room-RidRoom m u s h on = ground (arith, h)
