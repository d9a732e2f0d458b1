-- ===== src/Realtime/Presence.antt =====
-- The table of users in meetings (ReserveUser, FinishJoin, ReleaseUser and ReleaseRoomUsers of
-- RealtimeServer/src/service/LogicDispatch.cpp). The operations of a meeting come one after the
-- other, those of different meetings in any order; m_user_mutex makes each of them one step. A uid
-- is an int that is only compared, held as its bit pattern.
pub mod Exclusion
pub mod Attempt
use sync_rtc.Prelude.{
  ℕ, ◌+◌, ◌-◌, ◌%◌, ◌^◌, Bool, true, false, not, ◌||◌, ◌&&◌, Option, none, some, List, [], ◌∷◌,
  ◌==◌, if◌then◌else◌,
}
use sync_rtc.Prelude.Assoc.{Assoc, lookup, assign, erase}

pub record UserPresence : Type 0 where
  pub meeting : ℕ
  pub joining : ℕ
  pub joined : Bool

abbrev pub reserved : ℕ → ℕ → Option UserPresence → Assoc UserPresence → Assoc UserPresence × Bool
reserved uid meeting none p =
    (assign uid (record { meeting = meeting; joining = 1; joined = false }) p, true)
reserved uid meeting (some e) p =
    if e.meeting == meeting
    then (assign uid (record e { joining = (e.joining + 1) % 2 ^ 64 }) p, true)
    else (p, false)

unfoldable pub reserve_user : ℕ → ℕ → Assoc UserPresence → Assoc UserPresence × Bool
reserve_user uid meeting p = reserved uid meeting (lookup uid p) p

-- --joining on a size_t
abbrev pub after_join : Bool → UserPresence → UserPresence
after_join joined e = record e {
  joining = (e.joining + (2 ^ 64 - 1)) % 2 ^ 64;
  joined = e.joined || joined;
}

abbrev pub keep_present : ℕ → UserPresence → Assoc UserPresence → Assoc UserPresence
keep_present uid e p = if not e.joined && (e.joining == 0) then erase uid p else assign uid e p

abbrev pub finished : ℕ → ℕ → Bool → Option UserPresence → Assoc UserPresence → Assoc UserPresence
finished uid meeting joined none p = p
finished uid meeting joined (some e) p =
    if e.meeting == meeting then keep_present uid (after_join joined e) p else p

unfoldable pub finish_join : ℕ → ℕ → Bool → Assoc UserPresence → Assoc UserPresence
finish_join uid meeting joined p = finished uid meeting joined (lookup uid p) p

abbrev pub released : ℕ → ℕ → Option UserPresence → Assoc UserPresence → Assoc UserPresence
released uid meeting none p = p
released uid meeting (some e) p = if e.meeting == meeting then erase uid p else p

unfoldable pub release_user : ℕ → ℕ → Assoc UserPresence → Assoc UserPresence
release_user uid meeting p = released uid meeting (lookup uid p) p

unfoldable pub release_room_users : ℕ → Assoc UserPresence → Assoc UserPresence
release_room_users meeting [] = []
release_room_users meeting ((uid, e) ∷ p) =
    let rest = release_room_users meeting p in
    if e.meeting == meeting then rest else (uid, e) ∷ rest

-- A call on behalf of a meeting.
pub data PresenceCall : Type 0 where
  reserves : ℕ → PresenceCall
  finishes : ℕ → Bool → PresenceCall
  releases : ℕ → PresenceCall
  releases_all : PresenceCall

unfoldable pub call : ℕ → PresenceCall → Assoc UserPresence → Assoc UserPresence
unfolding reserve_user finish_join release_user release_room_users
call meeting (reserves uid) p = (reserve_user uid meeting p).0
call meeting (finishes uid joined) p = finish_join uid meeting joined p
call meeting (releases uid) p = release_user uid meeting p
call meeting releases_all p = release_room_users meeting p

unfoldable pub calls : List (ℕ × PresenceCall) → Assoc UserPresence → Assoc UserPresence
unfolding call
calls [] p = p
calls ((meeting, c) ∷ cs) p = calls cs (call meeting c p)
