-- ===== src/Realtime/Meetings/Reconnection.antt =====
-- A lost connection and the end of the time to reconnect (SessionDisconnectedHandler,
-- ReconnectTimeoutCheckHandler and ExpireMemberHandler of
-- RealtimeServer/src/service/LogicSystem.cpp). The steady clock counts nanoseconds, time seconds.
use sync_rtc.Prelude.{
  ℕ, ◌+◌, ◌*◌, Bool, true, false, not, ◌&&◌, ◌||◌, Option, none, some, List, [], ◌∷◌, ltb, ◌==◌,
  if◌then◌else◌, ℤ, pos, negsuc, Bytes, codes, is_empty,
}
use sync_rtc.Prelude.Json.{same_bytes}
use sync_rtc.Prelude.Assoc.{lookup, assign}
use sync_rtc.Realtime.Presence.{release_user}
use sync_rtc.Realtime.MediaSignals.{Leave}
use sync_rtc.Realtime.Session.{second}
use sync_rtc.Realtime.Meetings.{
  error_redis, Connection, Membership, World, Checked, passes, fails, positive, user_key,
  leading_int, leading_number, StoreCommand, removes_member, sets_active, sets_deadline,
  adds_deadline, removes_deadline, deletes_state, sets_presence, sets_presence_meeting, Attempt,
  store, Notice, member_reconnecting, member_timeout_left, Done, set_meeting_id, release_media,
  keep_sessions, anyone, all_but, set_sessions, broadcast,
}
use sync_rtc.Realtime.Meetings.Leaving.{not_session, without_member}

-- kReconnectGraceSeconds
abbrev pub grace_seconds : ℕ
grace_seconds = 45

-- SIsMember, HGet of room_state, time and steady_clock::now, the three writes, SCard
pub record LossAnswers : Type 0 where
  pub is_member : Bool
  pub room_state : Bytes
  pub now : ℕ
  pub steady_now : ℕ
  pub state_set : Bool
  pub deadline_set : Bool
  pub deadline_added : Bool
  pub count : ℕ

abbrev pub nothing : World → Done
nothing w = record { world = w; replies = []; notices = []; commands = []; leaves = [] }

-- The first loop: a session in the list that meets the test.
abbrev pub meets : (Connection → Bool) → Option Connection → Bool
meets p none = false
meets p (some c) = p c

unfoldable pub any_session : (ℕ → Connection → Bool) → World → List ℕ → Bool
any_session p w [] = false
any_session p w (s ∷ ss) = meets (p s) (lookup s w.connections) || any_session p w ss

abbrev pub is_session : ℕ → ℕ → Connection → Bool
is_session s x c = x == s

abbrev pub is_other : ℕ → ℕ → ℕ → Connection → Bool
is_other s uid x c = not (x == s) && user_key c.user_id == uid

-- The deadline of the member whose session this is
abbrev pub belongs_to : ℕ → Option ℕ → Bool
belongs_to s none = false
belongs_to s (some t) = t == s

abbrev pub start_grace : ℕ → ℕ → ℕ → Option Membership → World → World
start_grace uid s deadline none w = w
start_grace uid s deadline (some m) w =
    if belongs_to s m.session
    then record w {
      room = record w.room {
        members = assign uid (record m { deadline = deadline }) w.room.members;
      };
    }
    else w

unfoldable pub loss_attempts : ℕ → ℕ → LossAnswers → List Attempt
loss_attempts uid deadline a =
    let undo = sets_active uid true ∷ (sets_deadline uid none ∷ (removes_deadline uid ∷ [])) in
    record {
      command = sets_active uid false;
      answer = a.state_set;
      undo = undo;
      code = error_redis;
    }
    ∷ (record {
      command = sets_deadline uid (some deadline);
      answer = a.deadline_set;
      undo = undo;
      code = error_redis;
    }
        ∷ (record {
          command = adds_deadline uid deadline;
          answer = a.deadline_added;
          undo = undo;
          code = error_redis;
        }
            ∷ []))

-- The notice, where Redis took all three writes.
abbrev pub reconnecting_notice : ℕ → ℕ → LossAnswers → Checked (Unit {0}) → Option Notice
reconnecting_notice uid deadline a (passes x) = some (member_reconnecting uid deadline a.count)
reconnecting_notice uid deadline a (fails e) = none

unfoldable pub mark_lost : Bool → Option ℕ → LossAnswers → List StoreCommand × Option Notice
unfolding store loss_attempts
mark_lost alone none a = ([], none)
mark_lost alone (some uid) a =
    if alone && (a.is_member && not (same_bytes a.room_state (codes "reconnecting")))
    then (
      (store (loss_attempts uid (a.now + grace_seconds) a)).0,
      reconnecting_notice uid (a.now + grace_seconds) a
          (store (loss_attempts uid (a.now + grace_seconds) a)).1,
    )
    else ([], none)

unfoldable pub tell_lost : ℕ → Option Notice → World → World × List (ℕ × Notice)
unfolding broadcast
tell_lost uid none w = (w, [])
tell_lost uid (some n) w = broadcast (all_but uid) n w

-- The session leaves the meeting, and its media are released.
unfoldable pub drop_session : ℕ → World → World × List Leave
unfolding release_media set_meeting_id
drop_session s w = let (w', ls) = release_media s w in (set_meeting_id s 0 w', ls)

abbrev pub lost_alone : ℕ → ℕ → World → Bool
lost_alone s uid w =
    any_session (is_session s) w w.room.sessions
    && not (any_session (is_other s uid) w w.room.sessions)

unfoldable pub lose : LossAnswers → ℕ → Connection → World → Done
unfolding any_session keep_sessions mark_lost tell_lost drop_session
lose a s c w =
    let uid = user_key c.user_id in
    let kept = set_sessions (keep_sessions (not_session s) w.connections w.room.sessions) w in
    let marked =
      start_grace uid s (a.steady_now + grace_seconds * second) (lookup uid w.room.members) kept in
    let (cs, notice) = mark_lost (lost_alone s uid w) (positive c.user_id) a in
    let (w', sent) = tell_lost uid notice marked in
    let (w'', ls) = drop_session s w' in
    record { world = w''; replies = []; notices = sent; commands = cs; leaves = ls }

abbrev pub only_dropped : ℕ → World → Done
only_dropped s w =
    let (w', ls) = drop_session s w in
    record { world = w'; replies = []; notices = []; commands = []; leaves = ls }

-- SessionDisconnectedHandler, for a session that is there
unfoldable pub disconnect : LossAnswers → ℕ → Connection → World → Done
unfolding lose drop_session
disconnect a s c w =
    if c.meeting_id == 0
    then nothing w
    else if is_empty w.room.sessions
    then only_dropped s w
    else lose a s c w

-- HGet of reconnect_deadline_at as std::stoll reads it, and of room_state; the clocks; SRem and ZRem;
-- SCard
pub record ExpiryAnswers : Type 0 where
  pub deadline : Option ℤ
  pub room_state : Bytes
  pub now : ℕ
  pub steady_now : ℕ
  pub removed : Bool
  pub deadline_removed : Bool
  pub count : ℕ

abbrev pub still_waits : Option Membership → ℕ → Bool
still_waits none steady_now = false
still_waits (some m) steady_now = ltb steady_now m.deadline

unfoldable pub expelled : ℕ → ExpiryAnswers → World → Done
unfolding release_user broadcast
expelled uid a w =
    let gone = record (without_member uid w) { presence = release_user uid w.room.id w.presence } in
    record {
      world = (broadcast anyone (member_timeout_left uid a.count) gone).0;
      replies = [];
      notices = (broadcast anyone (member_timeout_left uid a.count) gone).1;
      commands =
          removes_member uid
          ∷ (removes_deadline uid
              ∷ (deletes_state uid
                  ∷ (sets_presence uid false ∷ (sets_presence_meeting uid false ∷ []))));
      leaves = [];
    }

abbrev pub only_writes : List StoreCommand → World → Done
only_writes cs w = record (nothing w) { commands = cs }

abbrev pub remove_expired : ℕ → ExpiryAnswers → World → Done
remove_expired uid a w =
    if not a.removed
    then only_writes (removes_member uid ∷ []) w
    else if not a.deadline_removed
    then only_writes (removes_member uid ∷ (removes_deadline uid ∷ [])) w
    else expelled uid a w

abbrev pub at_deadline : ℕ → ExpiryAnswers → Option ℤ → World → Done
at_deadline uid a none w = only_writes (removes_deadline uid ∷ []) w
at_deadline uid a (some (negsuc d)) w =
    if same_bytes a.room_state (codes "reconnecting")
    then remove_expired uid a w
    else only_writes (removes_deadline uid ∷ []) w
at_deadline uid a (some (pos d)) w =
    if d == 0
    then only_writes (removes_deadline uid ∷ []) w
    else if ltb a.now d
    then nothing w
    else if same_bytes a.room_state (codes "reconnecting")
    then remove_expired uid a w
    else only_writes (removes_deadline uid ∷ []) w

-- The text after the first colon, or the whole text
abbrev pub or_whole : Bytes → Option Bytes → Bytes
or_whole text none = text
or_whole text (some rest) = rest

unfoldable pub after_colon : Bytes → Option Bytes
after_colon [] = none
after_colon (c ∷ cs) = let rest = after_colon cs in if c == b':' then some cs else rest

abbrev pub expire_user : Option ℕ → ℕ → ExpiryAnswers → World → Done
expire_user none key a w = only_writes (removes_deadline key ∷ []) w
expire_user (some uid) key a w =
    if still_waits (lookup uid w.room.members) a.steady_now
    then nothing w
    else at_deadline uid a a.deadline w

abbrev pub int_or_zero : Option ℤ → ℤ
int_or_zero none = pos 0
int_or_zero (some n) = n

-- ExpireMemberHandler for an entry of the deadlines, meeting:user. An entry without a user is named
-- by what stands for the user in it.
unfoldable pub expire_member : Bytes → ExpiryAnswers → World → Done
unfolding after_colon leading_int expelled
expire_member entry a w =
    let uid = int_or_zero (leading_int (or_whole entry (after_colon entry))) in
    expire_user (positive uid) (user_key uid) a w

-- What the scan does with the entries that Redis gives: it drops one without a meeting, and hands
-- each other one to the queue of its meeting.
pub data ScanStep : Type 0 where
  drops : Bytes → ScanStep
  hands_over : ℕ → Bytes → ScanStep

unfoldable pub before_colon : Bytes → Option Bytes
before_colon [] = none
before_colon (c ∷ cs) =
    let rest = before_colon cs in
    if c == b':' then some [] else elim rest [ none ↦ none | some p ↦ some (c ∷ p) ]

abbrev pub scan_entry : Bytes → Option Bytes → ScanStep
scan_entry entry none = drops entry
scan_entry entry (some p) = elim (leading_number p) [
  | none ↦ drops entry
  | some m ↦ if m == 0 then drops entry else hands_over m entry
]

-- ReconnectTimeoutCheckHandler on the answer of ZRangeByScore
unfoldable pub check_timeouts : Option (List Bytes) → List ScanStep
unfolding before_colon leading_number
check_timeouts none = []
check_timeouts (some []) = []
check_timeouts (some (e ∷ es)) = scan_entry e (before_colon e) ∷ check_timeouts (some es)
