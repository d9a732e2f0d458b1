-- ===== src/Realtime/Dispatch/Joining.antt =====
-- A request to join or to resume, from Dispatch to the table of users in meetings.
use sync_rtc.Prelude.{
  ℕ, ◌≡◌, ◌≢◌, refl, ap, ◌∙◌, ◌⊎◌, inl, inr, Bool, true, false, not, ◌&&◌, if◌then◌else◌, Option,
  none, some, List, [], ◌∷◌, ◌==◌, arith, Bytes,
}
use sync_rtc.Prelude.Json.{Json}
use sync_rtc.Prelude.Assoc.{Assoc, lookup}
use sync_rtc.Realtime.Presence.{UserPresence, reserved, reserve_user, finish_join, calls}
use sync_rtc.Realtime.Presence.Attempt.{IsPresent, join_attempt}
use sync_rtc.Realtime.Meetings.{
  ErrorCode, Connection, World, Checked, passes, fails, user_key, Reply, Done, Notice, StoreCommand,
  request_close, broadcast, release_media, set_meeting_id,
}
use sync_rtc.Realtime.Meetings.Join.{
  JoinAnswers, Named, name_request, Admission, admit, write_join, detach, previous_session, enter,
  attach, announce, complete, written, admitted, named, answered, join_meeting, announcements,
  member_values, request_id_of,
}
use sync_rtc.Realtime.Meetings.Admission.{join_meeting-AllOrNothing}
use sync_rtc.Realtime.Dispatch.{
  Handler, maps, response_id, reply_error, DispatchAnswers, is_join, admits, Dispatched,
  meeting_now, is_in, after_handler, reserved_join, joins_meeting, join_id, resume_id, answer_to,
  not_handled, with_presence, disconnected_id, handled_join, handled, served, dispatch,
}

presence-announce :
    (uid : ℕ) (ns : List Notice) (w : World) → (announce uid ns w).0.presence ≡ w.presence
unfolding announce broadcast
presence-announce uid [] w = refl
presence-announce uid (n ∷ ns) w = presence-announce uid ns _

presence-attach :
    (s : ℕ) (d : Admission) (token : Bytes) (w : World)
    → (attach s d token w).0.presence ≡ w.presence
unfolding attach detach enter set_meeting_id release_media request_close
presence-attach s d token w = go (previous_session d.uid s w)
  where
    go : (o : Option ℕ) → (detach o w).0.presence ≡ w.presence
    go none = refl
    go (some p) = refl

presence-complete :
    (s : ℕ) (request_id : Option Bytes) (d : Admission) (a : JoinAnswers) (token : Bytes)
    (cs : List StoreCommand) (members : List Bytes) (w : World)
    → (complete s request_id d a token cs members w).world.presence ≡ w.presence
unfolding complete
presence-complete s request_id d a token cs members w =
    presence-announce d.uid (announcements d (member_values d.uid a members)) _
    ∙ presence-attach s d token w

-- The handler leaves the table of users alone.
presence-join_meeting :
    (resuming : Bool) (root : Option Json) (a : JoinAnswers) (s : ℕ) (c : Connection) (w : World)
    → (join_meeting resuming root a s c w).world.presence ≡ w.presence
unfolding join_meeting request_close
presence-join_meeting resuming root a s c w = go a.sent
  where
    writing :
        (request_id : Option Bytes) (d : Admission) (o : List StoreCommand × Checked (List Bytes))
        → (written s request_id d a c.auth_token w o).world.presence ≡ w.presence
    writing q d (cs, fails e) = refl
    writing q d (cs, passes members) = presence-complete s q d a c.auth_token cs members w

    admitting :
        (request_id : Option Bytes) (d : Checked Admission)
        → (admitted s resuming request_id a c.auth_token w d).world.presence ≡ w.presence
    admitting q (fails e) = refl
    admitting q (passes d) = writing q d (write_join resuming d a)

    naming : (n : Checked Named) → (named s resuming a c w n).world.presence ≡ w.presence
    naming (fails e) = refl
    naming (passes n) = admitting (request_id_of n.request) (admit resuming n a c w.room)

    Keeps : Done → Type 0
    Keeps d = d.world.presence ≡ w.presence

    go :
        (b : Bool)
        → Keeps (answered s b (named s resuming a c w (name_request resuming root a c w.room.id)))
    go true = naming (name_request resuming root a c w.room.id)
    go false = naming (name_request resuming root a c w.room.id)

-- What Dispatch answers itself: one error, without a call of the handler, and the user is where the
-- table had it.
pub record TurnedAway (id uid : ℕ) (w : World) (r : Dispatched) : Type 0 where
  pub response : ℕ
  pub error : ErrorCode
  pub known : response_id id ≡ some response
  pub answered_once : r.errors ≡ (response, error) ∷ []
  pub no_handler : r.done ≡ none
  pub same_place : lookup uid r.world.presence ≡ lookup uid w.presence

-- What the handler answers: one reply. In the room of a meeting the table then holds the user as
-- joined exactly if the session is in the meeting. Room 0 stands for no meeting: there a session that
-- is in none leaves the user as joined in meeting 0, and no meeting can have the user reserved.
pub record Attended (s uid : ℕ) (w : World) (r : Dispatched) : Type 0 where
  pub outcome : Done
  pub reply : Reply
  pub by_handler : r.done ≡ some outcome
  pub one_reply : outcome.replies ≡ reply ∷ []
  pub no_error : r.errors ≡ []
  pub outside :
      is_in (meeting_now s r.world) w.room.id ≡ false
      → lookup uid r.world.presence ≡ lookup uid w.presence
  pub inside :
      w.room.id ≢ 0
      → is_in (meeting_now s r.world) w.room.id ≡ true
      → (e : UserPresence) × (lookup uid r.world.presence ≡ some e)
        × (e.joined ≡ true)
        × (e.meeting ≡ w.room.id)
  pub nowhere :
      w.room.id ≡ 0
      → meeting_now s r.world ≡ some 0
      → ((e : UserPresence) × (lookup uid r.world.presence ≡ some e)
          × (e.joined ≡ true)
          × (e.meeting ≡ 0))
        × ((m : ℕ) → m ≢ 0 → (reserve_user uid m r.world.presence).1 ≡ false)

-- The table after a join, for a handler that leaves it as it was after the reservation.
finished_at :
    (u m : ℕ) (p q : Assoc UserPresence) (inside : Bool)
    → IsPresent (lookup u p)
    → (reserve_user u m p).1 ≡ true
    → q ≡ (reserve_user u m p).0
    → (inside ≡ false → lookup u (finish_join u m inside q) ≡ lookup u p)
      × (inside ≡ true
          → (e : UserPresence) × (lookup u (finish_join u m inside q) ≡ some e)
            × (e.joined ≡ true)
            × (e.meeting ≡ m))
unfolding calls
finished_at u m p q false v g k = (
  λ e.
      ap (λ (t : Assoc UserPresence). lookup u (finish_join u m false t)) k
      ∙ (join_attempt u m [] tt p v g).0,
  λ e. absurd (ground (arith, e)),
)
finished_at u m p q true v g k = (
  λ e. absurd (ground (arith, e)),
  λ e.
      let (f, l, j, i) = (join_attempt u m [] tt p v g).1 in
      (f, ap (λ (t : Assoc UserPresence). lookup u (finish_join u m true t)) k ∙ l, j, i),
)

-- A user who is in meeting 0 is reserved for no other.
stuck_at_zero :
    (u m : ℕ) (p : Assoc UserPresence) (e : UserPresence)
    → lookup u p ≡ some e
    → e.meeting ≡ 0
    → m ≢ 0
    → (reserve_user u m p).1 ≡ false
unfolding reserve_user
stuck_at_zero u m p e l z n =
    ap (λ (o : Option UserPresence). (reserved u m o p).1) l ∙ ground (arith, z, n)

pub refused_place :
    (u m : ℕ) (p : Assoc UserPresence) → (reserve_user u m p).1 ≡ false → (reserve_user u m p).0 ≡ p
unfolding reserve_user
refused_place u m p e = go (lookup u p) e
  where
    go : (o : Option UserPresence) → (reserved u m o p).1 ≡ false → (reserved u m o p).0 ≡ p
    go none e = absurd (ground (arith, e))
    go (some d) e = ground (arith, e)

-- A join has a handler and a response.
is_join_known :
    (id : ℕ)
    → is_join id ≡ true
    → (lookup id maps ≡ some joins_meeting) × ((k : ℕ) × (response_id id ≡ some k))
unfolding response_id lookup
is_join_known id e = go (ground (arith, e))
  where
    go :
        (id ≡ join_id) ⊎ (id ≡ resume_id)
        → (lookup id maps ≡ some joins_meeting) × ((k : ℕ) × (response_id id ≡ some k))
    go (inl h) =
        (ap (λ (i : ℕ). lookup i maps) h ∙ refl, (1017, ap (λ (i : ℕ). response_id i) h ∙ refl))
    go (inr h) =
        (ap (λ (i : ℕ). lookup i maps) h ∙ refl, (1047, ap (λ (i : ℕ). response_id i) h ∙ refl))

module _ (id : ℕ) (root : Option Json) (a : DispatchAnswers) (ja : JoinAnswers) (s : ℕ)
    (c : Connection) (w : World) (join : is_join id ≡ true)
    (present : IsPresent (lookup (user_key c.user_id) w.presence)) where
  abbrev Result : Dispatched → Type 0
  Result r = TurnedAway id (user_key c.user_id) w r ⊎ Attended s (user_key c.user_id) w r

  away :
      (e : ErrorCode) (v : World)
      → v.presence ≡ w.presence
      → TurnedAway id (user_key c.user_id) w (not_handled (reply_error id e) v)
  unfolding reply_error
  away e v p =
      let (h, (k, known)) = is_join_known id join in
      record {
        response = k;
        error = e;
        known = known;
        answered_once = ap (λ (o : Option ℕ). answer_to o e) known;
        no_handler = refl;
        same_place = ap (lookup (user_key c.user_id)) p;
      }

  reserved_Result :
      (b : Bool)
      → (reserve_user (user_key c.user_id) w.room.id w.presence).1 ≡ b
      → Result (
          reserved_join
            (join_meeting (id == resume_id) root ja s c)
            id
            (user_key c.user_id)
            s
            w
            ((reserve_user (user_key c.user_id) w.room.id w.presence).0, b))
  unfolding after_handler
  reserved_Result false e =
      inl (away _ _ (refused_place (user_key c.user_id) w.room.id w.presence e))
  reserved_Result true e =
      let v = with_presence (reserve_user (user_key c.user_id) w.room.id w.presence).0 w in
      let d = join_meeting (id == resume_id) root ja s c v in
      let (r, one, _) = join_meeting-AllOrNothing (id == resume_id) root ja s c v in
      let (out, inn) =
        finished_at (user_key c.user_id) w.room.id w.presence d.world.presence
          (is_in (meeting_now s d.world) w.room.id) present e
          (presence-join_meeting (id == resume_id) root ja s c v) in
      inr (record {
        outcome = d;
        reply = r;
        by_handler = refl;
        one_reply = one;
        no_error = refl;
        outside = out;
        inside = λ n. inn;
        nowhere = λ z now.
            let (e, held, joined, at) = inn (ground (arith, z, now)) in
            (
              (e, held, joined, at ∙ z),
              λ m n. stuck_at_zero (user_key c.user_id) m _ e held (at ∙ z) n,
            );
      })

  abbrev run : Handler → World → Done
  run h = join_meeting (id == resume_id) root ja s c

  joining :
      (b : Bool)
      → b ≡ true
      → Result (
          if b then handled_join (run joins_meeting) id s c w else record {
            errors = [];
            world = (run joins_meeting w).world;
            done = some (run joins_meeting w);
          })
  unfolding handled_join
  joining false e = absurd (ground (arith, e))
  joining true e = reserved_Result (reserve_user (user_key c.user_id) w.room.id w.presence).1 refl

  checking : (o : Checked (Unit {0})) → Result (handled (run joins_meeting) id s c w o)
  checking (fails e) = inl (away e w refl)
  checking (passes u) = joining (is_join id) join

  closing :
      (b : Bool) (o : Checked (Unit {0}))
      → b ≡ false
      → Result (if b then not_handled [] w else handled (run joins_meeting) id s c w o)
  closing true o e = absurd (ground (arith, e))
  closing false o e = checking o

  at_handler :
      a.closed ≡ false
      → (o : Option Handler) → o ≡ some joins_meeting
      → Result (served run id root a s c w o)
  at_handler open_now none e = absurd (ground (arith, e))
  at_handler open_now (some h) e =
      closing (not (id == disconnected_id) && a.closed) (admits id root a s c w)
        (ground (arith, open_now))

  -- A message to join or to resume that reaches Dispatch on a session that is not closed has one
  -- answer. It is an error of Dispatch, and then no handler runs and the table of users is as it was for
  -- the user; or the reply of the handler. Then, in the room of a meeting, the table has the user as
  -- joined in the meeting when the session is in it, and else as it was; but in room 0, which stands for
  -- no meeting, a session that is in no meeting leaves the user as joined in meeting 0, after which no
  -- meeting gets a reservation of the user. The table's entry of the user before, if any, is one that is
  -- used.
  pub dispatch_join :
      a.closed ≡ false
      → TurnedAway id
          (user_key c.user_id)
          w
          (dispatch (λ h. join_meeting (id == resume_id) root ja s c) id root a s c w)
        ⊎ Attended s
            (user_key c.user_id)
            w
            (dispatch (λ h. join_meeting (id == resume_id) root ja s c) id root a s c w)
  unfolding dispatch
  dispatch_join open_now = at_handler open_now (lookup id maps) (is_join_known id join).0
