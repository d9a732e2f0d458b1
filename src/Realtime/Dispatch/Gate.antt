-- ===== src/Realtime/Dispatch/Gate.antt =====
-- What has to hold before a handler runs.
use sync_rtc.Prelude.{
  ℕ, ◌≡◌, ◌≢◌, refl, sym, ap, ◌⊎◌, inl, inr, Bool, true, false, not, ◌&&◌, if◌then◌else◌, Option,
  none, some, List, [], ◌∷◌, ◌==◌, arith,
}
use sync_rtc.Prelude.Json.{Json, Fields, member}
use sync_rtc.Prelude.Assoc.{Assoc, lookup}
use sync_rtc.Realtime.Presence.{UserPresence, reserve_user}
use sync_rtc.Realtime.Meetings.{
  ErrorCode, Connection, Membership, World, Checked, passes, fails, object, user_key, lock, Done,
}
use sync_rtc.Realtime.Meetings.Chat.{has_member}
use sync_rtc.Realtime.Dispatch.{
  Handler, maps, response_id, reply_error, answer_to, DispatchAnswers, is_join, join_id,
  disconnected_id, held_by_other, is_superseded, requested_meeting, check_meeting_id, admits,
  Dispatched, not_handled, reserved_join, with_presence, handled_join, handled, served, dispatch,
}
use sync_rtc.Realtime.Dispatch.Joining.{refused_place}

-- No handler runs, and nothing has changed; at most one error is answered.
pub record Refused (w : World) (r : Dispatched) : Type 0 where
  pub no_handler : r.done ≡ none
  pub unchanged : r.world ≡ w
  pub at_most_one : (r.errors ≡ []) ⊎ ((k : ℕ) × (e : ErrorCode) × (r.errors ≡ (k, e) ∷ []))

-- The checks that were passed.
pub record Passed (id : ℕ) (root : Option Json) (a : DispatchAnswers) (s : ℕ) (c : Connection)
    (w : World) : Type 0 where
  -- no session acts for a membership that another one holds
  pub own_membership :
      (m : Membership)
      → is_join id ≡ false
      → id ≢ disconnected_id
      → w.room.id ≢ 0
      → lookup (user_key c.user_id) w.room.members ≡ some m
      → lock m.session w ≡ some s
  -- nor for another meeting than that of the room
  pub same_meeting :
      (fs : Fields)
      → id ≢ join_id
      → id ≢ disconnected_id
      → w.room.id ≢ 0
      → object root ≡ some fs
      → has_member "meeting_id" fs ≡ true
      → requested_meeting a.real_value (member "meeting_id" fs) ≡ some w.room.id

own_session :
    (s : ℕ) (m : Membership) (w : World)
    → held_by_other s (some m) w ≡ false
    → lock m.session w ≡ some s
own_session s m w e = go (lock m.session w) refl
  where
    go : (o : Option ℕ) → lock m.session w ≡ o → lock m.session w ≡ some s
    go none l = absurd (ground (arith, e, l))
    go (some p) l = ground (arith, e, l)

admits-Passed :
    (id : ℕ) (root : Option Json) (a : DispatchAnswers) (s : ℕ) (c : Connection) (w : World)
    {u : Unit {0}}
    → admits id root a s c w ≡ passes u
    → Passed id root a s c w
unfolding admits is_superseded check_meeting_id
admits-Passed id root a s c w e = record {
  own_membership = λ m j d z l. own_session s m w (ground (arith, e, j, d, z, l));
  same_meeting = λ fs j d z o h. ground (arith, e, j, d, z, o, h);
}

-- The world that a handler finds: with a reservation for a join.
abbrev pub prepared : Bool → Connection → World → World
prepared true c w = with_presence (reserve_user (user_key c.user_id) w.room.id w.presence).0 w
prepared false c w = w

-- The handler of the message runs, with the user of a join reserved for the meeting.
pub record Ran (run : Handler → World → Done) (id : ℕ) (root : Option Json) (a : DispatchAnswers)
    (s : ℕ) (c : Connection) (w : World) (r : Dispatched) : Type 0 where
  pub handler : Handler
  pub registered : lookup id maps ≡ some handler
  pub passed : Passed id root a s c w
  pub still_open : (id ≡ disconnected_id) ⊎ (a.closed ≡ false)
  pub reserved_user :
      is_join id ≡ true → (reserve_user (user_key c.user_id) w.room.id w.presence).1 ≡ true
  pub ran : r.done ≡ some (run handler (prepared (is_join id) c w))
  pub no_error : r.errors ≡ []

module _ (run : Handler → World → Done) (id : ℕ) (root : Option Json) (a : DispatchAnswers) (s : ℕ)
    (c : Connection) (w : World) where
  abbrev Outcome : Dispatched → Type 0
  Outcome r = Refused w r ⊎ Ran run id root a s c w r

  refusal :
      (es : List (ℕ × ErrorCode)) (v : World)
      → v ≡ w
      → ((es ≡ []) ⊎ ((k : ℕ) × (e : ErrorCode) × (es ≡ (k, e) ∷ [])))
      → Refused w (not_handled es v)
  refusal es v u o = record { no_handler = refl; unchanged = u; at_most_one = o }

  one_error :
      (e : ErrorCode)
      → (reply_error id e ≡ []) ⊎ ((k : ℕ) × (d : ErrorCode) × (reply_error id e ≡ (k, d) ∷ []))
  unfolding reply_error
  one_error e = go (response_id id)
    where
      go :
          (o : Option ℕ)
          → (answer_to o e ≡ []) ⊎ ((k : ℕ) × (d : ErrorCode) × (answer_to o e ≡ (k, d) ∷ []))
      go none = inl refl
      go (some k) = inr (k, e, refl)

  reserving :
      (h : Handler) (b : Bool)
      → lookup id maps ≡ some h
      → Passed id root a s c w
      → (id ≡ disconnected_id) ⊎ (a.closed ≡ false)
      → is_join id ≡ true
      → (reserve_user (user_key c.user_id) w.room.id w.presence).1 ≡ b
      → Outcome (
          reserved_join
            (run h)
            id
            (user_key c.user_id)
            s
            w
            ((reserve_user (user_key c.user_id) w.room.id w.presence).0, b))
  reserving h false k v o j e = inl (
      refusal _ _
        (ap (λ (p : Assoc UserPresence). with_presence p w)
          (refused_place (user_key c.user_id) w.room.id w.presence e))
        (one_error _))
  reserving h true k v o j e = inr (record {
    handler = h;
    registered = k;
    passed = v;
    still_open = o;
    reserved_user = λ i. e;
    ran = ap (λ (b : Bool). some (run h (prepared b c w))) (sym j);
    no_error = refl;
  })

  joining :
      (h : Handler) (b : Bool)
      → lookup id maps ≡ some h
      → Passed id root a s c w
      → (id ≡ disconnected_id) ⊎ (a.closed ≡ false)
      → is_join id ≡ b
      → Outcome (
          if b
          then handled_join (run h) id s c w
          else record { errors = []; world = (run h w).world; done = some (run h w) })
  unfolding handled_join
  joining h true k v o j = reserving h _ k v o j refl
  joining h false k v o j = inr (record {
    handler = h;
    registered = k;
    passed = v;
    still_open = o;
    reserved_user = λ i. absurd (ground (arith, i, j));
    ran = ap (λ (b : Bool). some (run h (prepared b c w))) (sym j);
    no_error = refl;
  })

  checking :
      (h : Handler) (u : Checked (Unit {0}))
      → lookup id maps ≡ some h
      → (id ≡ disconnected_id) ⊎ (a.closed ≡ false)
      → admits id root a s c w ≡ u
      → Outcome (handled (run h) id s c w u)
  checking h (fails e) k o x = inl (refusal _ w refl (one_error e))
  checking h (passes u) k o x = joining h (is_join id) k (admits-Passed id root a s c w x) o refl

  closing :
      (h : Handler) (b : Bool)
      → lookup id maps ≡ some h
      → not (id == disconnected_id) && a.closed ≡ b
      → Outcome (if b then not_handled [] w else handled (run h) id s c w (admits id root a s c w))
  closing h true k e = inl (refusal [] w refl (inl refl))
  closing h false k e = checking h _ k (ground (arith, e)) refl

  at_handler : (o : Option Handler) → lookup id maps ≡ o → Outcome (served run id root a s c w o)
  at_handler none e = inl (refusal [] w refl (inl refl))
  at_handler (some h) e = closing h _ e refl

  -- Dispatch refuses a message: then no handler runs, nothing changes and at most one error is
  -- answered. Or it runs the handler that is registered for the message, answers nothing itself, and the
  -- session is not closed or the message is the end of the session; in a meeting, unless the message is
  -- a join, a resume or the end of the session, the user is no member or the membership is that of this
  -- session; a meeting_id in the message, unless it is a join or the end of the session, is that of the
  -- room; and for a join or a resume the user is reserved for the meeting before the handler runs.
  pub dispatch-Outcome :
      Refused w (dispatch run id root a s c w)
      ⊎ Ran run id root a s c w (dispatch run id root a s c w)
  unfolding dispatch
  dispatch-Outcome = at_handler (lookup id maps) refl
