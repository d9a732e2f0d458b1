-- ===== src/Realtime/Meetings/Admission.antt =====
-- What a request to join or to resume a meeting comes to.
use sync_rtc.Prelude.{
  ℕ, ◌<◌, ◌≡◌, refl, ap, sym, ◌∙◌, ◌⊎◌, Bool, true, false, Option, none, some, List, [], ◌∷◌, Bytes,
  is_empty, arith,
}
use sync_rtc.Prelude.Json.{Json, Fields, member, same_bytes-eq}
use sync_rtc.Prelude.Assoc.{lookup, assign, lookup-assign}
use sync_rtc.Realtime.Meetings.{
  Connection, Membership, Room, World, Checked, passes, fails, object, string_value,
  read_uint64_value, positive, JoinedReply, Reply, refused, joined, succeeded, ended_meeting, Done,
  request_close, StoreCommand, Notice, broadcast, set_meeting_id,
}
use sync_rtc.Realtime.Meetings.Join.{
  JoinAnswers, ResumeRequest, read_resume, may_resume, check_resume, Named, name_request, Admission,
  admit, write_join, attach, announce, complete, written, admitted, named, answered, join_meeting,
  next_generation, new_membership, detach, previous_session, enter, request_id_of, announcements,
  member_values, joined_reply,
}

-- After a refusal, the meeting, its sessions and the other tables are as before, and nobody hears of
-- the request.
abbrev pub Untouched : Reply → Done → World → Type 0
Untouched (refused e request_id) done w =
    (done.world ≡ w) × (done.notices ≡ []) × (done.leaves ≡ [])
Untouched (joined r) done w = Unit {0}
Untouched succeeded done w = ⊥
Untouched (ended_meeting b) done w = ⊥

abbrev pub closed_unless : Bool → ℕ → World → World
closed_unless true s w = w
closed_unless false s w = request_close s w

abbrev pub AllOrNothing : Done → World → Type 0
AllOrNothing done w = (r : Reply) × (done.replies ≡ r ∷ []) × Untouched r done w

named-AllOrNothing :
    (s : ℕ) (resuming : Bool) (a : JoinAnswers) (c : Connection) (w : World) (n : Checked Named)
    → AllOrNothing (named s resuming a c w n) w
unfolding complete
named-AllOrNothing s resuming a c w (fails e) = (_, refl, (refl, refl, refl))
named-AllOrNothing s resuming a c w (passes n) = go (admit resuming n a c w.room)
  where
    writing :
        (d : Admission) (o : List StoreCommand × Checked (List Bytes))
        → AllOrNothing (written s (request_id_of n.request) d a c.auth_token w o) w
    writing d (cs, fails e) = (_, refl, (refl, refl, refl))
    writing d (cs, passes members) = (_, refl, tt)

    go :
        (d : Checked Admission)
        → AllOrNothing (admitted s resuming (request_id_of n.request) a c.auth_token w d) w
    go (fails e) = (_, refl, (refl, refl, refl))
    go (passes d) = writing d (write_join resuming d a)

-- A request to join or resume has one response. When that is a refusal, the room, its members and
-- sessions, the other sessions and the tables of users and media negotiations are as before, except
-- that a session that does not take the response is asked to close; no session is told anything, and
-- MediaServer gets no leave.
pub join_meeting-AllOrNothing :
    (resuming : Bool) (root : Option Json) (a : JoinAnswers) (s : ℕ) (c : Connection) (w : World)
    → (r : Reply) × ((join_meeting resuming root a s c w).replies ≡ r ∷ [])
      × Untouched r (join_meeting resuming root a s c w) (closed_unless a.sent s w)
unfolding join_meeting
join_meeting-AllOrNothing resuming root a s c w = go a.sent
  where
    inner : AllOrNothing (named s resuming a c w (name_request resuming root a c w.room.id)) w
    inner = named-AllOrNothing s resuming a c w (name_request resuming root a c w.room.id)

    shut :
        (r : Reply) (done : Done)
        → Untouched r done w
        → Untouched r (answered s false done) (request_close s w)
    shut (refused e q) done (x, y, z) = (ap (request_close s) x, y, z)
    shut (joined r) done u = tt
    shut succeeded done u = elim u [ ]
    shut (ended_meeting b) done u = elim u [ ]

    go :
        (b : Bool)
        → (r : Reply) × ((answered s b
              (named s resuming a c w (name_request resuming root a c w.room.id))).replies
            ≡ r ∷ [])
          × Untouched r
              (answered s b (named s resuming a c w (name_request resuming root a c w.room.id)))
              (closed_unless b s w)
    go true = inner
    go false = (inner.0, inner.1, shut inner.0 _ inner.2)

-- A request, of a session with this token, that takes up a membership at this time.
pub record Resumes (q : ResumeRequest) (token : Bytes) (steady_now : ℕ) (m : Membership)
    : Type 0 where
  pub has_ticket : q.resume_ticket ≡ m.ticket
  pub has_token : token ≡ m.auth_token
  pub authorised : is_empty token ≡ false
  pub in_time : (m.deadline ≡ 0) ⊎ (steady_now < m.deadline)
  -- the generation is the present one, or an earlier one and the request is the last one again
  pub current :
      (q.known_generation ≡ m.generation)
      ⊎ ((q.known_generation < m.generation) × (q.request_id ≡ m.last_request))

may_resume-Resumes :
    (q : ResumeRequest) (token : Bytes) (t : ℕ) (m : Membership)
    → may_resume q token t m ≡ true
    → Resumes q token t m
unfolding may_resume
may_resume-Resumes q token t m e = ground (
  arith,
  same_bytes-eq m.ticket q.resume_ticket,
  same_bytes-eq m.auth_token token,
  same_bytes-eq m.last_request q.request_id,
)

-- What the text of a request says of a resume.
pub record Asks (root : Option Json) (q : ResumeRequest) : Type 0 where
  pub fields : Fields
  pub parsed : object root ≡ some fields
  pub of_request_id : string_value (member "request_id" fields) ≡ some q.request_id
  pub of_ticket : string_value (member "resume_ticket" fields) ≡ some q.resume_ticket
  pub of_generation :
      read_uint64_value (member "membership_generation" fields) ≡ some q.known_generation

read_resume-Asks :
    (root : Option Json) (fs : Fields) (q : ResumeRequest)
    → object root ≡ some fs
    → read_resume fs ≡ passes q
    → Asks root q
unfolding read_resume
read_resume-Asks root fs q f e =
    go (string_value (member "request_id" fs)) (string_value (member "resume_ticket" fs))
      (read_uint64_value (member "membership_generation" fs)) refl refl refl
  where
    go :
        (i t : Option Bytes) (g : Option ℕ)
        → string_value (member "request_id" fs) ≡ i
        → string_value (member "resume_ticket" fs) ≡ t
        → read_uint64_value (member "membership_generation" fs) ≡ g
        → Asks root q
    go none t g x y z = absurd (ground (arith, x, e))
    go (some i) none g x y z = absurd (ground (arith, x, y, e))
    go (some i) (some t) none x y z = absurd (ground (arith, x, y, z, e))
    go (some i) (some t) (some g) x y z = record {
      fields = fs;
      parsed = f;
      of_request_id = ground (arith, x, y, z, e);
      of_ticket = ground (arith, x, y, z, e);
      of_generation = ground (arith, x, y, z, e);
    }

name_request_resume :
    (root : Option Json) (a : JoinAnswers) (c : Connection) (id : ℕ) {n : Named}
    → name_request true root a c id ≡ passes n
    → (q : ResumeRequest) × (n.request ≡ some q) × (positive c.user_id ≡ some n.user) × Asks root q
unfolding name_request
name_request_resume root a c id {n} e = go (object root) refl
  where
    reading :
        (fs : Fields) (o : Checked ResumeRequest)
        → object root ≡ some fs
        → read_resume fs ≡ o
        → (q : ResumeRequest) × (n.request ≡ some q)
          × (positive c.user_id ≡ some n.user)
          × Asks root q
    reading fs (fails x) f h = absurd (ground (arith, f, h, e))
    reading fs (passes q) f h =
        (q, ground (arith, f, h, e), ground (arith, f, h, e), read_resume-Asks root fs q f h)

    go :
        (o : Option Fields)
        → object root ≡ o
        → (q : ResumeRequest) × (n.request ≡ some q)
          × (positive c.user_id ≡ some n.user)
          × Asks root q
    go none f = absurd (ground (arith, f, e))
    go (some fs) f = reading fs (read_resume fs) f refl

admit_resume :
    (n : Named) (q : ResumeRequest) (a : JoinAnswers) (c : Connection) (room : Room) {d : Admission}
    → n.request ≡ some q
    → admit true n a c room ≡ passes d
    → (m : Membership) × (lookup n.user room.members ≡ some m)
      × (may_resume q c.auth_token a.steady_now m ≡ true)
      × (d.uid ≡ n.user)
      × (d.resumed ≡ some (q, m))
unfolding admit check_resume
admit_resume n q a c room {d} f e = go (lookup n.user room.members) refl
  where
    go :
        (o : Option Membership)
        → lookup n.user room.members ≡ o
        → (m : Membership) × (lookup n.user room.members ≡ some m)
          × (may_resume q c.auth_token a.steady_now m ≡ true)
          × (d.uid ≡ n.user)
          × (d.resumed ≡ some (q, m))
    go none h = absurd (ground (arith, h, f, e))
    go (some m) h =
        (m, h, ground (arith, h, f, e), ground (arith, h, f, e), ground (arith, h, f, e))

members-announce :
    (uid : ℕ) (ns : List Notice) (w : World) → (announce uid ns w).0.room.members ≡ w.room.members
unfolding announce broadcast
members-announce uid [] w = refl
members-announce uid (n ∷ ns) w = members-announce uid ns _

members-attach :
    (s : ℕ) (d : Admission) (token : Bytes) (w : World)
    → lookup d.uid (attach s d token w).0.room.members ≡ some (new_membership d token s w)
unfolding attach detach enter set_meeting_id
members-attach s d token w = go (previous_session d.uid s w)
  where
    go :
        (o : Option ℕ)
        → lookup d.uid (assign d.uid (new_membership d token s w) (detach o w).0.room.members)
          ≡ some (new_membership d token s w)
    go o =
        ground (
          arith,
          lookup-assign d.uid d.uid (new_membership d token s w) (detach o w).0.room.members,
        )

-- The session resumes a membership of its user.
pub record Resumed (root : Option Json) (a : JoinAnswers) (s : ℕ) (c : Connection) (w : World)
    (r : JoinedReply) (after : World) : Type 0 where
  pub uid : ℕ
  pub request : ResumeRequest
  pub before : Membership
  pub asked : Asks root request
  pub same_user : positive c.user_id ≡ some uid
  pub was_member : lookup uid w.room.members ≡ some before
  pub allowed : Resumes request c.auth_token a.steady_now before
  pub is_member :
      lookup uid after.room.members
      ≡ some (record before {
        last_request = request.request_id;
        generation = next_generation s w before;
        session = some s;
        deadline = 0;
      })
  pub told :
      (r.resume_ticket ≡ before.ticket) × (r.membership_generation ≡ next_generation s w before)

membership_of_resume :
    (s : ℕ) (d : Admission) (q : ResumeRequest) (m : Membership) (token : Bytes) (w : World)
    → d.resumed ≡ some (q, m)
    → new_membership d token s w ≡ record m {
      last_request = q.request_id;
      generation = next_generation s w m;
      session = some s;
      deadline = 0;
    }
unfolding new_membership
membership_of_resume s d q m token w e = ground (arith, e)

complete-Resumed :
    (root : Option Json) (a : JoinAnswers) (s : ℕ) (c : Connection) (w : World) (r : JoinedReply)
    (d : Admission) (q : ResumeRequest) (m : Membership) (cs : List StoreCommand)
    (members : List Bytes) (request_id : Option Bytes)
    → Asks root q
    → d.resumed ≡ some (q, m)
    → positive c.user_id ≡ some d.uid
    → lookup d.uid w.room.members ≡ some m
    → Resumes q c.auth_token a.steady_now m
    → (complete s request_id d a c.auth_token cs members w).replies ≡ joined r ∷ []
    → Resumed root a s c w r (complete s request_id d a c.auth_token cs members w).world
unfolding complete new_membership joined_reply
complete-Resumed root a s c w r d q m cs members request_id k e u l v h = record {
  uid = d.uid;
  request = q;
  before = m;
  asked = k;
  same_user = u;
  was_member = l;
  allowed = v;
  is_member =
      ap (lookup d.uid) (
        members-announce d.uid (announcements d (member_values d.uid a members))
          (attach s d c.auth_token w).0)
      ∙ members-attach s d c.auth_token w
      ∙ ap some (membership_of_resume s d q m c.auth_token w e);
  told =
      let same = membership_of_resume s d q m c.auth_token w e in
      (
        ground (arith, h, ap (λ (x : Membership). x.ticket) same),
        ground (arith, h, ap (λ (x : Membership). x.generation) same),
      );
}

named-Resumed :
    (root : Option Json) (a : JoinAnswers) (s : ℕ) (c : Connection) (w : World) (r : JoinedReply)
    (n : Checked Named)
    → name_request true root a c w.room.id ≡ n
    → (named s true a c w n).replies ≡ joined r ∷ []
    → Resumed root a s c w r (named s true a c w n).world
named-Resumed root a s c w r (fails x) e h = absurd (ground (arith, h))
named-Resumed root a s c w r (passes n) e h =
    let (q, f, u, k) = name_request_resume root a c w.room.id e in
    admitting q k f u (admit true n a c w.room) refl h
  where
    writing :
        (q : ResumeRequest) (d : Admission) (m : Membership)
        (o : List StoreCommand × Checked (List Bytes))
        → Asks root q
        → d.resumed ≡ some (q, m)
        → positive c.user_id ≡ some d.uid
        → lookup d.uid w.room.members ≡ some m
        → Resumes q c.auth_token a.steady_now m
        → (written s (request_id_of n.request) d a c.auth_token w o).replies ≡ joined r ∷ []
        → Resumed root a s c w r (written s (request_id_of n.request) d a c.auth_token w o).world
    writing q d m (cs, fails x) k e u l v h = absurd (ground (arith, h))
    writing q d m (cs, passes members) k e u l v h =
        complete-Resumed root a s c w r d q m cs members (request_id_of n.request) k e u l v h

    admitting :
        (q : ResumeRequest)
        → Asks root q
        → n.request ≡ some q
        → positive c.user_id ≡ some n.user
        → (d : Checked Admission) → admit true n a c w.room ≡ d
        → (admitted s true (request_id_of n.request) a c.auth_token w d).replies ≡ joined r ∷ []
        → Resumed root a s c w r
            (admitted s true (request_id_of n.request) a c.auth_token w d).world
    admitting q k f u (fails x) g h = absurd (ground (arith, h))
    admitting q k f u (passes d) g h =
        let (m, l, allowed, same, resumed) = admit_resume n q a c w.room f g in
        writing q d m (write_join true d a) k resumed (u ∙ ap some (sym same))
          (ap (λ (k : ℕ). lookup k w.room.members) same ∙ l)
          (may_resume-Resumes q c.auth_token a.steady_now m allowed) h

-- A session that is told that it resumed a meeting belongs to a member of the meeting: the fields of
-- its request bring the ticket of the member, the session's authentication token is that of the member
-- and is not empty, the time to reconnect has not passed, and the request knows the generation of the
-- membership, or an earlier one and repeats the last request. Afterwards the membership is that of this
-- session, has no deadline and its generation counts one more unless it was the session's already; the
-- session is told the ticket and the generation.
pub join_meeting-Resumed :
    (root : Option Json) (a : JoinAnswers) (s : ℕ) (c : Connection) (w : World) {r : JoinedReply}
    → (join_meeting true root a s c w).replies ≡ joined r ∷ []
    → Resumed root a s c w r (join_meeting true root a s c w).world
unfolding join_meeting request_close
join_meeting-Resumed root a s c w {r} h = go a.sent h
  where
    n : Checked Named
    n = name_request true root a c w.room.id

    shut : (u : World) → Resumed root a s c w r u → Resumed root a s c w r (request_close s u)
    shut u v = record {
      uid = v.uid;
      request = v.request;
      before = v.before;
      asked = v.asked;
      same_user = v.same_user;
      was_member = v.was_member;
      allowed = v.allowed;
      is_member = v.is_member;
      told = v.told;
    }

    go :
        (b : Bool)
        → (answered s b (named s true a c w n)).replies ≡ joined r ∷ []
        → Resumed root a s c w r (answered s b (named s true a c w n)).world
    go true h = named-Resumed root a s c w r n refl h
    go false h = shut _ (named-Resumed root a s c w r n refl h)
