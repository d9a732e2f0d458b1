-- ===== src/Realtime/Accounts/Creation.antt =====
-- What a request to create a meeting comes to.
use sync_rtc.Prelude.{
  ℕ, ◌≤◌, ◌≡◌, refl, subst, ◌⊎◌, inl, inr, Bool, true, false, Option, none, some, [], ◌∷◌, Bytes,
  length, is_empty, arith,
}
use sync_rtc.Prelude.Json.{Json, Fields, member}
use sync_rtc.Realtime.Meetings.{
  ErrorCode, error_mysql, Connection, Checked, passes, fails, object, string_value, positive,
}
use sync_rtc.Realtime.Accounts.{
  NewMeeting, CreateRequest, CreateAnswers, optional_text, read_create, nonempty_hash,
  hash_password, create_refused, created, CreateDone, taken, hashed, creating, create_meeting,
}

-- A request that may create a meeting for the user of the session, and what it brings.
pub record Allowed (root : Option Json) (c : Connection) (q : CreateRequest) : Type 0 where
  pub fields : Fields
  pub parsed : object root ≡ some fields
  pub of_title : string_value (member "title" fields) ≡ some q.title
  pub of_schedule : optional_text (member "scheduled_at" fields) ≡ passes q.scheduled_at
  pub of_password : optional_text (member "password" fields) ≡ passes q.password
  pub by_user : positive c.user_id ≡ some q.user
  pub title_bound : length q.title ≤ 200
  pub has_title : is_empty q.title ≡ false
  pub password_bound : length q.password ≤ 72

read_create-Allowed :
    (root : Option Json) (c : Connection) {q : CreateRequest}
    → read_create root c ≡ passes q
    → Allowed root c q
unfolding read_create
read_create-Allowed root c {q} e = at_root (object root) refl
  where
    at_password :
        (fs : Fields) (t d : Bytes)
        → object root ≡ some fs
        → string_value (member "title" fs) ≡ some t
        → optional_text (member "scheduled_at" fs) ≡ passes d
        → (o : Checked Bytes) → optional_text (member "password" fs) ≡ o
        → (u : Option ℕ) → positive c.user_id ≡ u
        → Allowed root c q
    at_password fs t d r x y (fails k) z u w = absurd (ground (arith, r, x, y, z, e))
    at_password fs t d r x y (passes p) z none w = absurd (ground (arith, r, x, y, z, w, e))
    at_password fs t d r x y (passes p) z (some n) w = record {
      fields = fs;
      parsed = r;
      of_title = ground (arith, r, x, y, z, w, e);
      of_schedule = ground (arith, r, x, y, z, w, e);
      of_password = ground (arith, r, x, y, z, w, e);
      by_user = ground (arith, r, x, y, z, w, e);
      title_bound = ground (arith, r, x, y, z, w, e);
      has_title = ground (arith, r, x, y, z, w, e);
      password_bound = ground (arith, r, x, y, z, w, e);
    }

    at_schedule :
        (fs : Fields) (t : Bytes)
        → object root ≡ some fs
        → string_value (member "title" fs) ≡ some t
        → (o : Checked Bytes) → optional_text (member "scheduled_at" fs) ≡ o
        → Allowed root c q
    at_schedule fs t r x (fails k) y = absurd (ground (arith, r, x, y, e))
    at_schedule fs t r x (passes d) y =
        at_password fs t d r x y (optional_text (member "password" fs)) refl (positive c.user_id)
          refl

    at_title :
        (fs : Fields)
        → object root ≡ some fs
        → (o : Option Bytes) → string_value (member "title" fs) ≡ o
        → Allowed root c q
    at_title fs r none x = absurd (ground (arith, r, x, e))
    at_title fs r (some t) x = at_schedule fs t r x (optional_text (member "scheduled_at" fs)) refl

    at_root : (o : Option Fields) → object root ≡ o → Allowed root c q
    at_root none r = absurd (ground (arith, r, e))
    at_root (some fs) r = at_title fs r (string_value (member "title" fs)) refl

-- The hash that goes with a password: none for none, and else that of crypt, which is not empty.
pub data Hashes (a : CreateAnswers) : Bytes → Bytes → Type 0 where
  unprotected : Hashes a [] []
  protected :
      {x : ℕ} {xs : Bytes} {hash : Bytes}
      → a.hash (x ∷ xs) ≡ hash
      → is_empty hash ≡ false
      → Hashes a (x ∷ xs) hash

hash_password-Hashes :
    (a : CreateAnswers) (p : Bytes) {h : Bytes} → hash_password a.hash p ≡ passes h → Hashes a p h
hash_password-Hashes a [] {h} e =
    subst (λ (k : Bytes). Hashes a [] k) (ground (arith, e)) unprotected
hash_password-Hashes a (x ∷ xs) {h} e = go (a.hash (x ∷ xs)) refl e
  where
    go : (o : Bytes) → a.hash (x ∷ xs) ≡ o → nonempty_hash o ≡ passes h → Hashes a (x ∷ xs) h
    go [] k e = absurd (ground (arith, e))
    go (y ∷ ys) k e =
        subst (λ (z : Bytes). Hashes a (x ∷ xs) z) (ground (arith, e)) (protected k refl)

-- The one call of CreateMeeting of a request.
pub record Asked (root : Option Json) (a : CreateAnswers) (c : Connection) (d : CreateDone)
    : Type 0 where
  pub request : CreateRequest
  pub meeting : NewMeeting
  pub allowed : Allowed root c request
  pub only : d.asked ≡ meeting ∷ []
  pub of_user : meeting.user ≡ request.user
  pub same_title : meeting.title ≡ request.title
  pub same_schedule : meeting.scheduled_at ≡ request.scheduled_at
  pub hash : Hashes a request.password meeting.password_hash
  pub reported :
      ((a.takes meeting ≡ true) × (d.reply ≡ created (a.recent meeting.user)))
      ⊎ ((a.takes meeting ≡ false) × (d.reply ≡ create_refused error_mysql))

-- A request to create a meeting is refused without a call of CreateMeeting; or there is exactly one
-- call, in the name of the user of the session, with the title of the request, of 1 to 200 bytes, its
-- schedule, and no hash where it brings no password, else a hash that is not empty of a password of at
-- most 72 bytes. Then success is reported when that call succeeds, also where the list of meetings
-- cannot be read afterwards, and ERROR_MYSQL when it fails.
pub create_meeting-Asked :
    (root : Option Json) (a : CreateAnswers) (c : Connection)
    → (((create_meeting root a c).asked ≡ [])
        × ((e : ErrorCode) × ((create_meeting root a c).reply ≡ create_refused e)))
      ⊎ Asked root a c (create_meeting root a c)
unfolding create_meeting
create_meeting-Asked root a c = at_request (read_create root c) refl
  where
    Result : CreateDone → Type 0
    Result d =
        ((d.asked ≡ []) × ((e : ErrorCode) × (d.reply ≡ create_refused e))) ⊎ Asked root a c d

    once : (m : NewMeeting) (b : Bool) → (taken m a b).asked ≡ m ∷ []
    once m true = refl
    once m false = refl

    told :
        (m : NewMeeting) (b : Bool)
        → a.takes m ≡ b
        → ((a.takes m ≡ true) × ((taken m a b).reply ≡ created (a.recent m.user)))
          ⊎ ((a.takes m ≡ false) × ((taken m a b).reply ≡ create_refused error_mysql))
    told m true k = inl (k, refl)
    told m false k = inr (k, refl)

    at_call :
        (q : CreateRequest) (m : NewMeeting)
        → Allowed root c q
        → m.user ≡ q.user
        → m.title ≡ q.title
        → m.scheduled_at ≡ q.scheduled_at
        → Hashes a q.password m.password_hash
        → Asked root a c (taken m a (a.takes m))
    at_call q m w u t s h = record {
      request = q;
      meeting = m;
      allowed = w;
      only = once m (a.takes m);
      of_user = u;
      same_title = t;
      same_schedule = s;
      hash = h;
      reported = told m (a.takes m) refl;
    }

    at_hash :
        (q : CreateRequest)
        → Allowed root c q
        → (o : Checked Bytes) → hash_password a.hash q.password ≡ o
        → Result (hashed q a o)
    at_hash q w (fails e) h = inl (refl, (e, refl))
    at_hash q w (passes p) h =
        inr (at_call q _ w refl refl refl (hash_password-Hashes a q.password h))

    at_request : (o : Checked CreateRequest) → read_create root c ≡ o → Result (creating a o)
    at_request (fails e) r = inl (refl, (e, refl))
    at_request (passes q) r =
        at_hash q (read_create-Allowed root c r) (hash_password a.hash q.password) refl
