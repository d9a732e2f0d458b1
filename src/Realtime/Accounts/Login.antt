-- ===== src/Realtime/Accounts/Login.antt =====
-- Whom a login binds to a session.
use sync_rtc.Prelude.{
  ℕ, ◌≡◌, refl, ◌⊎◌, inl, inr, Bool, true, false, Option, none, some, List, ℤ, pos, is_positive,
  is_empty, arith,
}
use sync_rtc.Prelude.Json.{Json}
use sync_rtc.Realtime.Meetings.{Connection, Checked, passes, fails, positive}
use sync_rtc.Realtime.Accounts.{
  RecentMeeting, UserInfo, Lookup, found_text, missing, unavailable, LoginRequest, LoginAnswers,
  read_login, info_uid, is_user, check_token, check_profile, capabilities, login_refused,
  login_closed, logged_in, LoginReply, LoginDone, bound, listed, profiled, known_user, logging_in,
  login,
}

abbrev pub IsLoggedIn : LoginReply → Type 0
IsLoggedIn (login_refused e p) = ⊥
IsLoggedIn (login_closed info ms) = ⊥
IsLoggedIn (logged_in info ms cs) = Unit {0}

-- What stands behind a session that is bound: the token's own user, the one that the request names
-- and MySQL knows by its email, and no other that the session had.
pub record Bound (root : Option Json) (a : LoginAnswers) (c : Connection) (d : LoginDone)
    : Type 0 where
  pub request : LoginRequest
  pub user : ℕ
  pub value : Json
  pub token_user : ℤ
  pub info : UserInfo
  pub meetings : List RecentMeeting
  pub read : read_login root ≡ passes request
  pub session : a.session_of request.token ≡ found_text (some value)
  pub of_token : info_uid a.real_value value ≡ some token_user
  pub positive_user : positive token_user ≡ some user
  pub named : is_user user request.uid ≡ true
  pub profile : a.user_info request.email ≡ some info
  pub of_email : is_user user info.uid ≡ true
  pub has_name : is_empty info.username ≡ false
  pub kept : is_positive c.user_id ≡ true → is_user user c.user_id ≡ true
  pub recent : a.recent user ≡ some meetings
  pub still_open : a.closed ≡ false
  pub connection : d.connection ≡ record c { user_id = pos user; auth_token = request.token }
  pub reply : d.reply ≡ logged_in info meetings capabilities

-- The token's session, its user, and what the checks say of them.
pub record TokenUser (q : LoginRequest) (a : LoginAnswers) (c : Connection) (user : ℕ)
    : Type 0 where
  pub value : Json
  pub token_user : ℤ
  pub session : a.session_of q.token ≡ found_text (some value)
  pub of_token : info_uid a.real_value value ≡ some token_user
  pub positive_user : positive token_user ≡ some user
  pub named : is_user user q.uid ≡ true
  pub kept : is_positive c.user_id ≡ true → is_user user c.user_id ≡ true

check_token-TokenUser :
    (q : LoginRequest) (a : LoginAnswers) (c : Connection) {user : ℕ}
    → check_token q a c ≡ passes user
    → TokenUser q a c user
unfolding check_token
check_token-TokenUser q a c {user} e = at_session (a.session_of q.token) refl
  where
    at_user :
        (v : Json) (z : ℤ)
        → a.session_of q.token ≡ found_text (some v)
        → info_uid a.real_value v ≡ some z
        → (o : Option ℕ) → positive z ≡ o
        → TokenUser q a c user
    at_user v z s i none p = absurd (ground (arith, s, i, p, e))
    at_user v z s i (some u) p = record {
      value = v;
      token_user = z;
      session = s;
      of_token = i;
      positive_user = ground (arith, s, i, p, e);
      named = ground (arith, s, i, p, e);
      kept = λ h. ground (arith, s, i, p, e, h);
    }

    at_value :
        (v : Json)
        → a.session_of q.token ≡ found_text (some v)
        → (o : Option ℤ) → info_uid a.real_value v ≡ o
        → TokenUser q a c user
    at_value v s none i = absurd (ground (arith, s, i, e))
    at_value v s (some z) i = at_user v z s i (positive z) refl

    at_session : (l : Lookup) → a.session_of q.token ≡ l → TokenUser q a c user
    at_session (found_text none) s = absurd (ground (arith, s, e))
    at_session (found_text (some v)) s = at_value v s (info_uid a.real_value v) refl
    at_session missing s = absurd (ground (arith, s, e))
    at_session unavailable s = absurd (ground (arith, s, e))

abbrev Profile : LoginRequest → LoginAnswers → ℕ → UserInfo → Type 0
Profile q a user info =
    (a.user_info q.email ≡ some info)
    × (is_user user info.uid ≡ true)
    × (is_empty info.username ≡ false)

check_profile-Profile :
    (q : LoginRequest) (a : LoginAnswers) (user : ℕ) {info : UserInfo}
    → check_profile q a user ≡ passes info
    → Profile q a user info
unfolding check_profile
check_profile-Profile q a user {info} e = go (a.user_info q.email) refl
  where
    go : (o : Option UserInfo) → a.user_info q.email ≡ o → Profile q a user info
    go none u = absurd (ground (arith, u, e))
    go (some i) u = (ground (arith, u, e), ground (arith, u, e), ground (arith, u, e))

-- Whatever Redis and MySQL answer to a request to log in: the session keeps the user and the token it
-- had and is not told that it is logged in; or it is bound to the user of the session that Redis holds
-- for the token of the request, whom the request names by its uid and MySQL by its email, is told so
-- with that user's recent meetings, was not closed, and had that user or none before.
pub login-Bound :
    (root : Option Json) (a : LoginAnswers) (c : Connection)
    → (((login root a c).connection ≡ c) × (IsLoggedIn (login root a c).reply → ⊥))
      ⊎ Bound root a c (login root a c)
unfolding login
login-Bound root a c = at_request (read_login root) refl
  where
    Result : LoginDone → Type 0
    Result d = ((d.connection ≡ c) × (IsLoggedIn d.reply → ⊥)) ⊎ Bound root a c d

    at_list :
        (q : LoginRequest) (user : ℕ) (info : UserInfo) (ms : List RecentMeeting)
        → read_login root ≡ passes q
        → TokenUser q a c user
        → Profile q a user info
        → a.recent user ≡ some ms
        → (b : Bool) → a.closed ≡ b
        → Result (bound q b c user info ms)
    at_list q user info ms r t p l true k = inl (refl, λ h. h)
    at_list q user info ms r t p l false k = inr (record {
      request = q;
      user = user;
      value = t.value;
      token_user = t.token_user;
      info = info;
      meetings = ms;
      read = r;
      session = t.session;
      of_token = t.of_token;
      positive_user = t.positive_user;
      named = t.named;
      profile = p.0;
      of_email = p.1;
      has_name = p.2;
      kept = t.kept;
      recent = l;
      still_open = k;
      connection = refl;
      reply = refl;
    })

    at_profile :
        (q : LoginRequest) (user : ℕ) (info : UserInfo)
        → read_login root ≡ passes q
        → TokenUser q a c user
        → Profile q a user info
        → (o : Option (List RecentMeeting)) → a.recent user ≡ o
        → Result (listed q a c user info o)
    at_profile q user info r t p none l = inl (refl, λ h. h)
    at_profile q user info r t p (some ms) l = at_list q user info ms r t p l a.closed refl

    at_user :
        (q : LoginRequest) (user : ℕ)
        → read_login root ≡ passes q
        → TokenUser q a c user
        → (o : Checked UserInfo) → check_profile q a user ≡ o
        → Result (profiled q a c user o)
    at_user q user r t (fails e) p = inl (refl, λ h. h)
    at_user q user r t (passes info) p =
        at_profile q user info r t (check_profile-Profile q a user p) (a.recent user) refl

    at_token :
        (q : LoginRequest)
        → read_login root ≡ passes q
        → (o : Checked ℕ) → check_token q a c ≡ o
        → Result (known_user q a c o)
    at_token q r (fails e) k = inl (refl, λ h. h)
    at_token q r (passes user) k =
        at_user q user r (check_token-TokenUser q a c k) (check_profile q a user) refl

    at_request : (o : Checked LoginRequest) → read_login root ≡ o → Result (logging_in a c o)
    at_request (fails e) r = inl (refl, λ h. h)
    at_request (passes q) r = at_token q r (check_token q a c) refl
