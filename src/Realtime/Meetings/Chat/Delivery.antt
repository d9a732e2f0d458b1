-- ===== src/Realtime/Meetings/Chat/Delivery.antt =====
-- Who gets a message, and in whose name.
use sync_rtc.Prelude.{
  ℕ, ◌^◌, ◌<◌, ◌≡◌, refl, ap, sym, ◌∙◌, ◌⊎◌, Bool, true, Option, none, some, List, [], ◌∷◌, arith,
}
use sync_rtc.Prelude.Json.{Json}
use sync_rtc.Prelude.Assoc.{Assoc, lookup}
use sync_rtc.Prelude.Distinct.{contains, contains-append}
use sync_rtc.Realtime.Meetings.{
  Connection, World, Checked, passes, fails, positive, user_key, keep_sessions, taken_by,
}
use sync_rtc.Realtime.Meetings.Attachment.Sessions.{keep_subset, keep_test}
use sync_rtc.Realtime.Meetings.Chat.Reading.{Requested, read_send-Requested}
use sync_rtc.Realtime.Meetings.Chat.{
  ChatMessage, MessageValue, SendRequest, new_message, read_send, SendAnswers, check_send,
  save_message, gets, recipients, SendReply, send_refused, sent_as, Sent, push_all, saved, allowed,
  sending, send_message,
}

-- A session that is there and meets the test is kept.
keep_member :
    (p : ℕ → Connection → Bool) (cs : Assoc Connection) (ss : List ℕ) (x : ℕ) (c : Connection)
    → contains ss x ≡ true
    → lookup x cs ≡ some c
    → p x c ≡ true
    → contains (keep_sessions p cs ss) x ≡ true
unfolding keep_sessions contains
keep_member p cs [] x c h e t = h
keep_member p cs (s ∷ ss) x c h e t = ground (
  arith,
  contains-append (taken_by (p s) (lookup s cs) s) (keep_sessions p cs ss) x,
  keep_member p cs ss x c,
)

abbrev pub sessions_of : List (ℕ × MessageValue) → List ℕ
sessions_of [] = []
sessions_of ((s, v) ∷ ps) = s ∷ sessions_of ps

abbrev pub AllCarry : MessageValue → List (ℕ × MessageValue) → Type 0
AllCarry v [] = Unit {0}
AllCarry v ((s, u) ∷ ps) = (u ≡ v) × AllCarry v ps

sessions_of-push_all : (ss : List ℕ) (v : MessageValue) → sessions_of (push_all ss v) ≡ ss
unfolding push_all
sessions_of-push_all [] v = refl
sessions_of-push_all (s ∷ ss) v = ap (◌∷◌ s) (sessions_of-push_all ss v)

push_all-AllCarry : (ss : List ℕ) (v : MessageValue) → AllCarry v (push_all ss v)
unfolding push_all
push_all-AllCarry [] v = tt
push_all-AllCarry (s ∷ ss) v = (refl, push_all-AllCarry ss v)

-- What is pushed for a message: `asked` is what the handler gives to storage.
pub record Delivered (root : Option Json) (a : SendAnswers) (c : Connection) (w : World)
    (v : MessageValue) (ps : List (ℕ × MessageValue)) : Type 0 where
  pub asked : ChatMessage
  pub requested : Requested root asked
  pub stored : a.save asked ≡ some v.message
  pub from_user : positive c.user_id ≡ some asked.sender
  pub in_meeting : asked.meeting_id ≡ c.meeting_id
  pub carried : AllCarry v ps
  pub present : (x : ℕ) → contains (sessions_of ps) x ≡ true → contains w.room.sessions x ≡ true
  pub group :
      asked.receiver ≡ none
      → (x : ℕ) (d : Connection) → contains w.room.sessions x ≡ true
      → lookup x w.connections ≡ some d
      → contains (sessions_of ps) x ≡ true
  pub to_target :
      (t x : ℕ) (d : Connection)
      → asked.receiver ≡ some t
      → t < 2 ^ 31
      → contains w.room.sessions x ≡ true
      → lookup x w.connections ≡ some d
      → (user_key d.user_id ≡ t) ⊎ (user_key d.user_id ≡ asked.sender)
      → contains (sessions_of ps) x ≡ true
  pub only_target :
      (t x : ℕ) (d : Connection)
      → asked.receiver ≡ some t
      → t < 2 ^ 31
      → contains (sessions_of ps) x ≡ true
      → lookup x w.connections ≡ some d
      → (user_key d.user_id ≡ t) ⊎ (user_key d.user_id ≡ asked.sender)

pushed-Delivered :
    (root : Option Json) (a : SendAnswers) (c : Connection) (w : World) (v : MessageValue)
    (m : ChatMessage)
    → Requested root m
    → a.save m ≡ some v.message
    → positive c.user_id ≡ some m.sender
    → m.meeting_id ≡ c.meeting_id
    → Delivered root a c w v (push_all (recipients m.sender m.receiver w) v)
unfolding recipients
pushed-Delivered root a c w v m r s u i = record {
  asked = m;
  requested = r;
  stored = s;
  from_user = u;
  in_meeting = i;
  carried = push_all-AllCarry (recipients m.sender m.receiver w) v;
  present = λ x h. keep_subset test w.connections w.room.sessions x (seen x h);
  group = λ e x d h l.
      said x (keep_member test w.connections w.room.sessions x d h l (ground (arith, e)));
  to_target = λ t x d e lt h l k.
      said x (keep_member test w.connections w.room.sessions x d h l (ground (arith, e, lt, k)));
  only_target = λ t x d e lt h l.
      let g = keep_test test w.connections w.room.sessions x d (seen x h) l in
      ground (arith, e, lt, g);
}
  where
    test : ℕ → Connection → Bool
    test x d = gets m.sender m.receiver d

    same :
        sessions_of (push_all (recipients m.sender m.receiver w) v)
        ≡ recipients m.sender m.receiver w
    same = sessions_of-push_all (recipients m.sender m.receiver w) v

    seen :
        (x : ℕ)
        → contains (sessions_of (push_all (recipients m.sender m.receiver w) v)) x ≡ true
        → contains (recipients m.sender m.receiver w) x ≡ true
    seen x h = sym (ap (λ (l : List ℕ). contains l x) same) ∙ h

    said :
        (x : ℕ)
        → contains (recipients m.sender m.receiver w) x ≡ true
        → contains (sessions_of (push_all (recipients m.sender m.receiver w) v)) x ≡ true
    said x h = ap (λ (l : List ℕ). contains l x) same ∙ h

check_send_user :
    (q : SendRequest) (c : Connection) {m uid : ℕ} {target : Option ℕ}
    → check_send q c ≡ passes (m, uid, target)
    → (positive c.user_id ≡ some uid) × (m ≡ c.meeting_id)
unfolding check_send
check_send_user q c e = ground (arith, e)

save_message_stored :
    (q : SendRequest) (a : SendAnswers) (meeting_id uid : ℕ) (target : Option ℕ) {v : MessageValue}
    → save_message q a meeting_id uid target ≡ passes v
    → a.save (new_message q meeting_id uid target) ≡ some v.message
unfolding save_message
save_message_stored q a meeting_id uid target e = ground (arith, e)

-- What a request to send comes to.
abbrev pub Outcome : Option Json → SendAnswers → Connection → World → SendReply → Sent → Type 0
Outcome root a c w (send_refused e known) done = (done.world ≡ w) × (done.pushes ≡ [])
Outcome root a c w (sent_as v) done = Delivered root a c w v done.pushes

abbrev Ends : Option Json → SendAnswers → Connection → World → Sent → Type 0
Ends root a c w done = Outcome root a c w done.reply done

saved-Ends :
    (root : Option Json) (q : SendRequest) (a : SendAnswers) (c : Connection) (w : World)
    (m uid : ℕ) (target : Option ℕ) (o : Checked MessageValue)
    → positive c.user_id ≡ some uid
    → m ≡ c.meeting_id
    → Requested root (new_message q m uid target)
    → save_message q a m uid target ≡ o
    → Ends root a c w (saved q uid target w o)
saved-Ends root q a c w m uid target (fails x) u i r e = (refl, refl)
saved-Ends root q a c w m uid target (passes v) u i r e =
    pushed-Delivered root a c w v (new_message q m uid target) r
      (save_message_stored q a m uid target e) u i

-- A request to send a message is refused, and then nothing changes and nobody gets a push; or the
-- message that storage has taken is the one that the fields of the request give, by its content, its
-- client_msg_id, its meeting_id, which is the meeting that the session is in, and its target: none for
-- chat_type "group" with a null target, the positive target_user_id for "private"; its sender is the
-- user of the session. It is pushed, as storage gives it back, to sessions of the room only: without a
-- target to all that are there, and with a target below 2^31 to exactly those of the target and of the
-- sender.
pub send_message-Outcome :
    (root : Option Json) (a : SendAnswers) (c : Connection) (w : World)
    → Outcome root a c w (send_message root a c w).reply (send_message root a c w)
unfolding send_message
send_message-Outcome root a c w = go (read_send root) refl
  where
    allowing :
        (q : SendRequest) (o : Checked (ℕ × ℕ × Option ℕ))
        → read_send root ≡ passes q
        → check_send q c ≡ o
        → Ends root a c w (allowed q a w o)
    allowing q (fails x) k e = (refl, refl)
    allowing q (passes (m, uid, target)) k e =
        let (u, i) = check_send_user q c e in
        saved-Ends root q a c w m uid target (save_message q a m uid target) u i
          (read_send-Requested root q c k e) refl

    go : (o : Checked SendRequest) → read_send root ≡ o → Ends root a c w (sending a c w o)
    go (fails x) k = (refl, refl)
    go (passes q) k = allowing q (check_send q c) k refl
