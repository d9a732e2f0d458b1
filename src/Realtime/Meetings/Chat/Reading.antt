-- ===== src/Realtime/Meetings/Chat/Reading.antt =====
-- What a request to send a message says (SendMeetingMessageHandler of RealtimeServer/src/service/
-- LogicSystem.cpp).
use sync_rtc.Prelude.{
  ℕ, zero, suc, pos, codes, Bytes, ◌≡◌, refl, ap, ◌∙◌, Bool, true, false, subst, Option, none, some,
  arith,
}
use sync_rtc.Prelude.Json.{Json, Fields, null, integer, member, same_bytes-eq}
use sync_rtc.Realtime.Meetings.{Connection, passes, object, string_value, meeting_id_text}
use sync_rtc.Realtime.Meetings.Chat.{
  ChatMessage, SendRequest, is_group, is_null, target_id, new_message, read_send, check_send,
}

-- To whom the fields of a request address a message.
pub data Addressed (fields : Fields) : Option ℕ → Type 0 where
  to_group :
      string_value (member "chat_type" fields) ≡ some (codes "group")
      → member "target_user_id" fields ≡ null
      → Addressed fields none
  to_user :
      {t : ℕ}
      → string_value (member "chat_type" fields) ≡ some (codes "private")
      → member "target_user_id" fields ≡ integer (pos (suc t))
      → Addressed fields (some (suc t))

-- What the request says of the message.
pub record Requested (root : Option Json) (m : ChatMessage) : Type 0 where
  pub fields : Fields
  pub parsed : object root ≡ some fields
  pub of_meeting : meeting_id_text (string_value (member "meeting_id" fields)) ≡ some m.meeting_id
  pub of_content : string_value (member "content" fields) ≡ some m.content
  pub of_client : string_value (member "client_msg_id" fields) ≡ some m.client_msg_id
  pub of_target : Addressed fields m.receiver

-- The texts of a request that is read.
pub record ReadAs (root : Option Json) (q : SendRequest) : Type 0 where
  pub fields : Fields
  pub parsed : object root ≡ some fields
  pub meeting : string_value (member "meeting_id" fields) ≡ some q.meeting_text
  pub kind : string_value (member "chat_type" fields) ≡ some q.chat_type
  pub content : string_value (member "content" fields) ≡ some q.text
  pub client : string_value (member "client_msg_id" fields) ≡ some q.client_id
  pub target : member "target_user_id" fields ≡ q.target_value

read_send_fields :
    (root : Option Json) {q : SendRequest} → read_send root ≡ passes q → ReadAs root q
unfolding read_send
read_send_fields root {q} e = at_root (object root) refl
  where
    at_texts :
        (fs : Fields)
        → object root ≡ some fs
        → (m k t i : Option Bytes) → string_value (member "meeting_id" fs) ≡ m
        → string_value (member "chat_type" fs) ≡ k
        → string_value (member "content" fs) ≡ t
        → string_value (member "client_msg_id" fs) ≡ i
        → ReadAs root q
    at_texts fs r none k t i a b c d = absurd (ground (arith, r, a, e))
    at_texts fs r (some m) none t i a b c d = absurd (ground (arith, r, a, b, e))
    at_texts fs r (some m) (some k) none i a b c d = absurd (ground (arith, r, a, b, c, e))
    at_texts fs r (some m) (some k) (some t) none a b c d =
        absurd (ground (arith, r, a, b, c, d, e))
    at_texts fs r (some m) (some k) (some t) (some i) a b c d = record {
      fields = fs;
      parsed = r;
      meeting = ground (arith, r, a, b, c, d, e);
      kind = ground (arith, r, a, b, c, d, e);
      content = ground (arith, r, a, b, c, d, e);
      client = ground (arith, r, a, b, c, d, e);
      target = ground (arith, r, a, b, c, d, e);
    }

    at_root : (o : Option Fields) → object root ≡ o → ReadAs root q
    at_root none r = absurd (ground (arith, r, e))
    at_root (some fs) r = at_texts fs r _ _ _ _ refl refl refl refl

is_null-null : (v : Json) → is_null v ≡ true → v ≡ null
is_null-null null e = refl
is_null-null _ e = cc

target_id-some :
    (v : Json) {t : ℕ} → target_id v ≡ some t → (n : ℕ) × (v ≡ integer (pos (suc n))) × (suc n ≡ t)
target_id-some (integer (pos zero)) e = absurd (ground (arith, e))
target_id-some (integer (pos (suc n))) e = (n, refl, ground (arith, e))
target_id-some _ e = absurd (ground (arith, e))

check_send-Addressed :
    (fs : Fields) (q : SendRequest) (c : Connection) {m uid : ℕ} {target : Option ℕ}
    → string_value (member "chat_type" fs) ≡ some q.chat_type
    → member "target_user_id" fs ≡ q.target_value
    → check_send q c ≡ passes (m, uid, target)
    → Addressed fs target × (meeting_id_text (some q.meeting_text) ≡ some m)
unfolding check_send
check_send-Addressed fs q c {m} {uid} {target} k t e = (
  go (is_group q.chat_type) (is_null q.target_value) (target_id q.target_value) refl refl refl,
  ground (arith, e),
)
  where
    private_kind : is_group q.chat_type ≡ false → q.chat_type ≡ codes "private"
    private_kind g = same_bytes-eq q.chat_type (codes "private") (ground (arith, g, e))

    go :
        (g n : Bool) (o : Option ℕ)
        → is_group q.chat_type ≡ g
        → is_null q.target_value ≡ n
        → target_id q.target_value ≡ o
        → Addressed fs target
    go true true o x y z =
        subst (λ (r : Option ℕ). Addressed fs r) (ground (arith, x, y, e))
          (to_group (k ∙ ap some (same_bytes-eq q.chat_type (codes "group") x))
            (t ∙ is_null-null q.target_value y))
    go true false o x y z = absurd (ground (arith, x, y, e))
    go false n none x y z = absurd (ground (arith, x, z, e))
    go false n (some r) x y z =
        let (i, v, same) = target_id-some q.target_value z in
        subst (λ (o : Option ℕ). Addressed fs o) (ground (arith, x, z, e, same))
          (to_user {t = i} (k ∙ ap some (private_kind x)) (t ∙ v))

pub read_send-Requested :
    (root : Option Json) (q : SendRequest) (c : Connection) {m uid : ℕ} {target : Option ℕ}
    → read_send root ≡ passes q
    → check_send q c ≡ passes (m, uid, target)
    → Requested root (new_message q m uid target)
read_send-Requested root q c r e =
    let p = read_send_fields root r in
    let (addressed, of_text) = check_send-Addressed p.fields q c p.kind p.target e in
    record {
      fields = p.fields;
      parsed = p.parsed;
      of_meeting = ap meeting_id_text p.meeting ∙ of_text;
      of_content = p.content;
      of_client = p.client;
      of_target = addressed;
    }
