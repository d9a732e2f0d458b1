-- ===== src/Tests/Session.antt =====
-- Runs of a Session (RealtimeServer/src/net/Session.cpp).
use sync_rtc.Prelude.{
  ℕ, ◌+◌, ◌*◌, ◌-◌, ◌<◌, ◌≤◌, ◌≡◌, refl, Bool, true, false, not, Option, none, some, List, [], ◌∷◌,
  ◌++◌, ◌&&◌, ◌||◌, ◌==◌, leb, pos, if◌then◌else◌, length, Bytes, codes, arith,
}
use sync_rtc.Prelude.Json.{Json, obj, end, field, str}
use sync_rtc.Realtime.Session.{Session, new_session, set_user_id, second, is_closed}
use sync_rtc.Realtime.Session.Sending.{
  accepted, interrupted, Event, step, submit, sends, writes, closes, run, encode, handle_write,
  io_budget, send,
}
use sync_rtc.Realtime.Session.Sending.Accounting.{
  IsCounted, run-new-IsCounted, new_session-IsCounted,
}
use sync_rtc.Realtime.Session.Sending.Stream.{unsent, handle_write-unsent, handle_write-budget}
use sync_rtc.Realtime.Session.Sending.History.{
  emitted, wire, admitted_all, wire_complete, wire_prefix,
}
use sync_rtc.Realtime.Session.Heartbeats.{connection_expired, handle_heartbeat}
use sync_rtc.Realtime.Session.Heartbeats.Grace.{
  Incident, checks, beats, does, befall, befall_all, grace_is_bounded,
}
use sync_rtc.Realtime.Session.Heartbeats.Limits.{
  Renewal, handle_heartbeat-Renewal, handle_all, rate_limit,
}
use sync_rtc.Realtime.Session.Receiving.{Env, Frame, with_buffer, feed}
use sync_rtc.Realtime.Session.Receiving.Chunks.{feed_split}
use sync_rtc.Realtime.Session.Receiving.Frames.{encode_all, deliver, feed-encode_all}

abbrev fresh : Session
fresh = new_session 7 none 3 1000

abbrev hello : List Event
hello =
    sends 1001 (codes "hello")
    ∷ (writes (accepted 5 ∷ (interrupted ∷ (accepted 2 ∷ []))) ∷ (sends 1002 [] ∷ []))

abbrev after_hello : Session
after_hello = run fresh hello

-- Seven of the nine bytes of the first frame are on the wire.
hello-wire : wire fresh hello ≡ 3 ∷ (233 ∷ (0 ∷ (5 ∷ (104 ∷ (101 ∷ (108 ∷ []))))))
unfolding wire emitted run step send submit handle_write new_session encode
    sync_rtc.Realtime.Session.notify_io
hello-wire = refl

hello_left : unsent after_hello.outbox ≡ 108 ∷ (111 ∷ (3 ∷ (234 ∷ (0 ∷ (0 ∷ [])))))
unfolding unsent run step send submit handle_write new_session encode
    sync_rtc.Realtime.Session.notify_io
hello_left = refl

run-new-IsCounted_example : IsCounted after_hello.outbox
run-new-IsCounted_example = run-new-IsCounted 7 none 3 1000 hello

handle_write-unsent_example :
    (handle_write (accepted 3 ∷ []) after_hello.outbox).1
      ++ unsent (handle_write (accepted 3 ∷ []) after_hello.outbox).0
    ≡ unsent after_hello.outbox
handle_write-unsent_example =
    handle_write-unsent (accepted 3 ∷ []) after_hello.outbox (run-new-IsCounted 7 none 3 1000 hello)

handle_write-budget_example :
    length (handle_write (accepted 3 ∷ (accepted 100000 ∷ [])) after_hello.outbox).1 ≤ io_budget
handle_write-budget_example =
    handle_write-budget (accepted 3 ∷ (accepted 100000 ∷ [])) after_hello.outbox

still_open : is_closed after_hello ≡ false
unfolding run step send submit handle_write new_session encode sync_rtc.Realtime.Session.notify_io
still_open = refl

wire_complete_example :
    wire fresh hello ++ unsent (run fresh hello).outbox
    ≡ unsent fresh.outbox ++ admitted_all fresh hello
wire_complete_example = wire_complete fresh hello (new_session-IsCounted 7 none 3 1000) still_open

wire_prefix_example :
    (rest : Bytes) × (wire fresh (hello ++ closes ∷ []) ++ rest
      ≡ unsent fresh.outbox ++ admitted_all fresh (hello ++ closes ∷ []))
wire_prefix_example = wire_prefix fresh (hello ++ closes ∷ []) (new_session-IsCounted 7 none 3 1000)

-- A client of user 5 whose last heartbeat was accepted in the first second.
abbrev member_session : Session
member_session = set_user_id (pos 5) fresh

abbrev heartbeat_text : Bytes
heartbeat_text = codes "{\"seq\":\"12\"}"

-- A reader that knows one text.
abbrev read_one : Bytes → Option Json
read_one text = if length text == 12 then some (obj (field "seq" (str (codes "12")) end)) else none

abbrev after_beat : Session
after_beat = handle_heartbeat read_one second heartbeat_text member_session

beat_accepted : (after_beat.heartbeat_sequence ≡ 12) × (after_beat.last_heartbeat ≡ second)
unfolding handle_heartbeat set_user_id new_session sync_rtc.Realtime.Session.Heartbeats.read_beat
    sync_rtc.Prelude.Json.field_count sync_rtc.Prelude.Json.member
    sync_rtc.Realtime.Session.Heartbeats.accept_beat send submit encode
    sync_rtc.Realtime.Session.notify_io
beat_accepted = (refl, refl)

-- A check, a heartbeat with an old number, and a message.
abbrev silence : List Incident
silence =
    checks (26 * second) true ∷ (beats (27 * second) heartbeat_text ∷ (does (sends 1002 []) ∷ []))

grace_is_bounded_example :
    (connection_expired
      (30 * second)
      true
      (befall_all read_one silence (connection_expired (25 * second) true after_beat).0)).1
    ≡ true
unfolding befall handle_heartbeat set_user_id new_session connection_expired
    sync_rtc.Realtime.Session.Heartbeats.read_beat sync_rtc.Prelude.Json.field_count
    sync_rtc.Prelude.Json.member sync_rtc.Realtime.Session.Heartbeats.apply_beat send submit encode
    sync_rtc.Realtime.Session.notify_io sync_rtc.Realtime.Session.Heartbeats.accept_beat
grace_is_bounded_example =
    grace_is_bounded read_one after_beat (25 * second) silence (30 * second) true refl refl
      (refl, tt) (omega arith)

handle_heartbeat-Renewal_example : Renewal second member_session after_beat
handle_heartbeat-Renewal_example =
    handle_heartbeat-Renewal read_one second heartbeat_text member_session

abbrev flood : List (ℕ × Bytes)
flood =
    (10, codes "{}")
    ∷ ((20, codes "{}") ∷ ((30, []) ∷ ((40, codes "{}") ∷ ((50, codes "{}") ∷ []))))

rate_limit_example : is_closed (handle_all read_one flood member_session) ≡ true
unfolding set_user_id new_session
rate_limit_example =
    rate_limit read_one flood member_session
      (omega arith, (omega arith, (omega arith, (omega arith, (omega arith, tt))))) (omega arith)
      (omega arith)

-- A LogicSystem that keeps what is posted and refuses beyond two frames.
abbrev log_env : Env
log_env = record {
  Logic = List Frame;
  post = λ frame l. if leb 2 (length l) then (l, false) else (l ++ frame ∷ [], true);
  read_clock = λ l. (l, 5);
  read_json = read_one;
}

abbrev first_frame : Frame
first_frame = record { request_id = 1001; payload = codes "hi" }

abbrev second_frame : Frame
second_frame = record { request_id = 1002; payload = [] }

abbrev both_frames : Bytes
both_frames = 3 ∷ (233 ∷ (0 ∷ (2 ∷ (104 ∷ (105 ∷ (3 ∷ (234 ∷ (0 ∷ (0 ∷ [])))))))))

both_posted : (feed log_env both_frames fresh []).1 ≡ first_frame ∷ (second_frame ∷ [])
unfolding feed new_session sync_rtc.Wire.read16
both_posted = refl

feed_split_example :
    feed log_env
      (6 ∷ both_frames)
      (feed log_env (3 ∷ (233 ∷ (0 ∷ []))) fresh []).0
      (feed log_env (3 ∷ (233 ∷ (0 ∷ []))) fresh []).1
    ≡ feed log_env ((3 ∷ (233 ∷ (0 ∷ []))) ++ 6 ∷ both_frames) fresh []
unfolding feed new_session
feed_split_example = feed_split log_env (3 ∷ (233 ∷ (0 ∷ []))) (6 ∷ both_frames) fresh [] refl

feed-encode_all_example :
    feed log_env (encode_all (first_frame ∷ (second_frame ∷ [])) ++ (3 ∷ [])) fresh [] ≡ (
      with_buffer (3 ∷ []) (deliver log_env (first_frame ∷ (second_frame ∷ [])) fresh []).0,
      (deliver log_env (first_frame ∷ (second_frame ∷ [])) fresh []).1,
    )
unfolding new_session
feed-encode_all_example =
    feed-encode_all log_env (first_frame ∷ (second_frame ∷ [])) (3 ∷ []) fresh [] refl
      (
        record { external = omega arith; business = λ e. omega arith; fits = omega arith },
        (record { external = omega arith; business = λ e. omega arith; fits = omega arith }, tt),
      )
      (omega arith)
