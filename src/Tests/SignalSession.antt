-- ===== src/Tests/SignalSession.antt =====
-- Runs of a Session of MediaServer (MediaServer/src/net/Session.cpp).
use sync_rtc.Prelude.{◌≡◌, refl, false, List, [], ◌∷◌, ◌++◌, arith}
use sync_rtc.Media.SignalSession.{
  new_signal_session, takes, interrupted, SignalTurn, sends, stops, loops, send_turns, frame,
}
use sync_rtc.Media.SignalSession.Quota.{IsQuoted, send_turns-IsQuoted}
use sync_rtc.Media.SignalSession.Receiving.{RecvAnswer, gives, whole, receive}
use sync_rtc.Media.SignalSession.Transfer.{receive-frame}

new_signal_session-IsQuoted : IsQuoted new_signal_session
unfolding new_signal_session
new_signal_session-IsQuoted = record {
  bytes = λ e. refl;
  frames = λ e. refl;
  below = (omega arith, omega arith);
  dropped = λ e. absurd (ground (arith, e));
  works = λ e. absurd (ground (arith, e));
}

abbrev signal_turns : List SignalTurn
signal_turns =
    sends (1 ∷ (2 ∷ []))
    ∷ (loops [] ∷ (loops (takes 4 ∷ (interrupted ∷ (takes 9 ∷ []))) ∷ (sends [] ∷ (stops ∷ []))))

send_turns-IsQuoted_example : IsQuoted (send_turns new_signal_session signal_turns)
send_turns-IsQuoted_example =
    send_turns-IsQuoted new_signal_session signal_turns new_signal_session-IsQuoted

abbrev portions : List RecvAnswer
portions = gives 3 ∷ (gives 1 ∷ (gives 1 ∷ (gives 8 ∷ (gives 1 ∷ (gives 1 ∷ [])))))

receive-frame_example :
    (left : List RecvAnswer) × (receive false portions (frame (7 ∷ (8 ∷ [])) ++ 9 ∷ [])
      ≡ whole (7 ∷ (8 ∷ [])) (9 ∷ []) left)
unfolding new_signal_session
receive-frame_example =
    (receive-frame new_signal_session portions (7 ∷ (8 ∷ [])) (9 ∷ []) tt (omega arith)
        (omega arith)).0
      refl
