-- ===== src/Realtime/MediaSignals/Epochs.antt =====
-- Which connection to MediaServer a negotiation belongs to.
use sync_rtc.Prelude.{ℕ, ◌≤◌, ◌<◌, ◌≡◌, Bool, false, some, List, [], ◌∷◌, arith}
use sync_rtc.Prelude.Assoc.{lookup, lookup-assign, lookup-erase}
use sync_rtc.Realtime.MediaSignals.{
  Signal, MediaSignals, signal_id_of, released_session, message, up, down, new_epoch,
  accept_media_event, SignalCall, registers, removes, sets, releases, events, signal_call,
  signal_calls,
}

-- Every negotiation in the table is of the current epoch.
abbrev pub AllCurrent : MediaSignals → Type 0
AllCurrent t = (id : ℕ) (s : Signal) → lookup id t.signals ≡ some s → s.epoch ≡ t.media_epoch

-- What one call leaves: a table of the current epoch, which is no earlier one.
pub record Advances (t t' : MediaSignals) : Type 0 where
  pub current : AllCurrent t'
  pub later : t.media_epoch ≤ t'.media_epoch

new_epoch-Advances :
    (epoch : ℕ) (t : MediaSignals) → t.media_epoch ≤ epoch → Advances t (new_epoch epoch t)
unfolding lookup
new_epoch-Advances epoch t h = record { current = λ id s e. absurd (ground (arith, e)); later = h }

same-Advances : (t : MediaSignals) → AllCurrent t → Advances t t
same-Advances t v = record { current = v; later = omega arith }

call-Advances : (c : SignalCall) (t : MediaSignals) → AllCurrent t → Advances t (signal_call c t)
unfolding signal_call
call-Advances (registers id session meeting) t v = record {
  current = λ k s e. ground (
    arith,
    e,
    v k s,
    lookup-assign id k (record { session = session; meeting = meeting; epoch = t.media_epoch })
        t.signals,
  );
  later = omega arith;
}
call-Advances (removes id) t v = record {
  current = λ k s e. ground (arith, e, v k s, lookup-erase id k t.signals);
  later = omega arith;
}
call-Advances (sets session id) t v = record { current = v; later = omega arith }
call-Advances (releases session) t v = go (signal_id_of (lookup session t.signal_ids))
  where
    go : (id : ℕ) → Advances t (released_session session id t).0
    go id = record {
      current = λ k s e. ground (arith, e, v k s, lookup-erase id k t.signals);
      later = ground arith;
    }
call-Advances (events message epoch is_current) t v = same-Advances t v
call-Advances (events up epoch is_current) t v =
    ground (arith, same-Advances t v, new_epoch-Advances epoch t)
call-Advances (events down epoch is_current) t v =
    ground (arith, same-Advances t v, new_epoch-Advances epoch t)

-- Whatever handlers and media events do, the epoch never goes back and every negotiation in the
-- table is of the current one.
pub signal_calls-Advances :
    (cs : List SignalCall) (t : MediaSignals) → AllCurrent t → Advances t (signal_calls cs t)
unfolding signal_calls
signal_calls-Advances [] t v = same-Advances t v
signal_calls-Advances (c ∷ cs) t v =
    let a = call-Advances c t v in
    let b = signal_calls-Advances cs (signal_call c t) a.current in
    record { current = b.current; later = omega (arith, a.later, b.later) }

-- A message or a negotiation of an earlier connection is never taken for one of the present: once
-- the table has seen a later epoch, a message of the earlier one is refused, whatever happens.
pub stale_message :
    (cs : List SignalCall) (t : MediaSignals) (epoch : ℕ) (is_current : Bool)
    → AllCurrent t
    → epoch < t.media_epoch
    → (accept_media_event message epoch is_current (signal_calls cs t)).1 ≡ false
unfolding accept_media_event
stale_message cs t epoch is_current v old =
    let a = signal_calls-Advances cs t v in
    let l : t.media_epoch ≤ (signal_calls cs t).media_epoch = a.later in ground (arith, l, old)
