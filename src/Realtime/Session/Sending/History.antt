-- ===== src/Realtime/Session/Sending/History.antt =====
-- A connection's whole life: the bytes on the wire against the frames that Send accepted.
use sync_rtc.Prelude.{
  ℕ, ◌≡◌, refl, ap, sym, ◌∙◌, ◌⊎◌, true, false, List, [], ◌∷◌, ◌++◌, Bytes, arith, drop, inl, inr,
  append_assoc, append-nil, if◌then◌else◌,
}
use mathlib.Core.Bool.{false≢true}
use sync_rtc.Realtime.Session.{Session, Outbox, is_closed, request_close}
use sync_rtc.Realtime.Session.Sending.{
  encode, enqueue, submit, send, handle_write, close, Event, sends, writes, requests_close, closes,
  step, run,
}
use sync_rtc.Realtime.Session.Sending.Accounting.{IsCounted, step-IsCounted}
use sync_rtc.Realtime.Session.Sending.Stream.{unsent, concat, concat-append, handle_write-unsent}

-- What one event puts on the wire.
unfoldable pub emitted : Session → Event → Bytes
emitted s (writes results) = (handle_write results s.outbox).1
emitted s _ = []

-- The frame that Send took over, where it returned true.
unfoldable pub admitted : Session → Event → Bytes
admitted s (sends id payload) = if (send id payload s).1 then encode id payload else []
admitted s _ = []

unfoldable pub wire : Session → List Event → Bytes
wire s [] = []
wire s (e ∷ es) = emitted s e ++ wire (step s e) es

unfoldable pub admitted_all : Session → List Event → Bytes
admitted_all s [] = []
admitted_all s (e ∷ es) = admitted s e ++ admitted_all (step s e) es

-- A connection that is closing stays so, sends nothing and takes nothing.
pub closed_quiet :
    (s : Session) (e : Event)
    → is_closed s ≡ true
    → (emitted s e ≡ []) × (admitted s e ≡ []) × (is_closed (step s e) ≡ true)
unfolding emitted admitted step send submit handle_write request_close close
closed_quiet s (sends id payload) c = (refl, ground arith, ground arith)
closed_quiet s (writes rs) c = (ground arith, refl, ground arith)
closed_quiet s requests_close c = (refl, refl, ground arith)
closed_quiet s closes c = (refl, refl, refl)

closed_silent :
    (s : Session) (es : List Event)
    → is_closed s ≡ true
    → (wire s es ≡ []) × (admitted_all s es ≡ []) × (is_closed (run s es) ≡ true)
unfolding wire admitted_all run
closed_silent s [] c = (refl, refl, c)
closed_silent s (e ∷ es) c =
    let (w, a, c') = closed_quiet s e c in
    let (ws, as', cs) = closed_silent (step s e) es c' in (rw (w, ws), rw (a, as'), cs)

unsent-enqueue : (m : Bytes) (o : Outbox) → unsent (enqueue m o) ≡ unsent o ++ m
unfolding unsent enqueue
unsent-enqueue m o = rw (concat-append o.pending (m ∷ [])) (
    rw (append-nil m, append_assoc (drop o.send_offset (concat o.send_queue)) (concat o.pending) m))

-- One event moves bytes along the stream, or ends it.
abbrev Moves : Session → Event → Type 0
Moves s e =
    ((is_closed (step s e) ≡ true)
      × (admitted s e ≡ [])
      × ((x : Bytes) × (emitted s e ++ x ≡ unsent s.outbox)))
    ⊎ (emitted s e ++ unsent (step s e).outbox ≡ unsent s.outbox ++ admitted s e)

submit_moves :
    (m : Bytes) (s : Session)
    → ((is_closed (submit m s).0 ≡ true) × ((submit m s).1 ≡ false))
      ⊎ (((submit m s).1 ≡ true) × (unsent (submit m s).0.outbox ≡ unsent s.outbox ++ m))
unfolding submit
submit_moves m s = ground (arith, unsent-enqueue m s.outbox)

send_moves :
    (id : ℕ) (payload : Bytes) (s : Session)
    → ((is_closed (send id payload s).0 ≡ true) × ((send id payload s).1 ≡ false))
      ⊎ (unsent (send id payload s).0.outbox
          ≡ unsent s.outbox ++ (if (send id payload s).1 then encode id payload else []))
unfolding send
send_moves id payload s = elim (submit_moves (encode id payload) s) [
  | inl (c, r) ↦ ground (arith, append-nil (unsent s.outbox))
  | inr (r, u) ↦ ground (arith, append-nil (unsent s.outbox))
]

step-Moves : (s : Session) (e : Event) → IsCounted s.outbox → Moves s e
unfolding emitted admitted step request_close close
step-Moves s (sends id payload) v = elim (send_moves id payload s) [
  | inl (c, r) ↦ inl (c, rw r, (unsent s.outbox, refl))
  | inr u ↦ inr u
]
step-Moves s (writes rs) v = inr (handle_write-unsent rs s.outbox v ∙ sym (append-nil _))
step-Moves s requests_close v = inr (unfold unsent in sym (append-nil _))
step-Moves s closes v = inl (refl, refl, (unsent s.outbox, refl))

-- The same bytes, bracketed the other way.
regroup : (a b c d rest : Bytes) → a ++ b ≡ c ++ d → a ++ (b ++ rest) ≡ c ++ (d ++ rest)
regroup a b c d rest e = sym (append_assoc a b rest) ∙ ap (λ x. x ++ rest) e ∙ append_assoc c d rest

-- As long as a connection is not closing, the bytes on the wire and the bytes still queued are
-- together what was queued before and the frames that Send accepted since, in their order.
pub wire_complete :
    (s : Session) (es : List Event)
    → IsCounted s.outbox
    → is_closed (run s es) ≡ false
    → wire s es ++ unsent (run s es).outbox ≡ unsent s.outbox ++ admitted_all s es
unfolding wire admitted_all run
wire_complete s [] v c = sym (append-nil _)
wire_complete s (e ∷ es) v c = elim (step-Moves s e v) [
  | inl (shut, _, _) ↦ absurd (false≢true (sym c ∙ (closed_silent (step s e) es shut).2))
  | inr moved ↦
      append_assoc (emitted s e) (wire (step s e) es) (unsent (run (step s e) es).outbox)
      ∙ ap (λ b. emitted s e ++ b) (wire_complete (step s e) es (step-IsCounted s e v) c)
      ∙ regroup _ _ _ _ (admitted_all (step s e) es) moved
]

-- Also for a connection that was closed on the way: the bytes on the wire are a prefix of the
-- frames that Send accepted, in their order.
pub wire_prefix :
    (s : Session) (es : List Event)
    → IsCounted s.outbox
    → (rest : Bytes) × (wire s es ++ rest ≡ unsent s.outbox ++ admitted_all s es)
unfolding wire admitted_all
wire_prefix s [] v = (unsent s.outbox, sym (append-nil _))
wire_prefix s (e ∷ es) v = elim (step-Moves s e v) [
  | inl (shut, a, (x, ex)) ↦
      let (w, q, _) = closed_silent (step s e) es shut in
      (x, rw (w, q, a, append-nil (emitted s e), append-nil (unsent s.outbox)) ex)
  | inr moved ↦
      let (rest, er) = wire_prefix (step s e) es (step-IsCounted s e v) in
      (
        rest,
        append_assoc (emitted s e) (wire (step s e) es) rest
            ∙ ap (λ b. emitted s e ++ b) er
            ∙ regroup _ _ _ _ (admitted_all (step s e) es) moved,
      )
]
