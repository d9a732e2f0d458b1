-- ===== src/Realtime/Meetings/Signalling/Routing.antt =====
-- The way of an offer to MediaServer, and of what it answers back to the session.
use sync_rtc.Prelude.{
  ℕ, ◌≡◌, ◌≢◌, refl, ap, subst, ◌∙◌, zero, suc, Bool, true, false, Option, some, [], ◌∷◌, arith,
  Bytes, codes,
}
use sync_rtc.Prelude.Json.{Json, Fields}
use sync_rtc.Prelude.Assoc.{Assoc, lookup, lookup-assign}
use sync_rtc.Realtime.MediaSignals.{
  Signal, MediaSignals, register_signal, find_signal, remove_signal, set_signal_id, signal_id_of,
}
use sync_rtc.Realtime.Meetings.{Connection, Checked, passes, fails, object}
use sync_rtc.Realtime.Meetings.Signalling.{
  MediaRequest, read_description, MediaAnswers, check_media, Signalling, drop_previous, open_signal,
  offer_request, opened, offering, media_offer, response_content, to_session, response_id,
  media_response, respond, respond_for, route_signal, admitted_offer,
}

registered :
    (s m id : ℕ) (t : MediaSignals)
    → (find_signal id (register_signal id s m (set_signal_id s id t)).0
        ≡ some (record { session = s; meeting = m; epoch = t.media_epoch }))
      × (signal_id_of (lookup s (register_signal id s m (set_signal_id s id t)).0.signal_ids) ≡ id)
      × ((register_signal id s m (set_signal_id s id t)).0.media_epoch ≡ t.media_epoch)
unfolding find_signal register_signal set_signal_id
registered s m id t = (
  ground (
    arith,
    lookup-assign id id (record { session = s; meeting = m; epoch = t.media_epoch }) t.signals,
  ),
  ground (arith, lookup-assign s s id t.signal_ids),
  refl,
)

drop_epoch : (id : ℕ) (t : MediaSignals) → (drop_previous id t).media_epoch ≡ t.media_epoch
unfolding remove_signal
drop_epoch zero t = refl
drop_epoch (suc n) t = refl

-- The session s and the negotiation of an offer, in a table
abbrev Knows : ℕ → ℕ → MediaRequest → MediaSignals → Type 0
Knows s m r t =
    (find_signal r.signal_id t ≡ some (record { session = s; meeting = m; epoch = r.epoch }))
    × (signal_id_of (lookup s t.signal_ids) ≡ r.signal_id)
    × (t.media_epoch ≡ r.epoch)

-- The table after an offer has the negotiation, and the session knows it.
open_signal-Knows :
    (s m uid : ℕ) (sdp : Bytes) (g : Signalling)
    → Knows s m (offer_request s m uid sdp g) (open_signal s m g)
unfolding open_signal offer_request
open_signal-Knows s m uid sdp g =
    let cleared = drop_previous (signal_id_of (lookup s g.table.signal_ids)) g.table in
    let (f, i, e) = registered s m g.next_id cleared in
    let same = drop_epoch (signal_id_of (lookup s g.table.signal_ids)) g.table in
    (f ∙ ap (λ (k : ℕ). some (record { session = s; meeting = m; epoch = k })) same, i, e ∙ same)

offer_request_meeting :
    (s m uid : ℕ) (sdp : Bytes) (g : Signalling) → (offer_request s m uid sdp g).meeting_id ≡ m
unfolding offer_request
offer_request_meeting s m uid sdp g = refl

opened-Knows :
    (b : Bool) (s m uid : ℕ) (sdp : Bytes) (g : Signalling) (r : MediaRequest)
    → (opened b s m uid sdp g).requests ≡ r ∷ []
    → Knows s r.meeting_id r (opened b s m uid sdp g).after.table
unfolding offer_request
opened-Knows true s m uid sdp g r e =
    let same : offer_request s m uid sdp g ≡ r = cc in
    subst (λ (q : MediaRequest). Knows s q.meeting_id q (open_signal s m g)) same
      (open_signal-Knows s m uid sdp g)
opened-Knows false s m uid sdp g r e = absurd (ground (arith, e))

offering-Knows :
    (s : ℕ) (c : Connection) (a : MediaAnswers) (g : Signalling) (o : Checked (ℕ × Bytes))
    (r : MediaRequest)
    → (offering s c a g o).requests ≡ r ∷ []
    → Knows s r.meeting_id r (offering s c a g o).after.table
offering-Knows s c a g (fails e) r h = absurd (ground (arith, h))
offering-Knows s c a g (passes (m, sdp)) r h = go (check_media m a c) h
  where
    go :
        (o : Checked ℕ)
        → (admitted_offer s a.sent m sdp g o).requests ≡ r ∷ []
        → Knows s r.meeting_id r (admitted_offer s a.sent m sdp g o).after.table
    go (fails e) h = absurd (ground (arith, h))
    go (passes uid) h = opened-Knows a.sent s m uid sdp g r h

Knows-media_response :
    (s : ℕ) (d : Connection) (r : MediaRequest) (back : Option Json) (fields : Fields)
    (cs : Assoc Connection) (closed : ℕ → Bool) (t : MediaSignals)
    → Knows s r.meeting_id r t
    → r.epoch ≢ 0
    → object back ≡ some fields
    → response_id fields ≡ some r.signal_id
    → lookup s cs ≡ some d
    → closed s ≡ false
    → d.meeting_id ≡ r.meeting_id
    → media_response back r.meeting_id cs closed true t
      ≡ (t, to_session s (response_content fields))
unfolding media_response
Knows-media_response s d r back fields cs closed t (f, j, e) n o i l k m =
    ap (λ (x : Option Fields). respond x r.meeting_id cs closed true t) o
    ∙ ap (λ (x : Option ℕ). respond_for x fields r.meeting_id cs closed true t) i
    ∙ ap
        (λ (x : Option Signal).
          route_signal r.meeting_id r.signal_id x cs closed true (response_content fields) t)
        f
    ∙ routed
  where
    routed :
        route_signal r.meeting_id r.signal_id
          (some (record { session = s; meeting = r.meeting_id; epoch = r.epoch }))
          cs
          closed
          true
          (response_content fields)
          t
        ≡ (t, to_session s (response_content fields))
    routed = ground (arith, e, n, l, k, m, j)

-- While nothing else changes the table: when an offer of a session has gone out to MediaServer, on a
-- connection with an epoch other than 0, then a message of MediaServer with the signal_id of the
-- request goes, in the room of the meeting of the request, to that session and to no other, if the
-- session is there, is not closed and is in that meeting and the connection is the present one; and
-- the table stays.
pub media_offer-media_response :
    (root : Option Json) (a : MediaAnswers) (s : ℕ) (c d : Connection) (g : Signalling)
    (back : Option Json) (fields : Fields) (cs : Assoc Connection) (closed : ℕ → Bool)
    {r : MediaRequest}
    → (media_offer root a s c g).requests ≡ r ∷ []
    → r.epoch ≢ 0
    → object back ≡ some fields
    → response_id fields ≡ some r.signal_id
    → lookup s cs ≡ some d
    → closed s ≡ false
    → d.meeting_id ≡ r.meeting_id
    → media_response back r.meeting_id cs closed true (media_offer root a s c g).after.table
      ≡ ((media_offer root a s c g).after.table, to_session s (response_content fields))
unfolding media_offer
media_offer-media_response root a s c d g back fields cs closed {r} h n o i l k m =
    Knows-media_response s d r back fields cs closed (media_offer root a s c g).after.table
      (offering-Knows s c a g (read_description (codes "offer") root) r h) n o i l k m
