-- ===== src/Realtime/IoWakeup/Arrival.antt =====
-- The order in which the I/O thread gets the tokens.
use sync_rtc.Prelude.{
  ℕ, ◌≤◌, ◌≡◌, sym, ap, ◌∙◌, Bool, true, false, ◌&&◌, ◌||◌, List, [], ◌∷◌, ◌++◌, if◌then◌else◌,
  length, length-take, take-append-drop, append_assoc, append-nil, arith,
}
use sync_rtc.Prelude.Distinct.{contains}
use sync_rtc.Realtime.IoWakeup.{
  IoWakeup, notify, take_ready, take_batch, request_stop, Request, notifies, takes, requests_stop,
  closes, serve, serve_all,
}

-- The token that a call adds to the queue, and those that a call hands out.
abbrev pub queued : IoWakeup → Request → List ℕ
queued w (notifies token) = if w.stopping || contains w.pending token then [] else token ∷ []
queued w _ = []

abbrev pub handed_out : IoWakeup → Request → List ℕ
handed_out w takes = (take_ready w).1
handed_out w _ = []

abbrev pub keeps_queue : Request → Bool
keeps_queue closes = false
keeps_queue _ = true

unfoldable pub queued_all : IoWakeup → List Request → List ℕ
queued_all w [] = []
queued_all w (q ∷ qs) = queued w q ++ queued_all (serve w q) qs

unfoldable pub handed_out_all : IoWakeup → List Request → List ℕ
handed_out_all w [] = []
handed_out_all w (q ∷ qs) = handed_out w q ++ handed_out_all (serve w q) qs

abbrev pub never_closed : List Request → Bool
never_closed [] = true
never_closed (q ∷ qs) = keeps_queue q && never_closed qs

serve_moves :
    (w : IoWakeup) (q : Request)
    → keeps_queue q ≡ true
    → handed_out w q ++ (serve w q).ready ≡ w.ready ++ queued w q
unfolding serve notify request_stop take_ready
serve_moves w (notifies token) k = ground (arith, append-nil w.ready)
serve_moves w takes k = take-append-drop take_batch w.ready ∙ sym (append-nil w.ready)
serve_moves w requests_stop k = sym (append-nil w.ready)
serve_moves w closes k = absurd (ground arith)

-- Until the object is closed, the tokens handed out and the tokens still queued are together what
-- was queued before and what was added since, in the order of arrival: none is lost, doubled or
-- overtaken.
pub arrival_order :
    (w : IoWakeup) (qs : List Request)
    → never_closed qs ≡ true
    → handed_out_all w qs ++ (serve_all w qs).ready ≡ w.ready ++ queued_all w qs
unfolding serve_all queued_all handed_out_all
arrival_order w [] k = sym (append-nil w.ready)
arrival_order w (q ∷ qs) k =
    append_assoc (handed_out w q) (handed_out_all (serve w q) qs) (serve_all (serve w q) qs).ready
    ∙ ap (λ r. handed_out w q ++ r) (arrival_order (serve w q) qs (ground arith))
    ∙ sym (append_assoc (handed_out w q) (serve w q).ready (queued_all (serve w q) qs))
    ∙ ap (λ r. r ++ queued_all (serve w q) qs) (serve_moves w q (ground arith))
    ∙ append_assoc w.ready (queued w q) (queued_all (serve w q) qs)

-- A call of Take hands out at most 64 tokens.
pub take_ready-batch : (w : IoWakeup) → length (take_ready w).1 ≤ take_batch
unfolding take_ready
take_ready-batch w = omega (arith, length-take take_batch w.ready)
