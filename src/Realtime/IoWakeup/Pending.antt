-- ===== src/Realtime/IoWakeup/Pending.antt =====
-- The set of waiting tokens against the queue of ready ones.
use sync_rtc.Prelude.{
  ℕ, ◌≡◌, refl, sym, ap, ◌∙◌, not, ◌&&◌, List, [], ◌∷◌, ◌++◌, ◌==◌, take, drop, take-append-drop,
  arith,
}
use sync_rtc.Realtime.IoWakeup.{
  IoWakeup, erase, erase_all, notify, take_ready, take_batch, request_stop, close, Request,
  notifies, takes, requests_stop, closes, serve, serve_all,
}
use sync_rtc.Prelude.Distinct.{contains, Distinct, contains-append, Distinct-append}

contains-erase :
    (xs : List ℕ) (t u : ℕ)
    → Distinct xs
    → contains (erase xs t) u ≡ (contains xs u && not (t == u))
unfolding contains erase
contains-erase [] t u d = refl
contains-erase (x ∷ xs) t u d = ground (arith, contains-erase xs t u d.1)

Distinct-erase : (xs : List ℕ) (t : ℕ) → Distinct xs → Distinct (erase xs t)
unfolding contains erase
Distinct-erase [] t d = tt
Distinct-erase (x ∷ xs) t d = ground (arith, Distinct-erase xs t d.1, contains-erase xs t x d.1)

contains-erase_all :
    (ts xs : List ℕ) (u : ℕ)
    → Distinct xs
    → Distinct (erase_all xs ts)
      × (contains (erase_all xs ts) u ≡ (contains xs u && not (contains ts u)))
unfolding contains erase_all
contains-erase_all [] xs u d = (d, ground arith)
contains-erase_all (t ∷ ts) xs u d =
    ground
      (arith, contains-erase_all ts (erase xs t) u (Distinct-erase xs t d), contains-erase xs t u d)

-- The two halves of a list of distinct tokens.
Distinct-halves :
    (xs ys : List ℕ) (u : ℕ)
    → Distinct (xs ++ ys)
    → Distinct ys × (contains ys u ≡ (contains (xs ++ ys) u && not (contains xs u)))
unfolding contains
Distinct-halves [] ys u d = (d, ground arith)
Distinct-halves (x ∷ xs) ys u d =
    ground (arith, Distinct-halves xs ys u d.1, contains-append xs ys x, contains-append xs ys u)

pub record IsSynced (w : IoWakeup) : Type 0 where
  pub once : Distinct w.ready
  pub set : Distinct w.pending
  pub same : (t : ℕ) → contains w.pending t ≡ contains w.ready t

notify-IsSynced : (token : ℕ) (w : IoWakeup) → IsSynced w → IsSynced (notify token w).0
unfolding notify contains
notify-IsSynced token w v = record {
  once = ground (arith, v.once, v.same token, Distinct-append w.ready token v.once);
  set = ground (arith, v.set);
  same = λ t. ground (arith, v.same t, contains-append w.ready (token ∷ []) t);
}

take_ready-IsSynced : (w : IoWakeup) → IsSynced w → IsSynced (take_ready w).0
unfolding take_ready
take_ready-IsSynced w v = record {
  once = (halves 0).0;
  set = (contains-erase_all batch w.pending 0 v.set).0;
  same = λ t.
      (contains-erase_all batch w.pending t v.set).1
      ∙ ap (λ b. b && not (contains batch t)) (v.same t ∙ sym (ap (λ r. contains r t) whole))
      ∙ sym (halves t).1;
}
  where
    batch : List ℕ
    batch = take take_batch w.ready

    whole : batch ++ drop take_batch w.ready ≡ w.ready
    whole = take-append-drop take_batch w.ready

    halves :
        (t : ℕ)
        → Distinct (drop take_batch w.ready)
          × (contains (drop take_batch w.ready) t
              ≡ (contains (batch ++ drop take_batch w.ready) t && not (contains batch t)))
    halves t = Distinct-halves batch (drop take_batch w.ready) t (rw whole v.once)

serve-IsSynced : (w : IoWakeup) (q : Request) → IsSynced w → IsSynced (serve w q)
unfolding serve request_stop close
serve-IsSynced w (notifies token) v = notify-IsSynced token w v
serve-IsSynced w takes v = take_ready-IsSynced w v
serve-IsSynced w requests_stop v = record { once = v.once; set = v.set; same = v.same }
serve-IsSynced w closes v = record { once = tt; set = tt; same = λ t. refl }

-- However the threads interleave their calls, the queue holds every token at most once, and the
-- set holds exactly the tokens of the queue.
pub serve_all-IsSynced : (w : IoWakeup) (qs : List Request) → IsSynced w → IsSynced (serve_all w qs)
unfolding serve_all
serve_all-IsSynced w [] v = v
serve_all-IsSynced w (q ∷ qs) v = serve_all-IsSynced (serve w q) qs (serve-IsSynced w q v)
