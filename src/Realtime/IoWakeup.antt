-- ===== src/Realtime/IoWakeup.antt =====
-- IoWakeup (RealtimeServer/src/net/IoWakeup.cpp): the tokens of connections that want the I/O
-- thread. The eventfd is not modelled: a write to it only ends the next epoll_wait.
pub mod Pending
pub mod Arrival
use sync_rtc.Prelude.{
  ℕ, suc, Bool, true, false, List, [], ◌∷◌, ◌++◌, ◌==◌, if◌then◌else◌, take, drop,
}
use sync_rtc.Prelude.Distinct.{contains}

pub record IoWakeup : Type 0 where
  pub stopping : Bool
  -- m_pending, an unordered set
  pub pending : List ℕ
  -- m_ready, oldest first
  pub ready : List ℕ

unfoldable pub erase : List ℕ → ℕ → List ℕ
erase [] t = []
erase (x ∷ xs) t = if x == t then xs else x ∷ erase xs t

abbrev pub empty : IoWakeup
empty = record { stopping = false; pending = []; ready = [] }

unfoldable pub notify : ℕ → IoWakeup → IoWakeup × Bool
unfolding contains
notify token w =
    if w.stopping
    then (w, false)
    else if contains w.pending token
    then (w, true)
    else (record w { pending = token ∷ w.pending; ready = w.ready ++ token ∷ [] }, true)

unfoldable pub erase_all : List ℕ → List ℕ → List ℕ
unfolding erase
erase_all xs [] = xs
erase_all xs (t ∷ ts) = erase_all (erase xs t) ts

abbrev pub take_batch : ℕ
take_batch = 64

-- Take: at most 64 tokens in the order of their arrival, the rest stays for the next round.
unfoldable pub take_ready : IoWakeup → IoWakeup × List ℕ
unfolding erase_all
take_ready w =
    let batch = take take_batch w.ready in
    (record w { pending = erase_all w.pending batch; ready = drop take_batch w.ready }, batch)

unfoldable pub request_stop : IoWakeup → IoWakeup
request_stop w = record w { stopping = true }

unfoldable pub close : IoWakeup → IoWakeup
close w = record { stopping = true; pending = []; ready = [] }

-- What the threads ask of it, in the order in which its mutex admits them.
pub data Request : Type 0 where
  notifies : ℕ → Request
  takes : Request
  requests_stop : Request
  closes : Request

unfoldable pub serve : IoWakeup → Request → IoWakeup
unfolding notify take_ready
serve w (notifies token) = (notify token w).0
serve w takes = (take_ready w).0
serve w requests_stop = request_stop w
serve w closes = close w

unfoldable pub serve_all : IoWakeup → List Request → IoWakeup
unfolding serve
serve_all w [] = w
serve_all w (q ∷ qs) = serve_all (serve w q) qs
