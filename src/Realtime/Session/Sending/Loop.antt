-- ===== src/Realtime/Session/Sending/Loop.antt =====
-- The rule for the loop of HandleWrite: what holds where the loop stops, and is kept by a chunk
-- that the kernel takes, holds of the whole run.
use sync_rtc.Prelude.{
  ℕ, zero, suc, ◌+◌, ◌-◌, ◌≤◌, ◌≡◌, refl, Bool, true, false, List, [], ◌∷◌, length, is_empty,
  if◌then◌else◌, Bytes, arith, inl, inr, Bool-cases, take, drop, min, leb,
}
use sync_rtc.Realtime.Session.{Outbox}
use sync_rtc.Realtime.Session.Sending.{
  io_budget, SendResult, accepted, interrupted, would_block, failed, advance, take_chunk,
  write_front, write_loop, refill, Written, after_chunk,
}

module _ {ℓ} (R : ℕ → Outbox → Written → Type ℓ)
    (stop : (written : ℕ) (o : Outbox) (alive : Bool) → R written o (o, [], alive))
    (chunk : (written : ℕ) (o : Outbox) (message : Bytes) (rest : List Bytes) (c : ℕ)
        (res : Written)
      → o.send_queue ≡ message ∷ rest
      → written + suc c ≤ io_budget
      → suc c ≤ length message - o.send_offset
      → R (written + suc c) (advance message rest (suc c) o) res
      → R written o (after_chunk (take (suc c) (drop o.send_offset message)) res)) where
  take_chunk_rule :
      (count written : ℕ) (o : Outbox) (message : Bytes) (rest : List Bytes)
      (again : ℕ → Outbox → Written)
      → o.send_queue ≡ message ∷ rest
      → written + count ≤ io_budget
      → count ≤ length message - o.send_offset
      → ((w : ℕ) (p : Outbox) → R w p (again w p))
      → R written o (take_chunk count message rest written o again)
  unfolding take_chunk
  take_chunk_rule zero written o message rest again e a b ih = stop written o false
  take_chunk_rule (suc c) written o message rest again e a b ih =
      chunk written o message rest c _ e a b (ih _ _)

  write_front_rule :
      (q : List Bytes) (r : SendResult) (written : ℕ) (o : Outbox) (again : ℕ → Outbox → Written)
      → o.send_queue ≡ q
      → ((w : ℕ) (p : Outbox) → R w p (again w p))
      → R written o (write_front q r written o again)
  unfolding write_front
  write_front_rule [] r written o again e ih = stop written o true
  write_front_rule (message ∷ rest) r written o again e ih =
      elim (Bool-cases (leb io_budget written)) [
        | inl t ↦ rw t (stop written o true)
        | inr t ↦ rw t (go r t)
      ]
    where
      go :
          (r' : SendResult)
          → leb io_budget written ≡ false
          → R written o (elim r' [
            | accepted n ↦
                take_chunk
                  (min n (min (io_budget - written) (length message - o.send_offset)))
                  message
                  rest
                  written
                  o
                  again
            | interrupted ↦ again written o
            | would_block ↦ (o, [], true)
            | failed ↦ (o, [], false)
          ])
      go (accepted n) t =
          take_chunk_rule _ written o message rest again e (ground arith) (omega arith) ih
      go interrupted t = ih written o
      go would_block t = stop written o true
      go failed t = stop written o false

  pub write_loop_rule :
      (rs : List SendResult) (written : ℕ) (o : Outbox) → R written o (write_loop rs written o)
  unfolding write_loop
  write_loop_rule [] written o = stop written o true
  write_loop_rule (r ∷ rs) written o =
      write_front_rule o.send_queue r written o (write_loop rs) refl (write_loop_rule rs)

refill_case {ℓ} :
    (P : Outbox → Type ℓ) (o : Outbox) (q : List Bytes)
    → o.send_queue ≡ q
    → (o.send_queue ≡ [] → P (record o { send_queue = o.pending; pending = [] }))
    → P o
    → P (if is_empty q then record o { send_queue = o.pending; pending = [] } else o)
refill_case P o [] e swapped kept = swapped e
refill_case P o (m ∷ ms) e swapped kept = kept

pub refill_rule {ℓ} :
    (P : Outbox → Type ℓ) (o : Outbox)
    → (o.send_queue ≡ [] → P (record o { send_queue = o.pending; pending = [] }))
    → P o
    → P (refill o)
unfolding refill
refill_rule P o swapped kept = refill_case P o o.send_queue refl swapped kept
