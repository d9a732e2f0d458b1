-- ===== src/Realtime/Session/Sending/Stream.antt =====
-- The bytes on the wire: whatever the kernel takes at a time, they are the frames in order.
use sync_rtc.Prelude.{
  ℕ, suc, ◌+◌, ◌-◌, ◌≤◌, ◌<◌, ◌≡◌, refl, ap, subst, ◌∙◌, List, [], ◌∷◌, ◌++◌, length, length-append,
  Bytes, arith, inl, inr, Bool-cases, take, drop, take-append-drop, length-take, ◌||◌,
  drop-append_le, drop-drop, drop_past, drop-nil, ◌==◌, append_assoc, append-nil,
}
use sync_rtc.Realtime.Session.{Outbox}
use sync_rtc.Realtime.Session.Sending.{
  SendResult, advance, write_loop, refill, handle_write, io_budget,
}
use sync_rtc.Realtime.Session.Sending.Loop.{write_loop_rule, refill_rule}
use sync_rtc.Realtime.Session.Sending.Accounting.{
  IsCounted, OffsetWithin, advance-IsCounted, refill-IsCounted,
}

abbrev pub concat : List Bytes → Bytes
concat [] = []
concat (m ∷ ms) = m ++ concat ms

pub concat-append : (ms ns : List Bytes) → concat (ms ++ ns) ≡ concat ms ++ concat ns
concat-append [] ns = refl
concat-append (m ∷ ms) ns = rw (concat-append ms ns, append_assoc)

-- The bytes that are queued and not yet taken by the kernel.
unfoldable pub unsent : Outbox → Bytes
unsent o = drop o.send_offset (concat o.send_queue) ++ concat o.pending

-- The kernel's chunk and what is left of the frame.
cut_frame :
    (offset count : ℕ) (m x : Bytes)
    → offset + count ≤ length m
    → take count (drop offset m) ++ (drop (offset + count) m ++ x) ≡ drop offset (m ++ x)
cut_frame offset count m x h = rw (
  drop-append_le offset m x (omega arith),
  ← drop-drop count offset m,
  ← append_assoc (take count (drop offset m)) (drop count (drop offset m)) x,
  take-append-drop count (drop offset m),
)

-- A whole frame is gone.
cut_last :
    (offset count : ℕ) (m x : Bytes)
    → offset + count ≡ length m
    → take count (drop offset m) ++ x ≡ drop offset (m ++ x)
cut_last offset count m x e =
    let gone : drop (offset + count) m ≡ [] = drop_past (offset + count) m (omega arith) in
    rw gone at (cut_frame offset count m x (omega arith))

unsent-advance :
    (message : Bytes) (rest : List Bytes) (count : ℕ) (o : Outbox)
    → o.send_queue ≡ message ∷ rest
    → count ≤ length message - o.send_offset
    → o.send_offset < length message
    → take count (drop o.send_offset message) ++ unsent (advance message rest count o) ≡ unsent o
unfolding unsent advance
unsent-advance message rest count o e h w =
    let off = o.send_offset in
    let shown : drop off (concat o.send_queue) ≡ drop off (message ++ concat rest) =
      ap (λ q. drop off (concat q)) e in
    elim (Bool-cases (off + count == length message)) [
      | inl t ↦ rw t (
          cc (
            shown,
            cut_last off count message (concat rest) (ground arith),
            append_assoc (take count (drop off message)) (concat rest) (concat o.pending),
          ))
      | inr t ↦ rw t (
          cc (
            shown,
            cut_frame off count message (concat rest) (omega arith),
            drop-append_le (off + count) message (concat rest) (omega arith),
            append_assoc (take count (drop off message)) (drop (off + count) (concat o.send_queue))
                (concat o.pending),
          ))
    ]

unsent-refill : (o : Outbox) → IsCounted o → unsent (refill o) ≡ unsent o
unfolding unsent
unsent-refill o v =
    refill_rule (λ p. unsent p ≡ unsent o) o
      (λ e.
        let z : o.send_offset ≡ 0 = subst (λ q. OffsetWithin q o.send_offset) e v.offset_within in
        cc (
          ap (λ k. drop k (concat o.pending)) z,
          append-nil (concat o.pending),
          ap (λ q. drop o.send_offset (concat q)) e,
          drop-nil {A = ℕ} o.send_offset,
        ))
      refl

write_loop-unsent :
    (rs : List SendResult) (written : ℕ) (o : Outbox)
    → IsCounted o
    → (write_loop rs written o).1 ++ unsent (write_loop rs written o).0 ≡ unsent o
write_loop-unsent =
    write_loop_rule (λ _ p res. IsCounted p → res.1 ++ unsent res.0 ≡ unsent p) (λ _ _ _ _. refl)
      λ _ p message rest c res e _ h keep v.
        let within : OffsetWithin (message ∷ rest) p.send_offset =
          subst (λ q. OffsetWithin q p.send_offset) e v.offset_within in
        let out : Bytes = take (suc c) (drop p.send_offset message) in
        append_assoc out res.1 (unsent res.0)
        ∙ ap (λ b. out ++ b) (keep (advance-IsCounted message rest (suc c) p v e h))
        ∙ unsent-advance message rest (suc c) p e h within

-- One call of HandleWrite hands the kernel the front of what is queued, byte for byte, and keeps
-- the rest, whatever portions the kernel takes and however the call ends.
pub handle_write-unsent :
    (rs : List SendResult) (o : Outbox)
    → IsCounted o
    → (handle_write rs o).1 ++ unsent (handle_write rs o).0 ≡ unsent o
unfolding handle_write
handle_write-unsent rs o v = elim (Bool-cases (o.closed || o.close_requested)) [
  | inl t ↦ rw t
  | inr t ↦ rw t (write_loop-unsent rs 0 (refill o) (refill-IsCounted o v) ∙ unsent-refill o v)
]

write_loop-budget :
    (rs : List SendResult) (written : ℕ) (o : Outbox)
    → length (write_loop rs written o).1 ≤ io_budget - written
write_loop-budget =
    write_loop_rule (λ written _ res. length res.1 ≤ io_budget - written) (λ _ _ _. omega arith)
      λ written p message rest c res e b h keep. omega (
        arith,
        length-append (take (suc c) (drop p.send_offset message)) res.1,
        length-take (suc c) (drop p.send_offset message),
      )

-- A round of the I/O loop gives one connection at most 64 KiB.
pub handle_write-budget :
    (rs : List SendResult) (o : Outbox) → length (handle_write rs o).1 ≤ io_budget
unfolding handle_write
handle_write-budget rs o = ground (arith, write_loop-budget rs 0 (refill o))
