-- ===== src/Media/SignalSession/Transfer.antt =====
-- A frame that one Session sends is the payload that another receives.
use sync_rtc.Prelude.{
  ℕ, zero, suc, ◌+◌, ◌-◌, ◌/◌, ◌%◌, ◌^◌, ◌≤◌, ◌<◌, ◌≡◌, refl, ap, subst, ◌∙◌, min, true, false,
  some, List, [], ◌∷◌, ◌++◌, append_assoc, length, length-append, length-drop, take, drop,
  take-append-drop, take-length, drop-length, drop-drop, Bytes, arith,
}
use sync_rtc.Wire.{write32, read32, read32_write}
use sync_rtc.Media.SignalSession.{SignalSession, SendAnswer, takes, frame, send_all}
use sync_rtc.Media.SignalSession.Receiving.{
  RecvAnswer, gives, interrupted, fails, Received, whole, broken, prepend, recv_chunk, receive_all,
  receive,
}

-- Answers that hand out at least a byte each.
abbrev pub AllGive : List RecvAnswer → Type 0
AllGive [] = Unit {0}
AllGive (gives zero ∷ rs) = ⊥
AllGive (gives (suc k) ∷ rs) = AllGive rs
AllGive (interrupted ∷ rs) = ⊥
AllGive (fails ∷ rs) = ⊥

-- The whole of the first n bytes, after some of the answers.
abbrev Reads : List RecvAnswer → ℕ → Bytes → Received → Type 0
Reads rs n stream r =
    (left : List RecvAnswer) × (r ≡ whole (take n stream) (drop n stream) left)
    × AllGive left
    × (length rs ≤ n + length left)

take-nil : (n : ℕ) → take {A = ℕ} n [] ≡ []
take-nil zero = refl
take-nil (suc n) = refl

-- Two portions taken one after the other are one.
take_more : (c k : ℕ) (xs : Bytes) → take c xs ++ take k (drop c xs) ≡ take (c + k) xs
take_more zero k xs = let e : 0 + k ≡ k = omega arith in rw e refl
take_more (suc c) k [] = let e : suc c + k ≡ suc (c + k) = omega arith in rw (e, take-nil k) refl
take_more (suc c) k (x ∷ xs) =
    let e : suc c + k ≡ suc (c + k) = omega arith in rw e (ap (λ l. x ∷ l) (take_more c k xs))

prepend-Reads :
    (c k : ℕ) (a : RecvAnswer) (rs : List RecvAnswer) (stream : Bytes) (r : Received)
    → Reads rs k (drop (suc c) stream) r
    → Reads (a ∷ rs) (suc c + k) stream (prepend (take (suc c) stream) r)
prepend-Reads c k a rs stream r (left, e, g, l) =
    (left, rw e (rw (take_more (suc c) k stream, drop-drop k (suc c) stream) refl), g, omega arith)

receive_all-Reads :
    (rs : List RecvAnswer) (n : ℕ) (stream : Bytes)
    → AllGive rs
    → n ≤ length rs
    → n ≤ length stream
    → Reads rs n stream (receive_all rs n stream)
unfolding receive_all
receive_all-Reads rs zero stream g h l = (rs, refl, g, omega arith)
receive_all-Reads [] (suc n) stream g h l = absurd (omega arith)
receive_all-Reads (gives (suc k) ∷ rs) (suc n) stream g h l =
    go (min (suc k) (min (suc n) (length stream))) refl (λ c b.
      receive_all-Reads rs (suc n - suc c) (drop (suc c) stream) g (omega arith)
        (omega (arith, length-drop (suc c) stream)))
  where
    go :
        (count : ℕ)
        → min (suc k) (min (suc n) (length stream)) ≡ count
        → ((c : ℕ)
            → suc c ≤ suc n
            → Reads rs
                (suc n - suc c)
                (drop (suc c) stream)
                (receive_all rs (suc n - suc c) (drop (suc c) stream)))
        → Reads
            (gives (suc k) ∷ rs)
            (suc n)
            stream
            (recv_chunk count stream (λ count rest. receive_all rs (suc n - count) rest))
    go zero e ih = absurd (omega arith)
    go (suc c) e ih =
        let b : suc c ≤ suc n = omega arith in
        let whole_count : suc c + (suc n - suc c) ≡ suc n = omega arith in
        subst
          (λ j.
            Reads (gives (suc k) ∷ rs) j stream (
              prepend (take (suc c) stream) (receive_all rs (suc n - suc c) (drop (suc c) stream))))
          whole_count (prepend-Reads c (suc n - suc c) (gives (suc k)) rs stream _ (ih c b))
receive_all-Reads _ (suc n) stream g h l = absurd g

-- Receive of a Session that works.
working :
    (rs : List RecvAnswer) (payload rest : Bytes)
    → AllGive rs
    → length payload < 2 ^ 32
    → length payload + 4 ≤ length rs
    → (left : List RecvAnswer) × (receive false rs (frame payload ++ rest)
        ≡ whole payload rest left)
unfolding receive frame write32 read32
working rs payload rest g small enough =
    let (left, e, g', l) =
      receive_all-Reads rs 4 (frame payload ++ rest) g (omega arith) (omega arith) in
    let len : read32 (length payload / 2 ^ 24 % 256) (length payload / 2 ^ 16 % 256)
          (length payload / 2 ^ 8 % 256) (length payload % 256)
        ≡ length payload =
      read32_write (length payload) small in
    let (left', e', _, _) =
      receive_all-Reads left (length payload) (payload ++ rest) g' (omega arith)
        (omega (arith, length-append payload rest)) in
    (left', rw (e, len, e') (rw (take-length payload rest, drop-length payload rest) refl))

-- Receive, on a Session that is not stopped when it is called, returns the payload that the peer
-- framed, and leaves what follows it, however the kernel cuts the stream, provided it hands out at
-- least a byte each time; on a stopped Session it returns none.
pub receive-frame :
    (s : SignalSession) (rs : List RecvAnswer) (payload rest : Bytes)
    → AllGive rs
    → length payload < 2 ^ 32
    → length payload + 4 ≤ length rs
    → (s.stopping ≡ false
        → (left : List RecvAnswer) × (receive s.stopping rs (frame payload ++ rest)
            ≡ whole payload rest left))
      × (s.stopping ≡ true → receive s.stopping rs (frame payload ++ rest) ≡ broken)
unfolding receive
receive-frame s rs payload rest g small enough = (
  λ e.
      let (left, h) = working rs payload rest g small enough in
      (left, ap (λ b. receive b rs (frame payload ++ rest)) e ∙ h),
  λ e. ap (λ b. receive b rs (frame payload ++ rest)) e ∙ refl,
)

-- SendAll that reports success has sent the message whole; otherwise a front part of it.
pub send_all_prefix :
    (rs : List SendAnswer) (message : Bytes)
    → (rest : Bytes) × ((send_all rs message).0 ++ rest ≡ message)
      × ((send_all rs message).1 ≡ some true → rest ≡ [])
unfolding send_all
send_all_prefix rs [] = ([], refl, λ e. refl)
send_all_prefix [] (b ∷ bs) = (b ∷ bs, refl, λ e. absurd (ground (arith, e)))
send_all_prefix (SendAnswer.interrupted ∷ rs) (b ∷ bs) = send_all_prefix rs (b ∷ bs)
send_all_prefix (SendAnswer.fails ∷ rs) (b ∷ bs) = (b ∷ bs, refl, λ e. absurd (ground (arith, e)))
send_all_prefix (takes zero ∷ rs) (b ∷ bs) = (b ∷ bs, refl, λ e. absurd (ground (arith, e)))
send_all_prefix (takes (suc n) ∷ rs) (b ∷ bs) =
    let (rest, e, done) = send_all_prefix rs (drop (suc n) (b ∷ bs)) in
    (
      rest,
      append_assoc (take (suc n) (b ∷ bs)) (send_all rs (drop (suc n) (b ∷ bs))).0 rest
          ∙ ap (λ l. take (suc n) (b ∷ bs) ++ l) e
          ∙ take-append-drop (suc n) (b ∷ bs),
      done,
    )
