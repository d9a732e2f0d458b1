-- ===== src/Media/SignalSession/Receiving.antt =====
-- ReceiveAll and Session::Receive (MediaServer/src/net/Session.cpp). The peer's bytes stand in one
-- list; each answer of recv(2) hands out a part of what is there.
use sync_rtc.Prelude.{
  ℕ, zero, suc, ◌-◌, min, Bool, List, [], ◌∷◌, ◌++◌, length, take, drop, Bytes, if◌then◌else◌,
}
use sync_rtc.Wire.{read32}

pub data RecvAnswer : Type 0 where
  gives : ℕ → RecvAnswer
  interrupted : RecvAnswer
  fails : RecvAnswer

-- What is read, what is left of the stream and of the answers; or a failure; or it still blocks.
pub data Received : Type 0 where
  whole : Bytes → Bytes → List RecvAnswer → Received
  broken : Received
  blocked : Received

abbrev pub prepend : Bytes → Received → Received
prepend chunk (whole bytes stream rs) = whole (chunk ++ bytes) stream rs
prepend chunk broken = broken
prepend chunk blocked = blocked

-- recv with `count` bytes; none is the end of the stream
abbrev pub recv_chunk : ℕ → Bytes → (ℕ → Bytes → Received) → Received
recv_chunk zero stream again = broken
recv_chunk (suc c) stream again =
    prepend (take (suc c) stream) (again (suc c) (drop (suc c) stream))

unfoldable pub receive_all : List RecvAnswer → ℕ → Bytes → Received
receive_all rs zero stream = whole [] stream rs
receive_all [] (suc n) stream = blocked
receive_all (interrupted ∷ rs) (suc n) stream = receive_all rs (suc n) stream
receive_all (fails ∷ rs) (suc n) stream = broken
receive_all (gives k ∷ rs) (suc n) stream =
    recv_chunk (min k (min (suc n) (length stream))) stream
      (λ count rest. receive_all rs (suc n - count) rest)

abbrev pub read_body : Received → Received
read_body (whole (b₀ ∷ (b₁ ∷ (b₂ ∷ (b₃ ∷ [])))) stream rs) =
    receive_all rs (read32 b₀ b₁ b₂ b₃) stream
read_body _ = broken

-- A header that did not arrive whole blocks or breaks the reading.
abbrev pub after_header : Received → Received
after_header blocked = blocked
after_header r = read_body r

-- `stopping` is m_stopping when Receive looks at it; it is not asked again.
unfoldable pub receive : Bool → List RecvAnswer → Bytes → Received
unfolding receive_all
receive stopping rs stream = if stopping then broken else after_header (receive_all rs 4 stream)
