-- ===== src/Wire.antt =====
-- The big-endian length fields that every frame of the system carries: two bytes between client and
-- RealtimeServer (Session.cpp, tcpmgr.cpp), four bytes on the socket to MediaServer
-- (MediaSignalClient.cpp, MediaServer's Session.cpp). A byte is a number below 256, so that the
-- `|` of the sources adds disjoint bits.
use sync_rtc.Prelude.{ℕ, ◌+◌, ◌*◌, ◌/◌, ◌%◌, ◌^◌, ◌<◌, ◌≡◌, [], ◌∷◌, Bytes, arith}

unfoldable pub write16 : ℕ → Bytes
write16 n = n / 2 ^ 8 % 256 ∷ n % 256 ∷ []

unfoldable pub read16 : ℕ → ℕ → ℕ
read16 b₀ b₁ = b₀ * 2 ^ 8 + b₁

unfoldable pub write32 : ℕ → Bytes
write32 n = n / 2 ^ 24 % 256 ∷ n / 2 ^ 16 % 256 ∷ n / 2 ^ 8 % 256 ∷ n % 256 ∷ []

unfoldable pub read32 : ℕ → ℕ → ℕ → ℕ → ℕ
read32 b₀ b₁ b₂ b₃ = b₀ * 2 ^ 24 + b₁ * 2 ^ 16 + b₂ * 2 ^ 8 + b₃

pub read16_write : (n : ℕ) → n < 2 ^ 16 → read16 (n / 2 ^ 8 % 256) (n % 256) ≡ n
unfolding read16
read16_write n h = omega arith

pub read32_write :
    (n : ℕ)
    → n < 2 ^ 32
    → read32 (n / 2 ^ 24 % 256) (n / 2 ^ 16 % 256) (n / 2 ^ 8 % 256) (n % 256) ≡ n
unfolding read32
read32_write n h = omega arith
