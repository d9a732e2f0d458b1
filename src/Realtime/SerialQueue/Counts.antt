-- ===== src/Realtime/SerialQueue/Counts.antt =====
-- What a queue holds, counted: the entries on their way, their bytes, and the resume functions.
use sync_rtc.Prelude.{ℕ, ◌+◌, ◌≡◌, refl, ap, Option, none, some, List, [], ◌∷◌, ◌++◌, arith}
use sync_rtc.Realtime.SerialQueue.{
  Entry, Handler, arrives, goes_on, completes, Operation, SerialCommandQueue,
}

abbrev pub weigh {ℓ} : {A : Type ℓ} → (A → ℕ) → List A → ℕ
weigh f [] = 0
weigh f (x ∷ xs) = f x + weigh f xs

pub weigh-append {ℓ} :
    {A : Type ℓ} (f : A → ℕ) (xs ys : List A) → weigh f (xs ++ ys) ≡ weigh f xs + weigh f ys
weigh-append f [] ys = omega arith
weigh-append f (x ∷ xs) ys = omega (arith, weigh-append f xs ys)

abbrev pub one {ℓ} : {A : Type ℓ} → A → ℕ
one x = 1

abbrev pub itself : ℕ → ℕ
itself n = n

module _ {ℓ} {Command : Type ℓ} where
  abbrev pub size : Entry Command → ℕ
  size e = e.bytes

  -- the entry, the end of an operation with its bytes, the completion that a handler stands for
  abbrev pub arrival : Handler Command → ℕ
  arrival (arrives e) = 1
  arrival _ = 0

  abbrev pub arrival_size : Handler Command → ℕ
  arrival_size (arrives e) = e.bytes
  arrival_size _ = 0

  abbrev pub ending : Handler Command → ℕ
  ending (goes_on b) = 1
  ending _ = 0

  abbrev pub ending_size : Handler Command → ℕ
  ending_size (goes_on b) = b
  ending_size _ = 0

  abbrev pub arrivals : List (Handler Command) → List (Entry Command)
  arrivals [] = []
  arrivals (arrives e ∷ hs) = e ∷ arrivals hs
  arrivals (goes_on b ∷ hs) = arrivals hs
  arrivals (completes id phase ∷ hs) = arrivals hs

  abbrev pub completions : List (Handler Command) → List (ℕ × ℕ)
  completions [] = []
  completions (arrives e ∷ hs) = completions hs
  completions (goes_on b ∷ hs) = completions hs
  completions (completes id phase ∷ hs) = (id, phase) ∷ completions hs

  abbrev pub current : Option (Operation Command) → List (Entry Command)
  current none = []
  current (some o) = o.entry ∷ []

  -- accepted and not started, in the order in which they will start
  abbrev pub backlog : SerialCommandQueue Command → List (Entry Command)
  backlog q = q.commands ++ arrivals q.strand

  pub arrivals-append :
      (hs ks : List (Handler Command)) → arrivals (hs ++ ks) ≡ arrivals hs ++ arrivals ks
  arrivals-append [] ks = refl
  arrivals-append (arrives e ∷ hs) ks = ap (◌∷◌ e) (arrivals-append hs ks)
  arrivals-append (goes_on b ∷ hs) ks = arrivals-append hs ks
  arrivals-append (completes id phase ∷ hs) ks = arrivals-append hs ks

  pub completions-append :
      (hs ks : List (Handler Command)) → completions (hs ++ ks) ≡ completions hs ++ completions ks
  completions-append [] ks = refl
  completions-append (arrives e ∷ hs) ks = completions-append hs ks
  completions-append (goes_on b ∷ hs) ks = completions-append hs ks
  completions-append (completes id phase ∷ hs) ks = ap (◌∷◌ (id, phase)) (completions-append hs ks)
