-- ===== src/Prelude/Distinct.antt =====
-- Lists of numbers without repetition, which stand for std::unordered_set and for queues that hold
-- a number once.
use Prim.Native.Nat.{ℕ}
use mathlib.Core.Path.{◌≡◌, refl}
use mathlib.Core.Bool.{Bool, true, false, ◌||◌}
use mathlib.Core.List.{List, [], ◌∷◌, ◌++◌}
use native.Mathlib.Omega.{arith}
use sync_rtc.Prelude.Tests.{◌==◌, if◌then◌else◌}

unfoldable pub contains : List ℕ → ℕ → Bool
contains [] t = false
contains (x ∷ xs) t = if x == t then true else contains xs t

abbrev pub Distinct : List ℕ → Type 0
Distinct [] = Unit {0}
Distinct (x ∷ xs) = (contains xs x ≡ false) × Distinct xs

pub contains-append :
    (xs ys : List ℕ) (t : ℕ) → contains (xs ++ ys) t ≡ (contains xs t || contains ys t)
unfolding contains
contains-append [] ys t = refl
contains-append (x ∷ xs) ys t = ground (arith, contains-append xs ys t)

pub Distinct-append :
    (xs : List ℕ) (t : ℕ) → Distinct xs → contains xs t ≡ false → Distinct (xs ++ t ∷ [])
unfolding contains
Distinct-append [] t d n = (refl, tt)
Distinct-append (x ∷ xs) t d n =
    ground (arith, Distinct-append xs t d.1, contains-append xs (t ∷ []) x)
