-- ===== src/Prelude/Assoc.antt =====
-- Maps with numeric keys (std::unordered_map, std::map) as lists of entries. A map is iterated in
-- the order of its list, which stands for the unspecified order of the hash table.
use Prim.Native.Nat.{ℕ, ◌≤◌}
use mathlib.Core.Path.{◌≡◌, refl}
use mathlib.Core.Bool.{Bool, true, false}
use mathlib.Core.Option.{Option, none, some}
use mathlib.Core.List.{List, [], ◌∷◌}
use native.Mathlib.Omega.{arith}
use sync_rtc.Prelude.Tests.{◌==◌, if◌then◌else◌}
use sync_rtc.Prelude.Lists.{length}

abbrev pub Assoc {ℓ} : Type ℓ → Type ℓ
Assoc V = List (ℕ × V)

module _ {ℓ} {V : Type ℓ} where
  -- find
  unfoldable pub lookup : ℕ → Assoc V → Option V
  lookup k [] = none
  lookup k ((j, v) ∷ m) = if j == k then some v else lookup k m

  -- m[k] = v
  unfoldable pub assign : ℕ → V → Assoc V → Assoc V
  assign k v [] = (k, v) ∷ []
  assign k v ((j, w) ∷ m) = if j == k then (k, v) ∷ m else (j, w) ∷ assign k v m

  -- m.erase(k)
  unfoldable pub erase : ℕ → Assoc V → Assoc V
  erase k [] = []
  erase k ((j, w) ∷ m) = let rest = erase k m in if j == k then rest else (j, w) ∷ rest

  abbrev pub is_free : ℕ → Assoc V → Bool
  is_free k [] = true
  is_free k ((j, v) ∷ m) = if j == k then false else is_free k m

  pub lookup-assign :
      (k j : ℕ) (v : V) (m : Assoc V)
      → lookup j (assign k v m) ≡ (if k == j then some v else lookup j m)
  unfolding lookup assign
  lookup-assign k j v [] = refl
  lookup-assign k j v ((i, w) ∷ m) = ground (arith, lookup-assign k j v m)

  pub lookup-erase :
      (k j : ℕ) (m : Assoc V) → lookup j (erase k m) ≡ (if k == j then none else lookup j m)
  unfolding lookup erase
  lookup-erase k j [] = ground arith
  lookup-erase k j ((i, w) ∷ m) = ground (arith, lookup-erase k j m)

  pub length-erase : (k : ℕ) (m : Assoc V) → length (erase k m) ≤ length m
  unfolding erase
  length-erase k [] = omega arith
  length-erase k ((i, w) ∷ m) = ground (arith, length-erase k m)

  -- No key has two entries.
  abbrev pub UniqueKeys : Assoc V → Type 0
  UniqueKeys [] = Unit {0}
  UniqueKeys ((k, v) ∷ m) = (is_free k m ≡ true) × UniqueKeys m

  is_free-assign :
      (k j : ℕ) (v : V) (m : Assoc V)
      → is_free j (assign k v m) ≡ (if k == j then false else is_free j m)
  unfolding assign
  is_free-assign k j v [] = refl
  is_free-assign k j v ((i, w) ∷ m) = ground (arith, is_free-assign k j v m)

  is_free-erase : (k j : ℕ) (m : Assoc V) → is_free j m ≡ true → is_free j (erase k m) ≡ true
  unfolding erase
  is_free-erase k j [] h = refl
  is_free-erase k j ((i, w) ∷ m) h = ground (arith, is_free-erase k j m)

  pub assign-UniqueKeys : (k : ℕ) (v : V) (m : Assoc V) → UniqueKeys m → UniqueKeys (assign k v m)
  unfolding assign
  assign-UniqueKeys k v [] u = (refl, tt)
  assign-UniqueKeys k v ((i, w) ∷ m) u =
      ground (arith, is_free-assign k i v m, assign-UniqueKeys k v m u.1)

  pub erase-UniqueKeys : (k : ℕ) (m : Assoc V) → UniqueKeys m → UniqueKeys (erase k m)
  unfolding erase
  erase-UniqueKeys k [] u = tt
  erase-UniqueKeys k ((i, w) ∷ m) u =
      ground (arith, is_free-erase k i m u.0, erase-UniqueKeys k m u.1)

  pub lookup-is_free : (k : ℕ) (m : Assoc V) → is_free k m ≡ true → lookup k m ≡ none
  unfolding lookup
  lookup-is_free k [] h = refl
  lookup-is_free k ((i, w) ∷ m) h = ground (arith, lookup-is_free k m)

  pub is_free-lookup : (k : ℕ) (m : Assoc V) → lookup k m ≡ none → is_free k m ≡ true
  unfolding lookup
  is_free-lookup k [] h = refl
  is_free-lookup k ((i, w) ∷ m) h = ground (arith, is_free-lookup k m)
