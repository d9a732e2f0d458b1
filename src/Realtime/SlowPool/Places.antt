-- ===== src/Realtime/SlowPool/Places.antt =====
-- The places of the pool against the operations that hold them.
use sync_rtc.Prelude.{
  ℕ, ◌+◌, ◌^◌, ◌<◌, ◌≤◌, ◌≡◌, refl, ◌∙◌, true, not, ◌&&◌, some, List, [], ◌∷◌, length,
  length-append, ltb, arith,
}
use sync_rtc.Prelude.Distinct.{contains}
use sync_rtc.Realtime.SlowPool.{
  SlowPool, new_pool, reserve, submit, Users, without, Use, reserves, awaits, fetches, finishes,
  frees, joins, use_pool, uses,
}

-- Every place is held by one operation, and a task in the pool belongs to an operation with a place.
pub record IsHeld (u : Users) : Type 0 where
  pub bounded : u.pool.capacity < 2 ^ 64
  pub within : u.pool.reserved ≤ u.pool.capacity
  pub in_pool : u.pool.pending ≡ length u.pool.tasks + length u.working
  pub held : u.pool.reserved ≡ length u.holding + u.pool.pending

pub length-without :
    (k : ℕ) (xs : List ℕ) → contains xs k ≡ true → length (without k xs) + 1 ≡ length xs
unfolding contains without
length-without k [] h = absurd (ground arith)
length-without k (x ∷ xs) h = ground (arith, length-without k xs)

pub use_pool-IsHeld : (e : Use) (u : Users) → IsHeld u → IsHeld (use_pool e u)
unfolding use_pool
use_pool-IsHeld (reserves k) u v = ground arith
use_pool-IsHeld (awaits k) u v =
    ground (arith, length-without k u.holding, length-append u.pool.tasks (k ∷ []))
use_pool-IsHeld fetches u v = ground arith
use_pool-IsHeld (finishes k) u v = ground (arith, length-without k u.working)
use_pool-IsHeld (frees k) u v = ground (arith, length-without k u.holding)
use_pool-IsHeld joins u v = ground arith

uses-IsHeld : (es : List Use) (u : Users) → IsHeld u → IsHeld (uses es u)
unfolding uses
uses-IsHeld [] u v = v
uses-IsHeld (e ∷ es) u v = uses-IsHeld es (use_pool e u) (use_pool-IsHeld e u v)

same_limit : (e : Use) (u : Users) → (use_pool e u).pool.capacity ≡ u.pool.capacity
unfolding use_pool
same_limit e u = ground arith

uses_limit : (es : List Use) (u : Users) → (uses es u).pool.capacity ≡ u.pool.capacity
unfolding uses
uses_limit [] u = refl
uses_limit (e ∷ es) u = uses_limit es (use_pool e u) ∙ same_limit e u

abbrev pub unused : SlowPool ℕ → Users
unused p = record { pool = p; holding = []; working = [] }

new_pool-IsHeld :
    (threads capacity : ℕ) {p : SlowPool ℕ}
    → capacity < 2 ^ 64
    → new_pool threads capacity ≡ some p
    → IsHeld (unused p) × (p.capacity ≡ capacity)
unfolding new_pool
new_pool-IsHeld threads capacity c e = ground arith

-- The answers of the pool to the users of it that hold places.
pub record Answers (capacity : ℕ) (u : Users) : Type 0 where
  pub admits : (k : ℕ) → contains u.holding k ≡ true → (submit k u.pool).1 ≡ not u.pool.stopping
  pub reserves_free : (reserve u.pool).1 ≡ (
      not u.pool.stopping
      && ltb (length u.holding + (length u.pool.tasks + length u.working)) capacity)

held-Answers :
    (u : Users) (capacity : ℕ) → IsHeld u → u.pool.capacity ≡ capacity → Answers capacity u
unfolding submit reserve contains
held-Answers u capacity v e = record { admits = go; reserves_free = ground arith }
  where
    some_hold : (xs : List ℕ) (k : ℕ) → contains xs k ≡ true → 0 < length xs
    some_hold [] k h = absurd (ground arith)
    some_hold (x ∷ xs) k h = omega arith

    go : (k : ℕ) → contains u.holding k ≡ true → (submit k u.pool).1 ≡ not u.pool.stopping
    go k h = ground (arith, some_hold u.holding k h)

-- However the operations and the threads take turns at a new pool, the task of an operation that
-- holds a place is refused only when the pool stops, and a place is refused only when the pool stops
-- or `capacity` operations hold one.
pub uses-Answers :
    (threads capacity : ℕ) (es : List Use) {p : SlowPool ℕ}
    → capacity < 2 ^ 64
    → new_pool threads capacity ≡ some p
    → Answers capacity (uses es (unused p))
uses-Answers threads capacity es {p} c e =
    let (v, same) = new_pool-IsHeld threads capacity c e in
    held-Answers (uses es (unused p)) capacity (uses-IsHeld es (unused p) v)
      (uses_limit es (unused p) ∙ same)
