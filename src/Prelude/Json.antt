-- ===== src/Prelude/Json.antt =====
-- Integers with a sign, and the JSON values that jsoncpp and Qt hand to the program. The parsers
-- themselves belong to those libraries and are parameters of the modules that call them.
use Prim.Native.Nat.{ℕ, zero, suc}
use Prim.Native.Char.{code}
use Prim.Native.String.{String}
use text.Mathlib.Text.{◌==◌ as str_eq}
use mathlib.Core.Path.{◌≡◌, refl}
use native.Mathlib.Omega.{arith}
use mathlib.Core.Bool.{Bool, true, false, ◌&&◌}
use mathlib.Core.List.{List, [], ◌∷◌}
use sync_rtc.Prelude.Tests.{◌==◌, if◌then◌else◌}

-- `negsuc n` is -(n + 1).
pub data ℤ : Type 0 where
  pos : ℕ → ℤ
  negsuc : ℕ → ℤ

-- x > 0
abbrev pub is_positive : ℤ → Bool
is_positive (pos zero) = false
is_positive (pos (suc n)) = true
is_positive (negsuc n) = false

-- The bytes of a text.
abbrev pub Bytes : Type 0
Bytes = List ℕ

abbrev pub codes : String → Bytes
codes String.[] = []
codes (String.◌∷◌ c s) = code c ∷ codes s

abbrev pub same_bytes : Bytes → Bytes → Bool
same_bytes [] [] = true
same_bytes (x ∷ xs) (y ∷ ys) = x == y && same_bytes xs ys
same_bytes [] (y ∷ ys) = false
same_bytes (x ∷ xs) [] = false

pub same_bytes-eq : (xs ys : Bytes) → same_bytes xs ys ≡ true → xs ≡ ys
same_bytes-eq [] [] e = refl
same_bytes-eq [] (y ∷ ys) e = cc
same_bytes-eq (x ∷ xs) [] e = cc
same_bytes-eq (x ∷ xs) (y ∷ ys) e = ground (arith, same_bytes-eq xs ys)

mutual
  pub data Json : Type 0 where
    null : Json
    bool : Bool → Json
    integer : ℤ → Json
    real : Json
    str : Bytes → Json
    arr : Items → Json
    obj : Fields → Json

  pub data Items : Type 0 where
    nil : Items
    cons : Json → Items → Items

  pub data Fields : Type 0 where
    end : Fields
    field : String → Json → Fields → Fields

-- value.size() of an object
unfoldable pub field_count : Fields → ℕ
field_count end = 0
field_count (field k v fs) = suc (field_count fs)

-- value[key], null where the key is missing
unfoldable pub member : String → Fields → Json
member k end = null
member k (field j v fs) = if str_eq j k then v else member k fs
