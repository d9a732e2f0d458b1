-- ===== src/Realtime/Meetings/Text.antt =====
-- Numbers in texts, as std::stoull, std::stoi and std::to_string read and write them for
-- RealtimeServer/src/service/LogicSystem.cpp.
use sync_rtc.Prelude.{
  ℕ, zero, suc, ◌+◌, ◌-◌, ◌*◌, ◌%◌, ◌/◌, ◌^◌, Bool, true, false, ◌&&◌, ◌||◌, Option, none, some, [],
  ◌∷◌, ltb, leb, ◌==◌, if◌then◌else◌, ℤ, pos, negsuc, Bytes,
}

-- isspace in the C locale
abbrev is_space : ℕ → Bool
is_space c = c == 32 || (leb 9 c && leb c 13)

abbrev is_digit : ℕ → Bool
is_digit c = leb 48 c && leb c 57

-- The value of a text of digits, if there is one and nothing else.
digits_value : ℕ → Bytes → Option ℕ
digits_value acc [] = some acc
digits_value acc (c ∷ cs) =
    let rest = digits_value (acc * 10 + (c - 48)) cs in if is_digit c then rest else none

abbrev in_range : Option ℕ → Option ℕ
in_range none = none
in_range (some n) = if ltb n (2 ^ 64) then some n else none

-- strtoull negates the value after a minus sign.
abbrev negated : Option ℕ → Option ℕ
negated none = none
negated (some n) = some ((2 ^ 64 - n) % 2 ^ 64)

abbrev unsigned : Bytes → Option ℕ
unsigned [] = none
unsigned (c ∷ cs) = in_range (digits_value 0 (c ∷ cs))

abbrev leading_digits : Bytes → Bytes
leading_digits [] = []
leading_digits (c ∷ cs) = if is_digit c then c ∷ leading_digits cs else []

abbrev signed : (Bytes → Option ℕ) → Bytes → Option ℕ
signed read [] = none
signed read (c ∷ cs) =
    if c == b'-' then negated (read cs) else if c == b'+' then read cs else read (c ∷ cs)

abbrev after_spaces : (Bytes → Option ℕ) → Bytes → Option ℕ
after_spaces read [] = none
after_spaces read (c ∷ cs) =
    let rest = after_spaces read cs in if is_space c then rest else signed read (c ∷ cs)

-- std::stoull on a text that it reads to its end, and on any text
unfoldable pub whole_number : Bytes → Option ℕ
unfolding digits_value
whole_number s = after_spaces unsigned s

unfoldable pub leading_number : Bytes → Option ℕ
unfolding digits_value
leading_number s = after_spaces (λ cs. unsigned (leading_digits cs)) s

-- std::stoi on any text: the sign and the digits, within 32 bits
abbrev int_of : Bool → Option ℕ → Option ℤ
int_of minus none = none
int_of true (some zero) = some (pos zero)
int_of true (some (suc n)) = if ltb n (2 ^ 31) then some (negsuc n) else none
int_of false (some n) = if ltb n (2 ^ 31) then some (pos n) else none

abbrev signed_int : Bytes → Option ℤ
signed_int [] = none
signed_int (c ∷ cs) =
    if c == b'-'
    then int_of true (unsigned (leading_digits cs))
    else if c == b'+'
    then int_of false (unsigned (leading_digits cs))
    else int_of false (unsigned (leading_digits (c ∷ cs)))

unfoldable pub leading_int : Bytes → Option ℤ
unfolding digits_value
leading_int [] = none
leading_int (c ∷ cs) = let rest = leading_int cs in if is_space c then rest else signed_int (c ∷ cs)

-- std::to_string
decimal_digits : ℕ → ℕ → Bytes → Bytes
decimal_digits zero n acc = acc
decimal_digits (suc f) n acc =
    let rest = decimal_digits f (n / 10) ((48 + n % 10) ∷ acc) in
    if ltb n 10 then (48 + n) ∷ acc else rest

unfoldable pub to_text : ℕ → Bytes
unfolding decimal_digits
to_text n = decimal_digits 20 n []
