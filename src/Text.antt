-- ===== src/Text.antt =====
-- The text that datagrams are made of: `trimmed` and `is_numeric` of common/datagram.cc, and what it
-- uses of the standard library on strings and numbers.
pub mod Numbers
pub mod Faults
pub mod Pieces
use Prim.Native.String.{String}
use Prim.Native.Char.{code}
use sik_telnet_radio.Prelude.{
  ℕ, zero, suc, ◌+◌, ◌*◌, ◌-◌, ◌/◌, ◌%◌, ◌^◌, Bool, true, false, ◌&&◌, ◌||◌, not, List, [], ◌∷◌,
  ◌++◌, Option, none, some, ltb, leb, ◌==◌, if◌then◌else◌,
}
use sik_telnet_radio.Outcome.{Outcome, ok, crash, thrown, word}
use sik_telnet_radio.Net.{Bytes}

-- The bytes of a literal.
abbrev pub codes : String → Bytes
codes String.[] = []
codes (String.◌∷◌ c s) = code c ∷ codes s

unfoldable pub trimmed : Bytes → Bytes
trimmed [] = []
trimmed (c ∷ []) = if c == b'\n' then [] else c ∷ []
trimmed (c ∷ d ∷ cs) = c ∷ trimmed (d ∷ cs)

abbrev pub is_digit : ℕ → Bool
is_digit c = leb b'0' c && leb c b'9'

unfoldable pub is_numeric : Bytes → Bool
is_numeric [] = true
is_numeric (c ∷ cs) = is_digit c && is_numeric cs

abbrev push_front : ℕ → Option (Bytes × Bytes) → Option (Bytes × Bytes)
push_front c none = none
push_front c (some (field, rest)) = some (c ∷ field, rest)

-- What stands before the first space, `substr(0, space_pos)`, and what stands behind it.
unfoldable pub field : Bytes → Option (Bytes × Bytes)
field [] = none
field (c ∷ cs) = if c == b' ' then some ([], cs) else push_front c (field cs)

abbrev extend : ℕ → List Bytes → List Bytes
extend c [] = (c ∷ []) ∷ []
extend c (token ∷ tokens) = (c ∷ token) ∷ tokens

-- The tokens that `getline` finds one after another. Behind a comma at the end it finds none.
unfoldable pub tokens : Bytes → List Bytes
tokens [] = []
tokens (c ∷ cs) = if c == b',' then [] ∷ tokens cs else extend c (tokens cs)

-- The decimal digits of a number with at most `fuel` of them, as `<<` and `to_string` print it.
unfoldable pub digits : ℕ → ℕ → Bytes
digits zero n = []
digits (suc fuel) n =
    let rest = digits fuel (n / 10) in
    if ltb n 10 then (b'0' + n) ∷ [] else rest ++ (b'0' + n % 10) ∷ []

-- A number of 64 bits has at most 20 digits.
abbrev pub print : ℕ → Bytes
print n = digits 20 n

abbrev pub value : ℕ → Bytes → ℕ
value n [] = n
value n (c ∷ cs) = value (n * 10 + (c - b'0')) cs

-- `stoull` on digits: it throws on an empty string, and on a number of more than 64 bits.
unfoldable pub stoull : Bytes → Outcome ℕ
stoull [] = crash thrown
stoull (c ∷ cs) = if ltb (value 0 (c ∷ cs)) word then ok (value 0 (c ∷ cs)) else crash thrown

abbrev leading_digits : Bytes → Bytes
leading_digits [] = []
leading_digits (c ∷ cs) = if is_digit c then c ∷ leading_digits cs else []

abbrev negated : Outcome ℕ → Outcome ℕ
negated (ok n) = ok ((word - n) % word)
negated (crash e) = crash e

-- A sign, and the digits that follow; what stands behind them is not looked at. A minus sign negates
-- the number modulo 2 ^ 64.
abbrev signed : Bytes → Outcome ℕ
signed [] = crash thrown
signed (c ∷ cs) =
    if c == b'-'
    then negated (stoull (leading_digits cs))
    else if c == b'+'
    then stoull (leading_digits cs)
    else stoull (leading_digits (c ∷ cs))

abbrev is_space : ℕ → Bool
is_space c = c == b' ' || leb 9 c && leb c 13

-- `stoul`, whose `unsigned long` has 64 bits.
unfoldable pub stoul : Bytes → Outcome ℕ
stoul [] = crash thrown
stoul (c ∷ cs) = if is_space c then stoul cs else signed (c ∷ cs)

-- The text of a buffer that ends with a zero byte.
unfoldable pub c_str : Bytes → Bytes
c_str [] = []
c_str (c ∷ cs) = let rest = c_str cs in if c == 0 then [] else c ∷ rest
