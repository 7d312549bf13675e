-- ===== src/Text/Numbers.antt =====
-- A number that is printed is read again.
use sik_telnet_radio.Prelude.{
  ℕ, zero, suc, ◌+◌, ◌*◌, ◌-◌, ◌/◌, ◌%◌, ◌^◌, ◌<◌, ◌≡◌, ◌≢◌, refl, ap, ◌∙◌, true, false, [], ◌∷◌,
  ◌++◌, arith, ltb, ◌==◌, Bool-cases, inl, inr,
}
use sik_telnet_radio.Net.{Bytes}
use sik_telnet_radio.Station.{last_of}
use sik_telnet_radio.Text.{
  is_digit, is_numeric, digits, value, stoull, leading_digits, is_space, stoul,
}

value-snoc : (n : ℕ) (cs : Bytes) (c : ℕ) → value n (cs ++ c ∷ []) ≡ value n cs * 10 + (c - b'0')
value-snoc n [] c = refl
value-snoc n (d ∷ cs) c = value-snoc (n * 10 + (d - b'0')) cs c

pub value-digits : (fuel n : ℕ) → n < 10 ^ fuel → value 0 (digits fuel n) ≡ n
unfolding digits
value-digits zero n h = omega arith
value-digits (suc fuel) n h = elim (Bool-cases (ltb n 10)) [
  | inl small ↦ rw small omega arith
  | inr large ↦ rw large (
      value-snoc 0 (digits fuel (n / 10)) (b'0' + n % 10)
      ∙ omega (arith, value-digits fuel (n / 10) (omega arith)))
]

is_numeric-snoc :
    (cs : Bytes) (c : ℕ)
    → is_numeric cs ≡ true
    → is_digit c ≡ true
    → is_numeric (cs ++ c ∷ []) ≡ true
unfolding is_numeric
is_numeric-snoc [] c h e = ground arith
is_numeric-snoc (d ∷ cs) c h e = ground (arith, is_numeric-snoc cs c)

pub is_numeric-digits : (fuel n : ℕ) → is_numeric (digits fuel n) ≡ true
unfolding digits is_numeric
is_numeric-digits zero n = refl
is_numeric-digits (suc fuel) n = elim (Bool-cases (ltb n 10)) [
  | inl small ↦ rw small ground arith
  | inr large ↦ rw large (
      is_numeric-snoc (digits fuel (n / 10)) (b'0' + n % 10) (is_numeric-digits fuel (n / 10))
        (ground arith))
]

last_of-snoc : (d : ℕ) (cs : Bytes) (c : ℕ) → last_of d (cs ++ c ∷ []) ≡ c
last_of-snoc d [] c = refl
last_of-snoc d (x ∷ cs) c = last_of-snoc x cs c

-- What is printed ends with a digit.
pub last_of-digits : (d fuel n : ℕ) → is_digit (last_of d (digits (suc fuel) n)) ≡ true
unfolding digits
last_of-digits d fuel n = elim (Bool-cases (ltb n 10)) [
  | inl small ↦ rw small ground arith
  | inr large ↦ rw (large, last_of-snoc d (digits fuel (n / 10)) (b'0' + n % 10)) ground arith
]

leading_digits_all : (cs : Bytes) → is_numeric cs ≡ true → leading_digits cs ≡ cs
unfolding is_numeric
leading_digits_all [] h = refl
leading_digits_all (c ∷ cs) h = ground (arith, leading_digits_all cs)

no_space : (c : ℕ) → is_digit c ≡ true → is_space c ≡ false
no_space c h = ground arith

no_sign : (c sign : ℕ) → is_digit c ≡ true → sign < b'0' → (c == sign) ≡ false
no_sign c sign h small = ground arith

-- On digits alone `stoul` reads what `stoull` reads.
pub stoul-stoull : (cs : Bytes) → cs ≢ [] → is_numeric cs ≡ true → stoul cs ≡ stoull cs
unfolding stoul is_numeric
stoul-stoull [] h e = absurd (h refl)
stoul-stoull (c ∷ cs) h e =
    rw
      (
        no_space c (ground arith),
        no_sign c b'-' (ground arith) (omega arith),
        no_sign c b'+' (ground arith) (omega arith),
      )
      (ap stoull (leading_digits_all (c ∷ cs) e))
