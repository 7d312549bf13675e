-- ===== src/Text/Pieces.antt =====
-- What is put together from pieces is taken apart into them.
use sik_telnet_radio.Prelude.{
  ℕ, ◌≡◌, refl, ap, Bool, true, false, not, ◌&&◌, [], ◌∷◌, ◌++◌, arith, ◌==◌, Bool-cases, inl, inr,
  some,
}
use sik_telnet_radio.Net.{Bytes}
use sik_telnet_radio.Text.{trimmed, is_digit, is_numeric, field, push_front, tokens, extend}

pub trimmed-newline : (cs : Bytes) → trimmed (cs ++ b'\n' ∷ []) ≡ cs
unfolding trimmed
trimmed-newline [] = refl
trimmed-newline (x ∷ []) = refl
trimmed-newline (x ∷ y ∷ cs) = ap (λ rest. x ∷ rest) (trimmed-newline (y ∷ cs))

-- No byte of the text is `c`.
abbrev pub lacks : ℕ → Bytes → Bool
lacks c [] = true
lacks c (d ∷ cs) = not (d == c) && lacks c cs

pub field-append :
    (cs rest : Bytes) → lacks b' ' cs ≡ true → field (cs ++ b' ' ∷ rest) ≡ some (cs, rest)
unfolding field
field-append [] rest h = refl
field-append (c ∷ cs) rest h = elim (Bool-cases (c == b' ')) [
  | inl e ↦ absurd (ground arith)
  | inr e ↦ rw e (ap (push_front c) (field-append cs rest (ground arith)))
]

pub is_numeric-lacks : (cs : Bytes) → is_numeric cs ≡ true → lacks b',' cs ≡ true
unfolding is_numeric
is_numeric-lacks [] h = refl
is_numeric-lacks (c ∷ cs) h = ground (arith, is_numeric-lacks cs)

pub tokens-append :
    (cs rest : Bytes) → lacks b',' cs ≡ true → tokens (cs ++ b',' ∷ rest) ≡ cs ∷ tokens rest
unfolding tokens
tokens-append [] rest h = refl
tokens-append (c ∷ cs) rest h = elim (Bool-cases (c == b',')) [
  | inl e ↦ absurd (ground arith)
  | inr e ↦ rw e (ap (extend c) (tokens-append cs rest (ground arith)))
]

pub tokens-one : (c : ℕ) (cs : Bytes) → lacks b',' (c ∷ cs) ≡ true → tokens (c ∷ cs) ≡ (c ∷ cs) ∷ []
unfolding tokens
tokens-one c [] h = elim (Bool-cases (c == b',')) [
  | inl e ↦ absurd (ground arith)
  | inr e ↦ rw e refl
]
tokens-one c (d ∷ cs) h = elim (Bool-cases (c == b',')) [
  | inl e ↦ absurd (ground arith)
  | inr e ↦ rw e (ap (extend c) (tokens-one d cs (ground arith)))
]

pub is_numeric-lacks_space : (cs : Bytes) → is_numeric cs ≡ true → lacks b' ' cs ≡ true
unfolding is_numeric
is_numeric-lacks_space [] h = refl
is_numeric-lacks_space (c ∷ cs) h = ground (arith, is_numeric-lacks_space cs)

pub is_numeric-lacks_other :
    (c : ℕ) (cs : Bytes) → is_digit c ≡ false → is_numeric cs ≡ true → lacks c cs ≡ true
unfolding is_numeric
is_numeric-lacks_other c [] other h = refl
is_numeric-lacks_other c (d ∷ cs) other h = ground (arith, is_numeric-lacks_other c cs)

pub lacks-append :
    (c : ℕ) (xs ys : Bytes) → lacks c xs ≡ true → lacks c ys ≡ true → lacks c (xs ++ ys) ≡ true
lacks-append c [] ys h k = k
lacks-append c (x ∷ xs) ys h k = ground (arith, lacks-append c xs ys)
