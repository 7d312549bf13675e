-- ===== src/Datagram/RoundTrip.antt =====
-- Requests that are printed are read again.
use sik_telnet_radio.Prelude.{
  ℕ, suc, ◌+◌, ◌/◌, ◌%◌, ◌<◌, ◌≡◌, ◌≢◌, refl, ap, sym, ◌∙◌, true, ◌||◌, List, [], ◌∷◌, ◌++◌, arith,
  ltb, ◌==◌, Bool-cases, inl, inr, map, append-nil, append_assoc, lt→ltb, some, length,
}
use mathlib.Core.List.{nil≢cons}
use sik_telnet_radio.Outcome.{ok, word, guard, thrown}
use sik_telnet_radio.Net.{Bytes}
use sik_telnet_radio.Station.{last_of, bytes_eq_refl}
use sik_telnet_radio.Text.{is_digit, field, tokens, digits, print, value, stoull}
use sik_telnet_radio.Text.Numbers.{value-digits, is_numeric-digits, last_of-digits}
use sik_telnet_radio.Text.Pieces.{
  trimmed-newline, lacks, field-append, is_numeric-lacks, tokens-append, tokens-one,
}
use sik_telnet_radio.Datagram.{
  rexmit_prefix, next_field, behind_prefix, RexmitRequest, parse_ids, check_back, parse_rexmit,
  print_more, print_ids, print_rexmit,
}

-- Each number has 64 bits.
abbrev pub Small : List ℕ → Type 0
Small [] = Unit {0}
Small (id ∷ ids) = (id < word) × Small ids

snoc≢nil : (xs : Bytes) (c : ℕ) → xs ++ c ∷ [] ≢ []
snoc≢nil [] c e = nil≢cons (sym e)
snoc≢nil (x ∷ xs) c e = nil≢cons (sym e)

pub digits≢nil : (fuel n : ℕ) → digits (suc fuel) n ≢ []
unfolding digits
digits≢nil fuel n = elim (Bool-cases (ltb n 10)) [
  | inl small ↦ rw small (λ e. nil≢cons (sym e))
  | inr large ↦ rw large (snoc≢nil (digits fuel (n / 10)) (b'0' + n % 10))
]

tokens_whole : (cs : Bytes) → cs ≢ [] → lacks b',' cs ≡ true → tokens cs ≡ cs ∷ []
tokens_whole [] h l = absurd (h refl)
tokens_whole (c ∷ cs) h l = tokens-one c cs l

print-lacks : (n : ℕ) → lacks b',' (print n) ≡ true
print-lacks n = is_numeric-lacks (print n) (is_numeric-digits 20 n)

tokens-print_more :
    (id : ℕ) (ids : List ℕ) → tokens (print id ++ print_more ids) ≡ print id ∷ map print ids
unfolding print_more
tokens-print_more id [] =
    ap tokens (append-nil (print id)) ∙ tokens_whole (print id) (digits≢nil 19 id) (print-lacks id)
tokens-print_more id (next ∷ ids) =
    tokens-append (print id) (print next ++ print_more ids) (print-lacks id)
    ∙ ap (λ rest. print id ∷ rest) (tokens-print_more next ids)

tokens-print_ids : (ids : List ℕ) → tokens (print_ids ids) ≡ map print ids
unfolding print_ids tokens
tokens-print_ids [] = refl
tokens-print_ids (id ∷ ids) = tokens-print_more id ids

stoull-value : (cs : Bytes) (n : ℕ) → cs ≢ [] → value 0 cs ≡ n → n < word → stoull cs ≡ ok n
unfolding stoull
stoull-value [] n h e small = absurd (h refl)
stoull-value (c ∷ cs) n h e small = rw (e, lt→ltb n word small) refl

pub stoull-print : (n : ℕ) → n < word → stoull (print n) ≡ ok n
stoull-print n h = stoull-value (print n) n (digits≢nil 19 n) (value-digits 20 n (omega arith)) h

parse_ids-print : (ids : List ℕ) → Small ids → parse_ids (map print ids) ≡ ok ids
unfolding parse_ids
parse_ids-print [] h = refl
parse_ids-print (id ∷ ids) (small, rest) =
    rw (is_numeric-digits 20 id, stoull-print id small, parse_ids-print ids rest) refl

last_of-append : (d : ℕ) (xs ys : Bytes) → last_of d (xs ++ ys) ≡ last_of (last_of d xs) ys
last_of-append d [] ys = refl
last_of-append d (x ∷ xs) ys = last_of-append x xs ys

last_of-print_more :
    (d : ℕ) (ids : List ℕ) → is_digit d ≡ true → is_digit (last_of d (print_more ids)) ≡ true
unfolding print_more
last_of-print_more d [] h = h
last_of-print_more d (id ∷ ids) h =
    ap is_digit (last_of-append b',' (print id) (print_more ids))
    ∙ last_of-print_more (last_of b',' (print id)) ids (last_of-digits b',' 19 id)

back_fits :
    (ids : List ℕ)
    → (is_digit (last_of b' ' (print_ids ids)) || last_of b' ' (print_ids ids) == b' ') ≡ true
unfolding print_ids
back_fits [] = refl
back_fits (id ∷ ids) =
    ap (λ b. b || last_of b' ' (print_ids (id ∷ ids)) == b' ')
      (ap is_digit (last_of-append b' ' (print id) (print_more ids))
        ∙ last_of-print_more (last_of b' ' (print id)) ids (last_of-digits b' ' 19 id))

check_back_passes : (ids : List ℕ) → check_back (rexmit_prefix ++ b' ' ∷ print_ids ids) ≡ ok tt
unfolding check_back
check_back_passes ids = ap (λ b. guard b thrown) (back_fits ids)

eq_self : (n : ℕ) → (n == n) ≡ true
eq_self n = ground arith

behind_prefix_lem :
    (prefix input : Bytes) {rest : Bytes}
    → field input ≡ some (prefix, rest)
    → behind_prefix prefix input ≡ ok rest
unfolding behind_prefix next_field
behind_prefix_lem prefix input found =
    rw found (rw (eq_self (length prefix), bytes_eq_refl prefix) refl)

pub behind_prefix-append :
    (prefix rest : Bytes)
    → lacks b' ' prefix ≡ true
    → behind_prefix prefix (prefix ++ b' ' ∷ rest) ≡ ok rest
behind_prefix-append prefix rest h =
    behind_prefix_lem prefix (prefix ++ b' ' ∷ rest) (field-append prefix rest h)

-- A request for retransmission that is printed is read as the same request, if each packet id has 64
-- bits.
pub parse_rexmit-print_rexmit :
    (req : RexmitRequest)
    → Small req.packet_ids
    → parse_rexmit req.receiver_addr (print_rexmit req) ≡ ok req
unfolding parse_rexmit print_rexmit
parse_rexmit-print_rexmit req small =
    let ids = req.packet_ids in
    rw
      (
        sym (append_assoc (rexmit_prefix ++ b' ' ∷ []) (print_ids ids) (b'\n' ∷ [])),
        trimmed-newline (rexmit_prefix ++ b' ' ∷ print_ids ids),
        check_back_passes ids,
        behind_prefix-append rexmit_prefix (print_ids ids) refl,
        tokens-print_ids ids,
        parse_ids-print ids small,
      )
      refl
