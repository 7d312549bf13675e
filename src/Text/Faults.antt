-- ===== src/Text/Faults.antt =====
-- Numbers are read without a fault other than an exception.
use sik_telnet_radio.Prelude.{ℕ, [], ◌∷◌, Bool, true, false, ltb, ◌==◌, if◌then◌else◌}
use sik_telnet_radio.Outcome.{Outcome, word, After, done, stopped, raised, Anything}
use sik_telnet_radio.Net.{Bytes}
use sik_telnet_radio.Text.{value, stoull, leading_digits, negated, signed, is_space, stoul}

either :
    {m n : Outcome ℕ} (b : Bool)
    → After Anything m
    → After Anything n
    → After Anything (if b then m else n)
either true h k = h
either false h k = k

stoull-After : (cs : Bytes) → After Anything (stoull cs)
unfolding stoull
stoull-After [] = raised
stoull-After (c ∷ cs) = either (ltb (value 0 (c ∷ cs)) word) (done tt) raised

negated-After : {m : Outcome ℕ} → After Anything m → After Anything (negated m)
negated-After (done h) = done tt
negated-After stopped = stopped
negated-After raised = raised

signed-After : (cs : Bytes) → After Anything (signed cs)
signed-After [] = raised
signed-After (c ∷ cs) =
    either (c == b'-') (negated-After (stoull-After (leading_digits cs))) (
      either (c == b'+') (stoull-After (leading_digits cs))
        (stoull-After (leading_digits (c ∷ cs))))

pub stoul-After : (cs : Bytes) → After Anything (stoul cs)
unfolding stoul
stoul-After [] = raised
stoul-After (c ∷ cs) = either (is_space c) (stoul-After cs) (signed-After (c ∷ cs))
