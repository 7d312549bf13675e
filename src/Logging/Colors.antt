-- ===== src/Logging/Colors.antt =====
-- The colours of standard error.
use sik_telnet_radio.Prelude.{
  ℕ, zero, suc, ◌/◌, ◌≤◌, ◌≡◌, ◌≢◌, refl, sym, subst, le→leb, Bool, true, false, not, [], ◌∷◌, ◌++◌,
  arith, ltb, ◌==◌, if◌then◌else◌, Bool-cases, inl, inr,
}
use sik_telnet_radio.Net.{Bytes}
use sik_telnet_radio.Text.{digits, print}
use sik_telnet_radio.Logging.Fits.{stamp_lem}
use sik_telnet_radio.Logging.{
  LogLevel, log_trace, log_debug, log_info, log_warn, log_error, log_fatal, LogMsg, Tm, escape,
  pretty_name, pretty_color, place, stderr_line, file_line, two_digits, year_digits, timestamp,
  stamp, pad_right,
}

-- A terminal shows nothing of an escape sequence for a colour, which ends with an m. `inside` says that the
-- text before was the beginning of one.
unfoldable pub strip : Bool → Bytes → Bytes
strip inside [] = []
strip true (c ∷ cs) = strip (not (c == b'm')) cs
strip false (c ∷ cs) = let rest = strip (c == escape) cs in if c == escape then rest else c ∷ rest

-- A text with no escape sequence.
abbrev pub IsPlain : Bytes → Type 0
IsPlain [] = Unit
IsPlain (c ∷ cs) = (c ≢ escape) × IsPlain cs

strip-plain : (xs rest : Bytes) → IsPlain xs → strip false (xs ++ rest) ≡ xs ++ strip false rest
unfolding strip
strip-plain [] rest h = refl
strip-plain (x ∷ xs) rest h = ground (arith, strip-plain xs rest h.1)

strip-pretty_color :
    (level : LogLevel) (rest : Bytes) → strip false (pretty_color level ++ rest) ≡ strip false rest
unfolding strip
strip-pretty_color log_trace rest = refl
strip-pretty_color log_debug rest = refl
strip-pretty_color log_info rest = refl
strip-pretty_color log_warn rest = refl
strip-pretty_color log_error rest = refl
strip-pretty_color log_fatal rest = refl

IsPlain-append : (xs ys : Bytes) → IsPlain xs → IsPlain ys → IsPlain (xs ++ ys)
IsPlain-append [] ys h k = k
IsPlain-append (x ∷ xs) ys h k = (h.0, IsPlain-append xs ys h.1 k)

digits-IsPlain : (fuel n : ℕ) → IsPlain (digits fuel n)
unfolding digits
digits-IsPlain zero n = tt
digits-IsPlain (suc fuel) n = elim (Bool-cases (ltb n 10)) [
  | inl e ↦ rw e (omega arith, tt)
  | inr e ↦
      rw e
        (IsPlain-append (digits fuel (n / 10)) _ (digits-IsPlain fuel (n / 10)) (omega arith, tt))
]

timestamp-IsPlain : (t : Tm) → t.year ≤ 9_999 → IsPlain (timestamp t)
unfolding timestamp year_digits two_digits
timestamp-IsPlain t h = rw (le→leb t.year 9_999 h) (omega arith)

stamp-IsPlain : (junk : Bytes) (t : Tm) → t.year ≤ 9_999 → IsPlain (stamp junk t)
unfolding stamp
stamp-IsPlain junk t h = subst IsPlain (sym (stamp_lem junk t h)) (timestamp-IsPlain t h)

name-IsPlain : (level : LogLevel) → IsPlain (pad_right 5 (pretty_name level))
unfolding pad_right
name-IsPlain log_trace = omega arith
name-IsPlain log_debug = omega arith
name-IsPlain log_info = omega arith
name-IsPlain log_warn = omega arith
name-IsPlain log_error = omega arith
name-IsPlain log_fatal = omega arith

place-IsPlain : (msg : LogMsg) → IsPlain msg.file → IsPlain (place msg)
place-IsPlain msg h =
    IsPlain-append msg.file _ h (
      omega arith,
      IsPlain-append (print msg.line) _ (digits-IsPlain 20 msg.line) (omega arith, tt),
    )

-- The line that a message has on standard error, shown without its colours, is the line that it has in a
-- log file: if the year has at most four digits and neither the name of the source file nor the text has an
-- escape sequence.
pub strip-stderr_line :
    (junk : Bytes) (msg : LogMsg)
    → msg.time.year ≤ 9_999
    → IsPlain msg.file
    → IsPlain msg.contents
    → strip false (stderr_line (stamp junk msg.time) msg) ≡ file_line (stamp junk msg.time) msg
unfolding stderr_line file_line strip
strip-stderr_line junk msg year file contents = simp (
  strip-plain _ _ (stamp-IsPlain junk msg.time year),
  strip-pretty_color,
  strip-plain _ _ (name-IsPlain msg.level),
  strip-plain _ _ (place-IsPlain msg file),
  strip-plain _ _ contents,
)
