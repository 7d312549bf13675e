-- ===== src/Logging/Fits.antt =====
-- The buffers of common/log.cc hold what `strftime` writes.
use sik_telnet_radio.Prelude.{◌+◌, ◌≤◌, ◌≡◌, refl, ap, le→leb, length, some}
use sik_telnet_radio.Net.{Bytes}
use sik_telnet_radio.Logging.{
  Tm, strftime, timestamp, timestamp_len, filename, logfile_len, year_digits, two_digits, or_else,
  stamp,
}

length-timestamp : (t : Tm) → t.year ≤ 9_999 → length (timestamp t) ≡ 21
unfolding timestamp year_digits two_digits
length-timestamp t h = rw (le→leb t.year 9_999 h) refl

length-filename : (t : Tm) → t.year ≤ 9_999 → length (filename t) ≡ 34
unfolding filename year_digits two_digits
length-filename t h = rw (le→leb t.year 9_999 h) refl

-- Up to the year 9999 the time of a message and the name of a log file, with the byte that ends them, fit
-- into their buffers.
pub strftime-fits :
    (t : Tm)
    → t.year ≤ 9_999
    → (strftime (timestamp_len + 1) (timestamp t) ≡ some (timestamp t))
      × (strftime logfile_len (filename t) ≡ some (filename t))
strftime-fits t h = (rw (length-timestamp t h) refl, rw (length-filename t h) refl)

pub stamp_lem : (junk : Bytes) (t : Tm) → t.year ≤ 9_999 → stamp junk t ≡ timestamp t
unfolding stamp
stamp_lem junk t h = ap (λ o. or_else o junk) (strftime-fits t h).0
