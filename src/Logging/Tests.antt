-- ===== src/Logging/Tests.antt =====
-- Messages of a morning in June.
use sik_telnet_radio.Prelude.{◌+◌, ◌≡◌, refl, true, false, [], ◌∷◌, ◌++◌, none, some, arith}
use sik_telnet_radio.Outcome.{ok}
use sik_telnet_radio.Net.{Bytes}
use sik_telnet_radio.Station.{bytes_eq}
use sik_telnet_radio.Text.{codes, digits}
use sik_telnet_radio.Logging.{
  Tm, LogMsg, Call, Streams, log_info, log_fatal, strftime, timestamp, timestamp_len, filename,
  logfile_len, stamp, stderr_line, file_line, year_digits, two_digits, pad_right, opened_text,
  newline, new_log_msg, fatal_exit, log_impl, print_log_msg, print_to, to_stderr,
}
use sik_telnet_radio.Logging.Fits.{strftime-fits}
use sik_telnet_radio.Logging.Colors.{strip, strip-stderr_line}
use sik_telnet_radio.Logging.Lines.{lines, session, session-lines}

abbrev morning : Tm
morning = record { year = 2023; month = 6; day = 1; hour = 9; minute = 5; second = 30 }

abbrev greeting : LogMsg
greeting = record {
  time = morning;
  level = log_info;
  line = 42;
  file = codes "a.cc";
  contents = codes "hello";
}

abbrev said : Call
said = record {
  level = log_info;
  file = codes "a.cc";
  line = 42;
  now = some morning;
  formatted = some (codes "hello");
}

abbrev quiet : Streams
quiet = record { logfile = none; stderr = []; file_text = λ name. [] }

line_printed :
    file_line (timestamp morning) greeting ≡ codes "[2023-06-01 09:05:30] INFO  a.cc:42: hello\n"
unfolding file_line timestamp year_digits two_digits pad_right digits
line_printed = refl

name_made : filename morning ≡ codes "logs/radio-2023-06-01-09-05-30.log"
unfolding filename year_digits two_digits
name_made = refl

-- The exit code is `errno`, which is logged too.
exits :
    fatal_exit [] 2 said said quiet
    ≡ ok (
      to_stderr (stderr_line (stamp [] morning) (record greeting { level = log_fatal })) (
          to_stderr (stderr_line (stamp [] morning) (record greeting { level = log_fatal })) quiet),
      2,
    )
unfolding fatal_exit log_impl new_log_msg print_log_msg print_to to_stderr
exits = refl

strftime-fits_example :
    (strftime (timestamp_len + 1) (timestamp morning) ≡ some (timestamp morning))
    × (strftime logfile_len (filename morning) ≡ some (filename morning))
strftime-fits_example = strftime-fits morning (omega arith)

strip-stderr_line_example :
    strip false (stderr_line (stamp [] morning) greeting) ≡ file_line (stamp [] morning) greeting
strip-stderr_line_example = strip-stderr_line [] greeting (omega arith) (omega arith) (omega arith)

session-lines_example :
    (w' : Streams) × (session [] (λ name. true) true morning (said ∷ said ∷ []) quiet ≡ ok w')
    × (w'.file_text (filename morning)
        ≡ quiet.file_text (filename morning) ++ lines [] (greeting ∷ greeting ∷ []))
    × (w'.stderr ≡ quiet.stderr ++ (opened_text ++ filename morning ++ newline))
    × ((n : Bytes) → bytes_eq n (filename morning) ≡ false → w'.file_text n ≡ quiet.file_text n)
unfolding new_log_msg
session-lines_example =
    session-lines [] (λ name. true) morning (said ∷ said ∷ []) (greeting ∷ greeting ∷ []) quiet
      (omega arith) refl (refl, (refl, tt))
