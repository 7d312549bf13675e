-- ===== src/Logging.antt =====
-- common/log.cc and common/log.hh: the line of a message, on standard error or in a log file, and `fatal`.
pub mod Colors
pub mod Fits
pub mod Lines
mod Tests
use mathlib.Core.List.{flatten}
use sik_telnet_radio.Prelude.{
  ℕ, zero, suc, ◌+◌, ◌-◌, ◌/◌, ◌%◌, ◌≡◌, Bool, true, false, List, [], ◌∷◌, ◌++◌, Option, none, some,
  leb, ◌==◌, if◌then◌else◌, length, replicate,
}
use sik_telnet_radio.Outcome.{Outcome, ok, crash, fatal, ◌>>=◌}
use sik_telnet_radio.Net.{Bytes}
use sik_telnet_radio.Station.{bytes_eq}
use sik_telnet_radio.Text.{codes, print}

-- `log_level_t`
pub data LogLevel : Type 0 where
  log_trace log_debug log_info log_warn log_error log_fatal : LogLevel

-- `struct tm`, as far as it is printed, with the year and the month as a reader counts them.
pub record Tm : Type 0 where
  pub year : ℕ
  pub month : ℕ
  pub day : ℕ
  pub hour : ℕ
  pub minute : ℕ
  pub second : ℕ

pub record LogMsg : Type 0 where
  pub time : Tm
  pub level : LogLevel
  pub line : ℕ
  pub file : Bytes
  pub contents : Bytes

-- The table `pretty`.
abbrev pub pretty_name : LogLevel → Bytes
pretty_name log_trace = codes "TRACE"
pretty_name log_debug = codes "DEBUG"
pretty_name log_info = codes "INFO"
pretty_name log_warn = codes "WARN"
pretty_name log_error = codes "ERROR"
pretty_name log_fatal = codes "FATAL"

abbrev pub escape : ℕ
escape = 0x1b

abbrev color : ℕ → ℕ → Bytes
color tens units = escape ∷ b'[' ∷ tens ∷ units ∷ b'm' ∷ []

abbrev pub pretty_color : LogLevel → Bytes
pretty_color log_trace = color b'9' b'4'
pretty_color log_debug = color b'3' b'6'
pretty_color log_info = color b'3' b'2'
pretty_color log_warn = color b'3' b'3'
pretty_color log_error = color b'3' b'1'
pretty_color log_fatal = color b'3' b'5'

abbrev pub gray : Bytes
gray = color b'9' b'0'

abbrev pub no_color : Bytes
no_color = escape ∷ codes "[0m"

-- "opened new log file: "
abbrev pub opened_text : Bytes
opened_text = codes "opened new log file: "

-- `%-5s`
unfoldable pub pad_right : ℕ → Bytes → Bytes
pad_right width text = text ++ replicate (width - length text) b' '

-- `strftime` prints the year in four digits or more and the rest in two.
unfoldable pub two_digits : ℕ → Bytes
two_digits n = (b'0' + n / 10 % 10) ∷ (b'0' + n % 10) ∷ []

unfoldable pub year_digits : ℕ → Bytes
year_digits y =
    if leb y 9_999 then (b'0' + y / 1_000) ∷ (b'0' + y / 100 % 10) ∷ two_digits y else print y

abbrev date : ℕ → Tm → Bytes
date separator t =
    year_digits t.year ++ b'-' ∷ two_digits t.month ++ b'-' ∷ two_digits t.day ++ separator ∷ []

abbrev clock : ℕ → Tm → Bytes
clock separator t =
    two_digits t.hour ++ separator ∷ two_digits t.minute ++ separator ∷ two_digits t.second

abbrev pub or_else : Option Bytes → Bytes → Bytes
or_else none junk = junk
or_else (some text) junk = text

-- The buffer's text, or `none` where the text and its end do not fit: then the buffer is indeterminate.
abbrev pub strftime : ℕ → Bytes → Option Bytes
strftime size text = if leb (length text + 1) size then some text else none

abbrev pub timestamp_len : ℕ
timestamp_len = 21

-- "[%Y-%m-%d %H:%M:%S]"
unfoldable pub timestamp : Tm → Bytes
timestamp t = b'[' ∷ date b' ' t ++ clock b':' t ++ b']' ∷ []

abbrev pub logs_dir : Bytes
logs_dir = codes "logs/"

abbrev pub logfile_prefix : Bytes
logfile_prefix = codes "radio-"

abbrev pub logfile_suffix : Bytes
logfile_suffix = codes ".log"

-- `sizeof` counts the end of a literal.
abbrev pub logfile_len : ℕ
logfile_len = length (logs_dir ++ logfile_prefix ++ logfile_suffix) + 1 + timestamp_len - 1

unfoldable pub filename : Tm → Bytes
filename t = logs_dir ++ logfile_prefix ++ date b'-' t ++ clock b'-' t ++ logfile_suffix

abbrev space : Bytes
space = b' ' ∷ []

-- "%s:%zu:"
abbrev pub place : LogMsg → Bytes
place msg = msg.file ++ b':' ∷ (print msg.line ++ b':' ∷ [])

abbrev pub newline : Bytes
newline = b'\n' ∷ []

-- The two formats of `print_log_msg`.
unfoldable pub stderr_line : Bytes → LogMsg → Bytes
unfolding flatten
stderr_line time_buf msg = flatten (
    time_buf
    ∷ space
    ∷ pretty_color msg.level
    ∷ pad_right 5 (pretty_name msg.level)
    ∷ no_color
    ∷ space
    ∷ gray
    ∷ place msg
    ∷ no_color
    ∷ space
    ∷ msg.contents
    ∷ newline
    ∷ [])

unfoldable pub file_line : Bytes → LogMsg → Bytes
unfolding flatten
file_line time_buf msg = flatten (
    time_buf
    ∷ space
    ∷ pad_right 5 (pretty_name msg.level)
    ∷ space
    ∷ place msg
    ∷ space
    ∷ msg.contents
    ∷ newline
    ∷ [])

-- What stands on standard error and in each file, by its name; `logfile` is `none` for standard error.
pub record Streams : Type 0 where
  pub logfile : Option Bytes
  pub stderr : Bytes
  pub file_text : Bytes → Bytes

-- `fprintf` and `fflush` append.
unfoldable pub to_stderr : Bytes → Streams → Streams
to_stderr text w = record w { stderr = w.stderr ++ text }

unfoldable pub to_file : Bytes → Bytes → Streams → Streams
to_file name text w = record w {
  file_text = λ n. if bytes_eq n name then w.file_text n ++ text else w.file_text n;
}

-- `junk` is what an indeterminate buffer holds.
module _ (junk : Bytes) where
  unfoldable pub stamp : Tm → Bytes
  stamp t = or_else (strftime (timestamp_len + 1) (timestamp t)) junk

  pub print_to : Option Bytes → LogMsg → Streams → Streams
  print_to none msg w = to_stderr (stderr_line (stamp msg.time) msg) w
  print_to (some name) msg w = to_file name (file_line (stamp msg.time) msg) w

  unfoldable pub print_log_msg : LogMsg → Streams → Streams
  unfolding print_to
  print_log_msg msg w = print_to w.logfile msg w

-- What the system does: the time of a call, and what `vsnprintf` makes of a format and its arguments.
pub record Call : Type 0 where
  pub level : LogLevel
  pub file : Bytes
  pub line : ℕ
  pub now : Option Tm
  pub formatted : Option Bytes

-- Without a time or a text the program ends with the code 1.
new_msg : Call → Option Bytes → Option Tm → Outcome LogMsg
new_msg call none now = crash fatal
new_msg call (some text) none = crash fatal
new_msg call (some text) (some t) =
    ok
      (record { time = t; level = call.level; line = call.line; file = call.file; contents = text })

unfoldable pub new_log_msg : Call → Outcome LogMsg
unfolding new_msg
new_log_msg call = new_msg call call.formatted call.now

-- `log_impl`
unfoldable pub log_impl : Bytes → Call → Streams → Outcome Streams
log_impl junk call w = do msg ← new_log_msg call; ok (print_log_msg junk msg w)

-- The macro `fatal`: its exit code beside what it has logged. `errno_call` prints what `errno` means.
unfoldable pub fatal_exit : Bytes → ℕ → Call → Call → Streams → Outcome (Streams × ℕ)
fatal_exit junk errno call errno_call w = do
  w' ← log_impl junk (record call { level = log_fatal }) w
  w'' ← if errno == 0 then ok w' else log_impl junk (record errno_call { level = log_fatal }) w'
  ok (w'', if errno == 0 then 1 else errno)

-- `logger_init`: `opens` says whether `fopen` opens the file of a name, and `junk` is as above.
pub opened : Bool → Bytes → Streams → Outcome Streams
opened false name w = crash fatal
opened true name w =
    ok (to_stderr (opened_text ++ name ++ newline) (record w { logfile = some name }))

unfoldable pub logger_init : Bytes → (Bytes → Bool) → Tm → Bool → Streams → Outcome Streams
unfolding opened
logger_init junk opens t log_to_file w =
    let name = or_else (strftime logfile_len (filename t)) junk in
    if log_to_file then opened (opens name) name w else ok (record w { logfile = none })

pub closed : Option Bytes → Bool → Streams → Outcome Streams
closed none closes w = ok w
closed (some name) true w = ok w
closed (some name) false w = crash fatal

-- `closes` says whether `fclose` succeeds.
unfoldable pub logger_destroy : Bool → Streams → Outcome Streams
unfolding closed
logger_destroy closes w = closed w.logfile closes w
