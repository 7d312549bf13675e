-- ===== src/Logging/Lines.antt =====
-- What a run that logs to a file leaves in it.
use mathlib.Core.List.{flatten}
use sik_telnet_radio.Prelude.{
  ◌≤◌, ◌≡◌, refl, sym, subst, ap, ◌∙◌, Bool, true, false, List, [], ◌∷◌, ◌++◌, Option, none, some,
  append-nil, append_assoc, map,
}
use sik_telnet_radio.Outcome.{Outcome, ok, ◌>>=◌}
use sik_telnet_radio.Net.{Bytes}
use sik_telnet_radio.Station.{bytes_eq, bytes_eq_refl}
use sik_telnet_radio.Logging.{
  Tm, LogMsg, Call, Streams, filename, opened_text, newline, stamp, file_line, to_file, to_stderr,
  new_log_msg, print_to, print_log_msg, opened, closed, log_impl, logger_init, logger_destroy,
}
use sik_telnet_radio.Logging.Fits.{strftime-fits}

-- Messages, one after another.
unfoldable pub log_all : Bytes → List Call → Streams → Outcome Streams
log_all junk [] w = ok w
log_all junk (call ∷ calls) w = log_impl junk call w >>= λ w'. log_all junk calls w'

-- The calls make these messages.
abbrev pub Makes : List Call → List LogMsg → Type 0
Makes [] [] = Unit
Makes [] (msg ∷ msgs) = ⊥
Makes (call ∷ calls) [] = ⊥
Makes (call ∷ calls) (msg ∷ msgs) = (new_log_msg call ≡ ok msg) × Makes calls msgs

abbrev pub lines : Bytes → List LogMsg → Bytes
lines junk msgs = flatten (map (λ (msg : LogMsg). file_line (stamp junk msg.time) msg) msgs)

-- A file has grown by `text`, and all else is as it was.
pub record Grown (name text : Bytes) (w w' : Streams) : Type 0 where
  pub same_logfile : w'.logfile ≡ w.logfile
  pub same_stderr : w'.stderr ≡ w.stderr
  pub grown : w'.file_text name ≡ w.file_text name ++ text
  pub others : (n : Bytes) → bytes_eq n name ≡ false → w'.file_text n ≡ w.file_text n

print_log_msg-Grown :
    (junk name : Bytes) (msg : LogMsg) (w : Streams)
    → w.logfile ≡ some name
    → Grown name (file_line (stamp junk msg.time) msg) w (print_log_msg junk msg w)
unfolding print_log_msg print_to to_file
print_log_msg-Grown junk name msg w e =
    subst (λ l. Grown name (file_line (stamp junk msg.time) msg) w (print_to junk l msg w)) (sym e)
      (record {
        same_logfile = refl;
        same_stderr = refl;
        grown = rw (bytes_eq_refl name) refl;
        others = λ n k. rw k refl;
      })

log_all-Grown :
    (junk name : Bytes) (calls : List Call) (msgs : List LogMsg) (w : Streams)
    → w.logfile ≡ some name
    → Makes calls msgs
    → (w' : Streams) × (log_all junk calls w ≡ ok w') × Grown name (lines junk msgs) w w'
unfolding log_all log_impl flatten
log_all-Grown junk name [] [] w e h = (
  w,
  refl,
  record {
    same_logfile = refl;
    same_stderr = refl;
    grown = sym (append-nil _);
    others = λ n k. refl;
  },
)
log_all-Grown junk name [] (msg ∷ msgs) w e h = absurd h
log_all-Grown junk name (call ∷ calls) [] w e h = absurd h
log_all-Grown junk name (call ∷ calls) (msg ∷ msgs) w e h =
    let first = print_log_msg-Grown junk name msg w e in
    let (w', run, rest) =
      log_all-Grown junk name calls msgs (print_log_msg junk msg w) (first.same_logfile ∙ e) h.1 in
    (
      w',
      rw h.0 run,
      record {
        same_logfile = rest.same_logfile ∙ first.same_logfile;
        same_stderr = rest.same_stderr ∙ first.same_stderr;
        grown =
            rest.grown
            ∙ ap (λ text. text ++ lines junk msgs) first.grown
            ∙ append_assoc (w.file_text name) _ _;
        others = λ n k. rest.others n k ∙ first.others n k;
      },
    )

-- A run of the program that logs to a file. `closes` says whether `fclose` succeeds.
unfoldable pub session : Bytes → (Bytes → Bool) → Bool → Tm → List Call → Streams → Outcome Streams
session junk opens closes t calls w =
    logger_init junk opens t true w >>= λ w'. log_all junk calls w' >>= logger_destroy closes

init_opens :
    (junk : Bytes) (opens : Bytes → Bool) (t : Tm) (w : Streams)
    → t.year ≤ 9_999
    → opens (filename t) ≡ true
    → logger_init junk opens t true w
      ≡ ok (
          to_stderr
            (opened_text ++ filename t ++ newline)
            (record w { logfile = some (filename t) }))
unfolding logger_init opened
init_opens junk opens t w year can_open = rw (strftime-fits t year).1 (rw can_open refl)

destroy_closes : (l : Option Bytes) (w : Streams) → closed l true w ≡ ok w
unfolding closed
destroy_closes none w = refl
destroy_closes (some name) w = refl

-- A run that logs to a file, whose year has at most four digits, opens the file that is named by the time and
-- appends the lines of all messages to it in their order; standard error gets the name of the file alone, and
-- the other files stay as they are. It ends without a fault if the file can be opened and closed and each
-- message has its time and text.
pub session-lines :
    (junk : Bytes) (opens : Bytes → Bool) (t : Tm) (calls : List Call) (msgs : List LogMsg)
    (w : Streams)
    → t.year ≤ 9_999
    → opens (filename t) ≡ true
    → Makes calls msgs
    → (w' : Streams) × (session junk opens true t calls w ≡ ok w')
      × (w'.file_text (filename t) ≡ w.file_text (filename t) ++ lines junk msgs)
      × (w'.stderr ≡ w.stderr ++ (opened_text ++ filename t ++ newline))
      × ((n : Bytes) → bytes_eq n (filename t) ≡ false → w'.file_text n ≡ w.file_text n)
unfolding session logger_destroy to_stderr
session-lines junk opens t calls msgs w year can_open makes =
    let w0 =
      to_stderr (opened_text ++ filename t ++ newline) (record w { logfile = some (filename t) }) in
    let (w', run, g) = log_all-Grown junk (filename t) calls msgs w0 refl makes in
    (
      w',
      rw (init_opens junk opens t w year can_open) (rw run (destroy_closes w'.logfile w')),
      g.grown,
      g.same_stderr,
      g.others,
    )
