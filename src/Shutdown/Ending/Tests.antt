-- ===== src/Shutdown/Ending/Tests.antt =====
-- Programs that were told to end.
use sik_telnet_radio.Prelude.{drop, refl, arith}
use sik_telnet_radio.Shutdown.{signal_handler, terminate_all, terminate_worker}
use sik_telnet_radio.Shutdown.Ending.{
  Program, ended, polls, works, receiver_workers, sender_workers, receiver_main, sender_main,
  running_program, signalled_program, set_phase, leaves, joins, raises, round, main, Steps, stay,
  next,
}

-- A receiver that gets a signal before its workers' first rounds.
abbrev told_receiver : Program
told_receiver = signalled_program receiver_workers (running_program receiver_main)

-- The menu has ended.
abbrev menu_ended : Program
menu_ended = set_phase 6 ended told_receiver

abbrev menu_ends : Steps receiver_workers told_receiver menu_ended
unfolding signalled_program signal_handler terminate_all terminate_worker
menu_ends = next stay (round 6 (omega arith) (leaves refl refl))

-- A sender whose input is at its end.
abbrev silent_sender : Program
silent_sender =
    set_phase 2 ended (set_phase 2 works (set_phase 2 polls (running_program sender_main)))

-- `main` joins it and raises the signal.
abbrev silent_told : Program
silent_told =
    record (signalled_program sender_workers (record silent_sender { main = drop 1 sender_main })) {
      main = drop 2 sender_main;
    }

abbrev silent_ends : Steps sender_workers silent_sender silent_told
unfolding set_phase
silent_ends = next (next stay (main (joins refl refl))) (main (raises refl))
