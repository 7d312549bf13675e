-- ===== src/Events/Tests.antt =====
-- An event queue with two events of which one is taken.
use sik_telnet_radio.Prelude.{◌≡◌, refl, true, [], ◌∷◌, some, map}
use sik_telnet_radio.Outcome.{ok, ◌>>=◌}
use sik_telnet_radio.Events.{push, pop, new_jobs, terminate}
use sik_telnet_radio.Events.Pipe.{
  Pipe, Carries, pushes, pops, run_queue, run_pipe, new_event_queue, destroy_event_queue,
  event_queue-Answers,
}

closes_both :
    destroy_event_queue (λ fd. true) (record { in_fd = 3; out_fd = 4; content = [] })
    ≡ ok (3 ∷ 4 ∷ [])
unfolding destroy_event_queue
closes_both = refl

event_queue-Answers_example :
    (p : Pipe) × ((new_event_queue (some (3, 4)) >>= λ p.
    run_pipe p (pushes new_jobs ∷ pushes terminate ∷ pops ∷ []))
      ≡ ok (map some (new_jobs ∷ []), p))
    × Carries p (terminate ∷ [])
unfolding run_queue push pop
event_queue-Answers_example =
    event_queue-Answers 3 4 (pushes new_jobs ∷ pushes terminate ∷ pops ∷ []) refl
