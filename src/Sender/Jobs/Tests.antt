-- ===== src/Sender/Jobs/Tests.antt =====
-- A second job comes while the retransmitter handles the first.
use sik_telnet_radio.Prelude.{◌≡◌, refl, false, [], ◌∷◌}
use sik_telnet_radio.Events.{push, pop, new_jobs}
use sik_telnet_radio.Datagram.{RexmitRequest}
use sik_telnet_radio.Sender.Controller.Tests.{listener, idle}
use sik_telnet_radio.Sender.Jobs.{
  Phase, Sending, queues, notifies, pops, counts, takes, drops, rests, Steps, stay, next, fresh,
  queue_job, notify,
}
use sik_telnet_radio.Sender.Jobs.Kept.{steps-all_handled}

abbrev first : RexmitRequest
first = record { receiver_addr = listener; packet_ids = 3 ∷ [] }

abbrev second : RexmitRequest
second = record { receiver_addr = listener; packet_ids = 7 ∷ 8 ∷ [] }

abbrev done : Sending
done = record {
  controller = idle;
  phase = Phase.idle;
  notifying = false;
  arrived = first ∷ second ∷ [];
  handled = first ∷ second ∷ [];
}

-- The first job is handled while the second is queued, and told of when the first is off the queue.
all_steps : Steps (fresh idle) done
unfolding queue_job notify push pop
all_steps =
    next
      (next
        (next
          (next
            (next
              (next
                (next
                  (next
                    (next
                      (next
                        (next
                          (next (next (next stay (queues first refl)) (notifies refl))
                            (pops {event = new_jobs} {queue = []} refl refl))
                          (counts refl refl))
                        (takes {n = 0} refl refl))
                      (queues second refl))
                    (drops {n = 0} refl refl))
                  (notifies refl))
                (rests refl))
              (pops {event = new_jobs} {queue = []} refl refl))
            (counts refl refl))
          (takes {n = 0} refl refl))
        (drops {n = 0} refl refl))
      (rests refl)

steps-all_handled_example : done.handled ≡ done.arrived
steps-all_handled_example = steps-all_handled refl all_steps refl refl refl
