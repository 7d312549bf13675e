-- ===== src/Locks/Sender.antt =====
-- What the handlers of the sender's workers lock: sender/audio_sender.cc, controller.cc, retransmitter.cc
-- and the signal handler.
pub mod Order
use sik_telnet_radio.Prelude.{ℕ, zero, suc, ◌+◌, ◌<◌, ◌≡◌, Bool, List, [], ◌∷◌, ◌++◌, if◌then◌else◌}
use sik_telnet_radio.Locks.{LockOp, access, locking, lock_discarded}

-- The workers' numbers.
abbrev pub retransmitter : ℕ
retransmitter = 0

abbrev pub controller : ℕ
controller = 1

abbrev pub audio_sender : ℕ
audio_sender = 2

abbrev pub num_workers : ℕ
num_workers = 3

-- The mutexes, numbered in the order in which the workers take them.
abbrev pub rexmit_job_queue : ℕ
rexmit_job_queue = 0

abbrev pub packet_cache : ℕ
packet_cache = 1

abbrev pub event_queue : ℕ → ℕ
event_queue worker = 2 + worker

-- The packet size is read above the lock, which is held on every way out.
handle_retransmission_locks : List LockOp
handle_retransmission_locks = access packet_cache ∷ locking packet_cache (access packet_cache ∷ [])

-- `while (new_jobs--)`: `front` and `pop` take no lock.
pub jobs_done_locks : ℕ → List LockOp
unfolding handle_retransmission_locks
jobs_done_locks zero = []
jobs_done_locks (suc new_jobs) =
    access rexmit_job_queue ∷ handle_retransmission_locks
    ++ access rexmit_job_queue ∷ jobs_done_locks new_jobs

-- The loop of the signal handler from `worker - 1` down to 0, for those that were not signalled before; its
-- locks are temporaries.
pub terminate_all_locks : (ℕ → Bool) → ℕ → List LockOp
terminate_all_locks signalled zero = []
terminate_all_locks signalled (suc worker) =
    (if signalled worker
      then []
      else lock_discarded (event_queue worker) ++ access (event_queue worker) ∷ [])
    ++ terminate_all_locks signalled worker

send_packet_locks : List LockOp
send_packet_locks = locking packet_cache (access packet_cache ∷ [])

handle_rexmit_request_locks : List LockOp
handle_rexmit_request_locks = locking rexmit_job_queue (
    access rexmit_job_queue
    ∷ locking (event_queue retransmitter) (access (event_queue retransmitter) ∷ []))

new_jobs_locks : ℕ → List LockOp
new_jobs_locks new_jobs =
    locking rexmit_job_queue (access rexmit_job_queue ∷ []) ++ jobs_done_locks new_jobs

-- A call of a handler; a round of the retransmitter finds so many new jobs.
pub data Call : Type 0 where
  send_packet handle_lookup_request handle_rexmit_request : Call
  new_jobs_done : (new_jobs : ℕ) → Call
  event_popped : (worker : ℕ) → Call
  signal_handled : (worker : ℕ) (signalled : ℕ → Bool) → Call

unfoldable pub path : Call → List LockOp
unfolding send_packet_locks handle_rexmit_request_locks new_jobs_locks terminate_all_locks
path send_packet = send_packet_locks
path handle_lookup_request = []
path handle_rexmit_request = handle_rexmit_request_locks
path (new_jobs_done new_jobs) = new_jobs_locks new_jobs
path (event_popped worker) = access (event_queue worker) ∷ []
path (signal_handled worker signalled) = terminate_all_locks signalled num_workers

-- The thread that makes the call; a signal's handler runs in any, and in `main`, which raises the signal.
unfoldable pub worker_of : Call → ℕ
worker_of send_packet = audio_sender
worker_of handle_lookup_request = controller
worker_of handle_rexmit_request = controller
worker_of (new_jobs_done new_jobs) = retransmitter
worker_of (event_popped worker) = worker
worker_of (signal_handled worker signalled) = worker

-- The threads that may make the call have a number below this: the thread behind the workers is `main`, which
-- runs no handler but the signal's.
unfoldable pub thread_limit : Call → ℕ
thread_limit (signal_handled worker signalled) = suc num_workers
thread_limit _ = num_workers

abbrev pub Handles : ℕ → List LockOp → Type 0
Handles i ops = (call : Call) × (i < thread_limit call) × (worker_of call ≡ i) × (path call ≡ ops)
