-- ===== src/Events/Pipe.antt =====
-- The pipe below an `EventQueue` of common/event_queue.cc, as the bytes in it.
use mathlib.Core.List.{flatten}
use mathlib.Core.Option
use mathlib.Core.Option.{some-injective, some-ne-none}
use sik_telnet_radio.Prelude.{
  ℕ, ◌+◌, ◌*◌, ◌/◌, ◌%◌, ◌≡◌, refl, sym, subst, ap, ◌∙◌, Bool, true, List, [], ◌∷◌, ◌++◌, Option,
  none, some, map, ◌==◌, if◌then◌else◌,
}
use sik_telnet_radio.Outcome.{Outcome, ok, crash, fatal, hang, ◌>>=◌}
use sik_telnet_radio.Net.{Bytes}
use sik_telnet_radio.Events.{
  EventType, EventQueue, push, pop, current_station_changed, station_added, station_removed,
  client_added, new_jobs, terminate,
}

-- The values of the enumeration, whose type is int.
abbrev pub enum_value : EventType → ℕ
enum_value current_station_changed = 0
enum_value station_added = 1
enum_value station_removed = 2
enum_value client_added = 3
enum_value new_jobs = 4
enum_value terminate = 5

-- `none` is a value that the enumeration does not have.
abbrev pub of_value : ℕ → Option EventType
of_value n =
    if n == 0
    then some current_station_changed
    else if n == 1
    then some station_added
    else if n == 2
    then some station_removed
    else if n == 3
    then some client_added
    else if n == 4
    then some new_jobs
    else if n == 5
    then some terminate
    else none

-- The four bytes of an int, on a host that puts the lowest first.
abbrev pub int_bytes : ℕ → Bytes
int_bytes n = n % 256 ∷ (n / 256 % 256) ∷ (n / 65_536 % 256) ∷ (n / 16_777_216 % 256) ∷ []

abbrev pub int_of : ℕ → ℕ → ℕ → ℕ → ℕ
int_of a b c d = a + 256 * b + 65_536 * c + 16_777_216 * d

-- The two descriptors and what was written to the one and not read from the other yet.
pub record Pipe : Type 0 where
  pub in_fd : ℕ
  pub out_fd : ℕ
  pub content : Bytes

made : Option (ℕ × ℕ) → Outcome Pipe
made none = crash fatal
made (some (in_fd, out_fd)) = ok (record { in_fd = in_fd; out_fd = out_fd; content = [] })

-- The constructor; `fds` is what `pipe` gives.
unfoldable pub new_event_queue : Option (ℕ × ℕ) → Outcome Pipe
unfolding made
new_event_queue fds = made fds

-- The destructor closes both ends, in this order: the descriptors that were closed.
unfoldable pub destroy_event_queue : (ℕ → Bool) → Pipe → Outcome (List ℕ)
destroy_event_queue closes p =
    if closes p.in_fd
    then (if closes p.out_fd then ok (p.in_fd ∷ p.out_fd ∷ []) else crash fatal)
    else crash fatal

-- `written` says whether `write` takes the event.
unfoldable pub push_bytes : Bool → Pipe → EventType → Outcome Pipe
push_bytes written p event =
    if written
    then ok (record p { content = p.content ++ int_bytes (enum_value event) })
    else crash fatal

-- What `read` gives of a pipe that holds whole events.
read_event : Pipe → Bytes → Option (Option EventType × Pipe)
read_event p (a ∷ b ∷ c ∷ d ∷ rest) = some (of_value (int_of a b c d), record p { content = rest })
read_event p _ = none

-- `none` where a `read` would wait.
unfoldable pub pop_bytes : Pipe → Option (Option EventType × Pipe)
unfolding read_event
pop_bytes p = read_event p p.content

-- The bytes of the events in a queue.
abbrev pub bytes_of : EventQueue → Bytes
bytes_of queue = flatten (map (λ event. int_bytes (enum_value event)) queue)

-- The pipe stands for the queue.
abbrev pub Carries : Pipe → EventQueue → Type 0
Carries p queue = p.content ≡ bytes_of queue

-- What the threads do with a queue, one after another.
pub data QueueOp : Type 0 where
  pushes : EventType → QueueOp
  pops : QueueOp

abbrev after_pop :
    Option (EventType × EventQueue)
    → (EventQueue → Option (List EventType × EventQueue))
    → Option (List EventType × EventQueue)
after_pop none rest = none
after_pop (some (event, queue)) rest =
    Option.map (λ (r : List EventType × EventQueue). (event ∷ r.0, r.1)) (rest queue)

-- The events that are popped and the queue that is left, or `none` where a pop waits.
unfoldable pub run_queue : EventQueue → List QueueOp → Option (List EventType × EventQueue)
run_queue queue [] = some ([], queue)
run_queue queue (pushes event ∷ ops) = run_queue (push queue event) ops
run_queue queue (pops ∷ ops) = after_pop (pop queue) (λ queue'. run_queue queue' ops)

abbrev after_read :
    Option (Option EventType × Pipe)
    → (Pipe → Outcome (List (Option EventType) × Pipe))
    → Outcome (List (Option EventType) × Pipe)
after_read none rest = crash hang
after_read (some (event, p)) rest = rest p >>= λ r. ok (event ∷ r.0, r.1)

-- The same on a pipe whose writes succeed.
unfoldable pub run_pipe : Pipe → List QueueOp → Outcome (List (Option EventType) × Pipe)
run_pipe p [] = ok ([], p)
run_pipe p (pushes event ∷ ops) = push_bytes true p event >>= λ p'. run_pipe p' ops
run_pipe p (pops ∷ ops) = after_read (pop_bytes p) (λ p'. run_pipe p' ops)

-- An event is read as it was written.
read_back :
    (event : EventType)
    → of_value (
        int_of
          (enum_value event % 256)
          (enum_value event / 256 % 256)
          (enum_value event / 65_536 % 256)
          (enum_value event / 16_777_216 % 256))
      ≡ some event
read_back current_station_changed = refl
read_back station_added = refl
read_back station_removed = refl
read_back client_added = refl
read_back new_jobs = refl
read_back terminate = refl

bytes_of-append : (xs ys : EventQueue) → bytes_of (xs ++ ys) ≡ bytes_of xs ++ bytes_of ys
unfolding flatten
bytes_of-append [] ys = refl
bytes_of-append (x ∷ xs) ys =
    ap (λ bytes. int_bytes (enum_value x) ++ bytes) (bytes_of-append xs ys)

pop_bytes-Carries :
    (p : Pipe) (event : EventType) (queue : EventQueue)
    → Carries p (event ∷ queue)
    → pop_bytes p ≡ some (some event, record p { content = bytes_of queue })
unfolding pop_bytes read_event flatten
pop_bytes-Carries p event queue h =
    ap (read_event p) h
    ∙ ap (λ read. some (read, record p { content = bytes_of queue })) (read_back event)

push_bytes-Carries :
    (p : Pipe) (queue : EventQueue) (event : EventType)
    → Carries p queue
    → p.content ++ int_bytes (enum_value event) ≡ bytes_of (push queue event)
unfolding push flatten
push_bytes-Carries p queue event h =
    ap (λ bytes. bytes ++ int_bytes (enum_value event)) h ∙ sym (bytes_of-append queue (event ∷ []))

abbrev Answers : Pipe → List QueueOp → List EventType → EventQueue → Type 0
Answers p ops events queue =
    (p' : Pipe) × (run_pipe p ops ≡ ok (map some events, p')) × Carries p' queue

run-Answers :
    (ops : List QueueOp) (p : Pipe) (queue : EventQueue)
    → Carries p queue
    → {events : List EventType} {left : EventQueue} → run_queue queue ops ≡ some (events, left)
    → Answers p ops events left
unfolding run_queue run_pipe push_bytes pop flatten
run-Answers [] p queue h e =
    let same = some-injective _ _ e in
    (p, ap (λ r. ok (map some r.0, p)) same, subst (Carries p) (ap (λ r. r.1) same) h)
run-Answers (pushes event ∷ ops) p queue h e =
    run-Answers ops (record p { content = p.content ++ int_bytes (enum_value event) })
      (push queue event) (push_bytes-Carries p queue event h) e
run-Answers (pops ∷ ops) p [] h e = absurd (some-ne-none _ (sym e))
run-Answers (pops ∷ ops) p (event ∷ queue) h e =
    let (r, runs, same) = (Option.map-eq-some_iff _ (run_queue queue ops)).0 e in
    let (p', run, carries) =
      run-Answers ops (record p { content = bytes_of queue }) queue refl runs in
    (
      p',
      rw (pop_bytes-Carries p event queue h)
          (rw run (ap (λ (o : List EventType × EventQueue). ok (map some o.0, p')) same)),
      subst (Carries p') (ap (λ o. o.1) same) carries,
    )

-- However threads push and pop the events of a new queue, its pipe gives the events of the queue, in the order
-- in which they came, and holds what is left of it, if no write fails and no pop has to wait.
pub event_queue-Answers :
    (in_fd out_fd : ℕ) (ops : List QueueOp) {events : List EventType} {left : EventQueue}
    → run_queue [] ops ≡ some (events, left)
    → (p : Pipe) × ((new_event_queue (some (in_fd, out_fd)) >>= λ p. run_pipe p ops)
        ≡ ok (map some events, p))
      × Carries p left
unfolding new_event_queue made flatten
event_queue-Answers in_fd out_fd ops e =
    run-Answers ops (record { in_fd = in_fd; out_fd = out_fd; content = [] }) [] refl e
