-- ===== src/Events/Waits.antt =====
-- An event that waits in a queue.
use mathlib.Core.List.{nil≢cons}
use mathlib.Core.Option.{some-injective, some-ne-none}
use sik_telnet_radio.Prelude.{◌≡◌, ap, sym, [], ◌∷◌, ◌++◌, some}
use sik_telnet_radio.Events.{EventType, EventQueue, pop}

pub data Waits (wanted : EventType) : EventQueue → Type 0 where
  here : {queue : EventQueue} → Waits wanted (wanted ∷ queue)
  later :
      {event : EventType} {queue : EventQueue} → Waits wanted queue → Waits wanted (event ∷ queue)

module _ {wanted : EventType} where
  pub Waits-push : (queue : EventQueue) → Waits wanted (queue ++ wanted ∷ [])
  Waits-push [] = here
  Waits-push (e ∷ queue) = later (Waits-push queue)

  pub Waits-more :
      {queue : EventQueue} (event : EventType)
      → Waits wanted queue
      → Waits wanted (queue ++ event ∷ [])
  Waits-more event here = here
  Waits-more event (later w) = later (Waits-more event w)

  pub Waits-nil : {queue : EventQueue} → Waits wanted queue → ¬ (queue ≡ [])
  Waits-nil here e = nil≢cons (sym e)
  Waits-nil (later w) e = nil≢cons (sym e)

pub pop-cons :
    (queue : EventQueue) {event : EventType} {rest : EventQueue}
    → pop queue ≡ some (event, rest)
    → queue ≡ event ∷ rest
unfolding pop
pop-cons [] e = absurd (some-ne-none _ (sym e))
pop-cons (x ∷ queue) e = ap (λ pair. pair.0 ∷ pair.1) (some-injective _ _ e)
