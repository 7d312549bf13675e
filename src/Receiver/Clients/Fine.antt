-- ===== src/Receiver/Clients/Fine.antt =====
-- What the loop keeps of the menu, and what the operations on one client keep of it.
use sik_telnet_radio.Prelude.{
  ℕ, ◌≡◌, refl, ap, sym, ◌∙◌, subst, false, Option, none, ◌==◌, Bool-cases, inl, inr,
}
use sik_telnet_radio.Outcome.{Outcome, ok, ◌>>=◌}
use sik_telnet_radio.Net.{Bytes}
use sik_telnet_radio.Receiver.Stations.Current.{CurrentIn}
use sik_telnet_radio.Receiver.Clients.{
  Client, Menu, put, client_at, set_client, disconnect_client, reset_client_input,
}
use sik_telnet_radio.Receiver.Clients.Linked.{
  Linked, Keeps, typed_by, Forgets, kept, lost, put-Forgets, set_client-Linked, client_at-Linked,
  disconnect_client-Linked, reset_client_input-Linked,
}
use sik_telnet_radio.Receiver.Clients.Typing.{IsTyping}
use sik_telnet_radio.Receiver.Menu.Keys.{idle}

-- The table is linked, the current station is one of the stations, and no client has typed what is no
-- beginning of a command.
pub record IsFine (m : Menu) : Type 0 where
  pub linked : Linked m
  pub current : CurrentIn m.shared
  pub typing : (i : ℕ) → IsTyping (typed_by (m.clients i))

abbrev pub Serves : Outcome Menu → Type 0
Serves run = (m' : Menu) × (run ≡ ok m') × IsFine m'

pub forgetful :
    (c c' : Option Client) → Forgets c c' → IsTyping (typed_by c) → IsTyping (typed_by c')
forgetful c c' (kept e) (k, h) = (k, e ∙ h)
forgetful c c' (lost e) (k, h) = (idle, e)

pub serves : {m : Menu} {run : Outcome Menu} → Keeps m run → IsFine m → Serves run
serves {m} k h = (
  k.after,
  k.runs,
  record {
    linked = k.linked;
    current = subst CurrentIn (sym k.same_shared) h.current;
    typing = λ i. forgetful (m.clients i) (k.after.clients i) (k.forgets i) (h.typing i);
  },
)

pub Serves-bind :
    {run : Outcome Menu} {next : Menu → Outcome Menu}
    → Serves run
    → ((m' : Menu) → IsFine m' → Serves (next m'))
    → Serves (run >>= next)
Serves-bind {next} (m1, runs1, h1) f =
    let (m2, runs2, h2) = f m1 h1 in (m2, ap (λ r. r >>= next) runs1 ∙ runs2, h2)

-- Another client, with the socket that is polled.
pub set_client-typing :
    (m : Menu) (id : ℕ) (c : Client)
    → ((i : ℕ) → IsTyping (typed_by (m.clients i)))
    → IsTyping c.typed
    → (i : ℕ) → IsTyping (typed_by ((set_client m id c).clients i))
unfolding set_client
set_client-typing m id c h new i = elim (Bool-cases (i == id)) [
  | inl e ↦ rw e new
  | inr e ↦ rw e (h i)
]

pub set_client-IsFine :
    (m : Menu) (id : ℕ) (typed : Bytes)
    → IsFine m
    → IsTyping typed
    → IsFine (set_client m id (record (client_at m id) { typed = typed }))
set_client-IsFine m id typed h new = record {
  linked = set_client-Linked m id _ h.linked (client_at-Linked m id h.linked);
  current = unfold set_client in h.current;
  typing = set_client-typing m id _ h.typing new;
}

pub disconnect_client-IsFine : (m : Menu) (id : ℕ) → IsFine m → IsFine (disconnect_client m id)
unfolding disconnect_client
disconnect_client-IsFine m id h = record {
  linked = disconnect_client-Linked m id h.linked;
  current = h.current;
  typing = λ i.
      forgetful (m.clients i) (put m.clients id none i)
        (put-Forgets m.clients id none (lost refl) i) (h.typing i);
}

-- The same, but for what client `id` typed.
pub record IsFineBut (m : Menu) (id : ℕ) : Type 0 where
  pub linked : Linked m
  pub current : CurrentIn m.shared
  pub typing : (i : ℕ) → (i == id) ≡ false → IsTyping (typed_by (m.clients i))

pub typed-IsFineBut :
    (m : Menu) (id : ℕ) (typed : Bytes)
    → IsFine m
    → IsFineBut (set_client m id (record (client_at m id) { typed = typed })) id
unfolding set_client
typed-IsFineBut m id typed h = record {
  linked = unfold set_client in set_client-Linked m id _ h.linked (client_at-Linked m id h.linked);
  current = h.current;
  typing = λ i other. rw other (h.typing i);
}

pub reset_client_input-IsFine :
    (m : Menu) (id : ℕ) → IsFineBut m id → IsFine (reset_client_input m id)
unfolding reset_client_input set_client
reset_client_input-IsFine m id h = record {
  linked = reset_client_input-Linked m id h.linked;
  current = h.current;
  typing = λ i. elim (Bool-cases (i == id)) [
    | inl here ↦ rw here (idle, refl)
    | inr other ↦ rw other (h.typing i other)
  ];
}
