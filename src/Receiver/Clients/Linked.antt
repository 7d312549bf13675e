-- ===== src/Receiver/Clients/Linked.antt =====
-- Every descriptor that is polled is the socket of its client.
use sik_telnet_radio.Prelude.{
  ℕ, zero, suc, ◌+◌, ◌≡◌, refl, ap, sym, ◌∙◌, subst, Bool, true, false, List, [], ◌∷◌, ◌++◌, Option,
  none, some, ◌==◌, if◌then◌else◌, Bool-cases, inl, inr, ==_iff,
}
use sik_telnet_radio.Outcome.{Outcome, ok, ◌>>=◌}
use sik_telnet_radio.Net.{Bytes}
use sik_telnet_radio.Receiver.Screen.{clear}
use sik_telnet_radio.Receiver.Clients.{
  Client, Menu, put, client_or_new, client_at, set_client, disconnect_client, reset_client_input,
  write_socket, or_disconnect, send_msg, is_open, send_from, send_to_all,
}

abbrev pub socket_of : Option Client → Option ℕ
socket_of none = none
socket_of (some client) = client.socket

-- An id without a descriptor may have a client that was made by `_clients[id]`, without a socket.
abbrev pub Linked : Menu → Type 0
Linked m = (id : ℕ) → socket_of (m.clients id) ≡ m.poll_fds id

abbrev pub typed_by : Option Client → Bytes
typed_by c = (client_or_new c).typed

-- What a client typed is still there, or is forgotten.
pub data Forgets (c c' : Option Client) : Type 0 where
  kept : typed_by c' ≡ typed_by c → Forgets c c'
  lost : typed_by c' ≡ [] → Forgets c c'

pub Forgets-trans : {a b c : Option Client} → Forgets a b → Forgets b c → Forgets a c
Forgets-trans h (lost e) = lost e
Forgets-trans (kept h) (kept e) = kept (e ∙ h)
Forgets-trans (lost h) (kept e) = lost (e ∙ h)

pub put-Forgets :
    (f : ℕ → Option Client) (id : ℕ) (c : Option Client)
    → Forgets (f id) c
    → (i : ℕ) → Forgets (f i) (put f id c i)
put-Forgets f id c h i = elim (Bool-cases (i == id)) [
  | inl e ↦ rw e (subst (λ j. Forgets (f j) c) (sym ((==_iff i id).0 e)) h)
  | inr e ↦ rw e (kept refl)
]

-- A run that ends without a fault, links what it leaves, and does not touch the
-- stations. What the clients typed may be forgotten.
pub record Keeps (m : Menu) (run : Outcome Menu) : Type 0 where
  pub after : Menu
  pub runs : run ≡ ok after
  pub linked : Linked after
  pub same_shared : after.shared ≡ m.shared
  pub forgets : (i : ℕ) → Forgets (m.clients i) (after.clients i)

pub Keeps-ok : (m : Menu) → Linked m → Keeps m (ok m)
Keeps-ok m h = record {
  after = m;
  runs = refl;
  linked = h;
  same_shared = refl;
  forgets = λ i. kept refl;
}

pub Keeps-bind :
    {m : Menu} {run : Outcome Menu} {next : Menu → Outcome Menu}
    → Keeps m run
    → ((m' : Menu) → Linked m' → Keeps m' (next m'))
    → Keeps m (run >>= next)
Keeps-bind {next} k f =
    let l = f k.after k.linked in
    record {
      after = l.after;
      runs = ap (λ r. r >>= next) k.runs ∙ l.runs;
      linked = l.linked;
      same_shared = l.same_shared ∙ k.same_shared;
      forgets = λ i. Forgets-trans (k.forgets i) (l.forgets i);
    }

pub put-Linked :
    (m : Menu) (id : ℕ) (p : Option ℕ) (c : Option Client)
    → Linked m
    → socket_of c ≡ p
    → (i : ℕ) → socket_of (put m.clients id c i) ≡ put m.poll_fds id p i
put-Linked m id p c h new i = elim (Bool-cases (i == id)) [ inl e ↦ rw e new | inr e ↦ rw e (h i) ]

-- Setting a client alone is setting both with the descriptor that is there.
pub set_client-Linked :
    (m : Menu) (id : ℕ) (c : Client)
    → Linked m
    → c.socket ≡ m.poll_fds id
    → Linked (set_client m id c)
unfolding set_client
set_client-Linked m id c h new i = elim (Bool-cases (i == id)) [
  | inl e ↦ rw e (new ∙ ap m.poll_fds (sym ((==_iff i id).0 e)))
  | inr e ↦ rw e (h i)
]

new_socket : (c : Option Client) → (client_or_new c).socket ≡ socket_of c
new_socket none = refl
new_socket (some c) = refl

pub client_at-Linked : (m : Menu) (id : ℕ) → Linked m → (client_at m id).socket ≡ m.poll_fds id
unfolding client_at
client_at-Linked m id h = new_socket (m.clients id) ∙ h id

pub disconnect_client-Linked : (m : Menu) (id : ℕ) → Linked m → Linked (disconnect_client m id)
unfolding disconnect_client
disconnect_client-Linked m id h = put-Linked m id none none h refl

pub reset_client_input-Linked : (m : Menu) (id : ℕ) → Linked m → Linked (reset_client_input m id)
unfolding reset_client_input
reset_client_input-Linked m id h = set_client-Linked m id _ h (client_at-Linked m id h)

module _ (write : List (ℕ × Bytes) → ℕ → Bytes → Bool) where
  -- A write gets through and changes no link, or throws.
  pub write_socket-or_disconnect :
      (m : Menu) (id : ℕ) (socket : Option ℕ) (msg : Bytes)
      → Linked m
      → Keeps m (or_disconnect m id (write_socket write m socket msg))
  unfolding write_socket disconnect_client
  write_socket-or_disconnect m id none msg h = record {
    after = disconnect_client m id;
    runs = refl;
    linked = disconnect_client-Linked m id h;
    same_shared = refl;
    forgets = put-Forgets m.clients id none (lost refl);
  }
  write_socket-or_disconnect m id (some fd) msg h = elim (Bool-cases (write m.written fd msg)) [
    | inl e ↦ record {
      after = record m { written = m.written ++ (fd, msg) ∷ [] };
      runs = rw e refl;
      linked = h;
      same_shared = refl;
      forgets = λ i. kept refl;
    }
    | inr e ↦ record {
      after = disconnect_client m id;
      runs = rw e refl;
      linked = disconnect_client-Linked m id h;
      same_shared = refl;
      forgets = put-Forgets m.clients id none (lost refl);
    }
  ]

  pub send_msg-Keeps :
      (m : Menu) (id : ℕ) (msg : Bytes) → Linked m → Keeps m (send_msg write m id msg)
  unfolding send_msg set_client client_at
  send_msg-Keeps m id msg h =
      let k =
        write_socket-or_disconnect (set_client m id (client_at m id)) id (client_at m id).socket
          (clear ++ msg) (set_client-Linked m id (client_at m id) h (client_at-Linked m id h)) in
      record {
        after = k.after;
        runs = k.runs;
        linked = k.linked;
        same_shared = k.same_shared;
        forgets = λ i.
            Forgets-trans (put-Forgets m.clients id (some (client_at m id)) (kept refl) i)
              (k.forgets i);
      }

  send_from-Keeps :
      (n : ℕ) (m : Menu) (id : ℕ) (msg : Bytes) → Linked m → Keeps m (send_from write n m id msg)
  unfolding send_from
  send_from-Keeps zero m id msg h = Keeps-ok m h
  send_from-Keeps (suc n) m id msg h =
      Keeps-bind (if_open (is_open (m.poll_fds id))) (λ m' h'. send_from-Keeps n m' (id + 1) msg h')
    where
      if_open : (b : Bool) → Keeps m (if b then send_msg write m id msg else ok m)
      if_open true = send_msg-Keeps m id msg h
      if_open false = Keeps-ok m h

  pub send_to_all-Keeps : (m : Menu) (msg : Bytes) → Linked m → Keeps m (send_to_all write m msg)
  unfolding send_to_all
  send_to_all-Keeps m msg h = send_from-Keeps _ m _ msg h
