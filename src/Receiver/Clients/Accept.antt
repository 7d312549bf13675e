-- ===== src/Receiver/Clients/Accept.antt =====
-- A connection that is taken keeps the table linked.
use sik_telnet_radio.Prelude.{
  ℕ, ◌≡◌, refl, ap, sym, ◌∙◌, ◌⊎◌, Bool, List, [], ◌∷◌, ◌++◌, Option, none, some, ◌==◌, Bool-cases,
  inl, inr,
}
use sik_telnet_radio.Outcome.{crash, thrown}
use sik_telnet_radio.Net.{Bytes}
use sik_telnet_radio.Receiver.Screen.{menu_to_str}
use sik_telnet_radio.Receiver.Clients.{
  Client, quiet, Menu, put, client_or_new, client_at, set_client, disconnect_client, write_socket,
  or_disconnect, negotiation, config_client, greet_client, emplace, introduce, welcome,
  accept_new_client,
}
use sik_telnet_radio.Receiver.Clients.Linked.{
  Linked, kept, lost, Forgets-trans, put-Forgets, socket_of, Keeps, Keeps-ok, put-Linked,
  set_client-Linked, client_at-Linked, disconnect_client-Linked, send_msg-Keeps,
}
use sik_telnet_radio.Receiver.Clients.Register.{register_client-least}

module _ (write : List (ℕ × Bytes) → ℕ → Bytes → Bool) where
  write_socket-cases :
      (m : Menu) (socket : Option ℕ) (msg : Bytes)
      → Linked m
      → (write_socket write m socket msg ≡ crash thrown) ⊎ Keeps m (write_socket write m socket msg)
  unfolding write_socket
  write_socket-cases m none msg h = inl refl
  write_socket-cases m (some fd) msg h = elim (Bool-cases (write m.written fd msg)) [
    | inl e ↦ inr (record {
      after = record m { written = m.written ++ (fd, msg) ∷ [] };
      runs = rw e refl;
      linked = h;
      same_shared = refl;
      forgets = λ i. kept refl;
    })
    | inr e ↦ inl (rw e refl)
  ]

  config_client-cases :
      (m : Menu) (id : ℕ)
      → Linked m
      → (config_client write m id ≡ crash thrown) ⊎ Keeps m (config_client write m id)
  unfolding config_client set_client client_at
  config_client-cases m id h =
      elim (write_socket-cases (set_client m id (client_at m id)) (client_at m id).socket
        negotiation (set_client-Linked m id (client_at m id) h (client_at-Linked m id h))) [
          | inl throws ↦ inl throws
          | inr k ↦ inr (record {
            after = k.after;
            runs = k.runs;
            linked = k.linked;
            same_shared = k.same_shared;
            forgets = λ i.
                Forgets-trans (put-Forgets m.clients id (some (client_at m id)) (kept refl) i)
                  (k.forgets i);
          })
        ]

  introduce-Keeps : (m : Menu) (id : ℕ) → Linked m → Keeps m (introduce write (id, m))
  unfolding greet_client disconnect_client
  introduce-Keeps m id h = elim (config_client-cases m id h) [
    | inl throws ↦ record {
      after = disconnect_client m id;
      runs = rw throws refl;
      linked = disconnect_client-Linked m id h;
      same_shared = refl;
      forgets = put-Forgets m.clients id none (lost refl);
    }
    | inr k ↦
        let l = send_msg-Keeps write k.after id (menu_to_str k.after.shared) k.linked in
        record {
          after = l.after;
          runs = rw k.runs (ap (or_disconnect m id) l.runs);
          linked = l.linked;
          same_shared = l.same_shared ∙ k.same_shared;
          forgets = λ i. Forgets-trans (k.forgets i) (l.forgets i);
        }
  ]

  abbrev polled : Menu → ℕ → ℕ → Menu
  polled m id fd = record m {
    poll_fds = put m.poll_fds id (some fd);
    revents = put m.revents id quiet;
  }

  -- A stale entry has no socket, so that the new client is turned away, and the entry goes.
  stale-Keeps :
      (m : Menu) (id fd : ℕ) (c : Client)
      → Linked m
      → m.poll_fds id ≡ none
      → m.clients id ≡ some c
      → Keeps m (introduce write (id, emplace (polled m id fd) id fd (some c)))
  unfolding config_client client_at write_socket disconnect_client
  stale-Keeps m id fd c h free e =
      let m1 = emplace (polled m id fd) id fd (some c) in
      record {
        after = disconnect_client m1 id;
        runs = rw (ap client_or_new e, sym (ap socket_of e) ∙ h id ∙ free) refl;
        linked = λ i. elim (Bool-cases (i == id)) [
          | inl here ↦ rw here refl
          | inr other ↦ rw other (h i)
        ];
        same_shared = refl;
        forgets = put-Forgets m.clients id none (lost refl);
      }

  abbrev new_client : ℕ → Client
  new_client fd = record { socket = some fd; typed = [] }

  registered-Keeps :
      (m : Menu) (id fd : ℕ) (c : Option Client)
      → Linked m
      → m.poll_fds id ≡ none
      → m.clients id ≡ c
      → Keeps m (introduce write (id, emplace (polled m id fd) id fd c))
  unfolding set_client
  registered-Keeps m id fd (some c) h free e = stale-Keeps m id fd c h free e
  registered-Keeps m id fd none h free e =
      let c = new_client fd in
      let k =
        introduce-Keeps (set_client (polled m id fd) id c) id
          (put-Linked m id (some fd) (some c) h refl) in
      record {
        after = k.after;
        runs = k.runs;
        linked = k.linked;
        same_shared = k.same_shared;
        forgets =
            λ i. Forgets-trans (put-Forgets m.clients id (some c) (lost refl) i) (k.forgets i);
      }

  -- A connection is taken, or turned away, without a fault, and the table stays linked.
  pub accept_new_client-Keeps :
      (m : Menu) (accepted : Option ℕ) → Linked m → Keeps m (accept_new_client write m accepted)
  unfolding accept_new_client
  accept_new_client-Keeps m none h = Keeps-ok m h
  accept_new_client-Keeps m (some fd) h = elim (register_client-least m fd) [
    | inl (r, _) ↦
        let k = registered-Keeps m r.id fd (m.clients r.id) h r.free refl in
        record {
          after = k.after;
          runs = ap (welcome write m fd) r.runs ∙ k.runs;
          linked = k.linked;
          same_shared = k.same_shared;
          forgets = k.forgets;
        }
    | inr (throws, _) ↦ record {
      after = record m { closed = m.closed ++ fd ∷ [] };
      runs = ap (welcome write m fd) throws;
      linked = h;
      same_shared = refl;
      forgets = λ i. kept refl;
    }
  ]
