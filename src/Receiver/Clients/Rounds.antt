-- ===== src/Receiver/Clients/Rounds.antt =====
-- The loop keeps the table linked and the current station among the stations.
use sik_telnet_radio.Prelude.{
  ℕ, zero, suc, ◌+◌, ◌≡◌, refl, sym, subst, Bool, true, false, List, [], ◌∷◌, ◌++◌, Option, none,
  some, if◌then◌else◌, length, lt→ltb,
}
use sik_telnet_radio.Outcome.{Outcome, ok}
use sik_telnet_radio.Net.{Bytes}
use sik_telnet_radio.Events.{
  EventType, terminate, station_added, station_removed, current_station_changed, client_added,
  new_jobs,
}
use sik_telnet_radio.Receiver.Stations.Current.{CurrentIn}
use sik_telnet_radio.Receiver.Screen.{menu_to_str}
use sik_telnet_radio.Receiver.Clients.{
  Read, failed, eof, byte, Revents, quiet, Menu, put, client_at, set_client, disconnect_client,
  reset_client_input, is_open, send_to_all, run_cmd, handle_byte, of_socket, handle_read,
  handle_client_input,
}
use sik_telnet_radio.Receiver.Clients.Loop.{
  Round, poll, on_event, on_server, on_input, on_output, serve_open, serve_client, serve_from,
  round, ends, run_menu,
}
use sik_telnet_radio.Receiver.Clients.Linked.{send_msg-Keeps, send_to_all-Keeps}
use sik_telnet_radio.Receiver.Clients.Typing.{
  IsTyping, IsCommand, refused, waiting, complete, typing-Next, short, apply_cmd-CurrentIn,
}
use sik_telnet_radio.Receiver.Clients.Accept.{accept_new_client-Keeps}
use sik_telnet_radio.Receiver.Clients.Fine.{
  forgetful, serves, Serves-bind, set_client-IsFine, disconnect_client-IsFine, typed-IsFineBut,
  reset_client_input-IsFine, IsFine, IsFineBut, Serves,
}

module _ (write : List (ℕ × Bytes) → ℕ → Bytes → Bool) where
  run_cmd-Serves :
      (m : Menu) (id : ℕ) (cmd : Bytes)
      → IsFineBut m id
      → IsCommand cmd
      → Serves (run_cmd write m id cmd)
  unfolding run_cmd
  run_cmd-Serves m id cmd h known =
      let (st', moved, current) = apply_cmd-CurrentIn m.shared cmd known h.current in
      let k = send_to_all-Keeps write (record m { shared = st' }) (menu_to_str st') h.linked in
      (
        reset_client_input k.after id,
        rw (moved, k.runs) refl,
        reset_client_input-IsFine k.after id (record {
          linked = k.linked;
          current = subst CurrentIn (sym k.same_shared) current;
          typing = λ i other.
              forgetful (m.clients i) (k.after.clients i) (k.forgets i) (h.typing i other);
        }),
      )

  handle_byte-Serves : (m : Menu) (id c : ℕ) → IsFine m → Serves (handle_byte write m id c)
  unfolding handle_byte
  handle_byte-Serves m id c h =
      let t = (client_at m id).typed in
      let typing : IsTyping t = unfold client_at in h.typing id in
      let m' = set_client m id (record (client_at m id) { typed = t ++ c ∷ [] }) in
      let but = typed-IsFineBut m id (t ++ c ∷ []) h in
      let inside = lt→ltb (length t) 4 (short t typing) in
      elim (typing-Next t c typing) [
        | refused e ↦
            (reset_client_input m' id, rw (inside, e) refl, reset_client_input-IsFine m' id but)
        | waiting e e' typing' ↦
            (m', rw (inside, e, e') refl, set_client-IsFine m id (t ++ c ∷ []) h typing')
        | complete e e' known ↦
            let (m'', runs, fine) = run_cmd-Serves m' id (t ++ c ∷ []) but known in
            (m'', rw (inside, e, e') runs, fine)
      ]

  handle_read-Serves : (m : Menu) (id : ℕ) (r : Read) → IsFine m → Serves (handle_read write m id r)
  handle_read-Serves m id failed h = (disconnect_client m id, refl, disconnect_client-IsFine m id h)
  handle_read-Serves m id eof h = (disconnect_client m id, refl, disconnect_client-IsFine m id h)
  handle_read-Serves m id (byte c) h = handle_byte-Serves m id c h

  on_input-Serves :
      (m : Menu) (id : ℕ) (input : Option Read) → IsFine m → Serves (on_input write m id input)
  unfolding handle_client_input
  on_input-Serves m id none h = (m, refl, h)
  on_input-Serves m id (some r) h = handle_read-Serves m id (of_socket (client_at m id).socket r) h

  on_output-Serves : (m : Menu) (id : ℕ) (out : Bool) → IsFine m → Serves (on_output write m id out)
  on_output-Serves m id true h =
      serves (send_msg-Keeps write m id (menu_to_str m.shared) h.linked) h
  on_output-Serves m id false h = (m, refl, h)

  -- What is reported of the descriptors is no part of the invariant.
  any_revents : (m : Menu) (ready : ℕ → Revents) → IsFine m → IsFine (record m { revents = ready })
  any_revents m ready h = record { linked = h.linked; current = h.current; typing = h.typing }

  either-Serves :
      (b : Bool) {x y : Outcome Menu} → Serves x → Serves y → Serves (if b then x else y)
  either-Serves true h k = h
  either-Serves false h k = k

  calm-Serves :
      (m : Menu) (id : ℕ) → IsFine m → Serves (ok (record m { revents = put m.revents id quiet }))
  calm-Serves m id h = (_, refl, any_revents m (put m.revents id quiet) h)

  serve_open-Serves : (m : Menu) (id : ℕ) → IsFine m → Serves (serve_open write m id)
  serve_open-Serves m id h = Serves-bind (on_input-Serves m id (m.revents id).input h) (λ m1 h1.
      Serves-bind (on_output-Serves m1 id (m1.revents id).out h1) (λ m2 h2. calm-Serves m2 id h2))

  serve_client-Serves : (m : Menu) (id : ℕ) → IsFine m → Serves (serve_client write m id)
  unfolding serve_client
  serve_client-Serves m id h =
      either-Serves (is_open (m.poll_fds id))
        (either-Serves (m.revents id).err
          (disconnect_client m id, refl, disconnect_client-IsFine m id h)
          (serve_open-Serves m id h))
        (m, refl, h)

  serve_from-Serves : (n : ℕ) (m : Menu) (id : ℕ) → IsFine m → Serves (serve_from write n m id)
  unfolding serve_from
  serve_from-Serves zero m id h = (m, refl, h)
  serve_from-Serves (suc n) m id h =
      Serves-bind (serve_client-Serves m id h) (λ m' h'. serve_from-Serves n m' (id + 1) h')

  sends_menu : (m : Menu) → IsFine m → Serves (send_to_all write m (menu_to_str m.shared))
  sends_menu m h = serves (send_to_all-Keeps write m (menu_to_str m.shared) h.linked) h

  on_event-Serves :
      (m : Menu) (event : Option EventType) → IsFine m → Serves (on_event write m event)
  on_event-Serves m none h = (m, refl, h)
  on_event-Serves m (some station_added) h = sends_menu m h
  on_event-Serves m (some station_removed) h = sends_menu m h
  on_event-Serves m (some current_station_changed) h = sends_menu m h
  on_event-Serves m (some client_added) h = (m, refl, h)
  on_event-Serves m (some new_jobs) h = (m, refl, h)
  on_event-Serves m (some terminate) h = (m, refl, h)

  on_server-Serves :
      (m : Menu) (accepted : Option (Option ℕ)) → IsFine m → Serves (on_server write m accepted)
  on_server-Serves m none h = (m, refl, h)
  on_server-Serves m (some accepted) h =
      serves (accept_new_client-Keeps write m accepted h.linked) h

  poll-IsFine : (m : Menu) (ready : ℕ → Revents) → IsFine m → IsFine (poll m ready)
  unfolding poll
  poll-IsFine m ready h = any_revents m _ h

  round-Serves : (m : Menu) (r : Round) → IsFine m → Serves (round write m r)
  unfolding round
  round-Serves m r h =
      Serves-bind (on_event-Serves (poll m r.ready) r.event (poll-IsFine m r.ready h)) (λ m1 h1.
        Serves-bind (on_server-Serves m1 r.accepted h1) (λ m2 h2. serve_from-Serves _ m2 _ h2))

  -- Whatever the menu's loop is told, whatever clients send and whichever writes fail, it ends without
  -- a fault in a state in which each descriptor that is polled is the socket of its client, the current
  -- station is one of the stations and no client has typed what is no beginning of a command, if it
  -- started in such a state.
  pub run_menu-IsFine :
      (m : Menu) (rounds : List Round)
      → IsFine m
      → (m' : Menu) × (run_menu write m rounds ≡ ok m') × IsFine m'
  unfolding run_menu
  run_menu-IsFine m [] h = (m, refl, h)
  run_menu-IsFine m (r ∷ rs) h =
      either-Serves (ends write r.event) (poll m r.ready, refl, poll-IsFine m r.ready h)
        (Serves-bind (round-Serves m r h) (λ m' h'. run_menu-IsFine m' rs h'))
