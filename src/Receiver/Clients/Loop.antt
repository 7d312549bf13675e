-- ===== src/Receiver/Clients/Loop.antt =====
-- `UiMenuWorker::run`: what becomes of a round of `poll`.
use sik_telnet_radio.Prelude.{
  ℕ, zero, suc, ◌+◌, ◌-◌, Bool, true, false, List, [], ◌∷◌, Option, none, some, if◌then◌else◌,
}
use sik_telnet_radio.Outcome.{Outcome, ok, ◌>>=◌}
use sik_telnet_radio.Net.{Bytes}
use sik_telnet_radio.Events.{
  EventType, terminate, station_added, station_removed, current_station_changed,
}
use sik_telnet_radio.Receiver.Screen.{menu_to_str}
use sik_telnet_radio.Receiver.Clients.{
  Read, Revents, quiet, Menu, put, min_client_id, total_pollfds, disconnect_client, send_msg,
  is_open, send_to_all, accept_new_client, handle_client_input,
}

-- The event, the connection that `accept` gives, with `none` inside for one that fails, and what the
-- clients' descriptors are ready for.
pub record Round : Type 0 where
  pub event : Option EventType
  pub accepted : Option (Option ℕ)
  pub ready : ℕ → Revents

-- `poll` reports nothing for a descriptor -1.
unfoldable pub poll : Menu → (ℕ → Revents) → Menu
poll m ready = record m { revents = λ id. if is_open (m.poll_fds id) then ready id else quiet }

module _ (write : List (ℕ × Bytes) → ℕ → Bytes → Bool) where
  abbrev pub on_event : Menu → Option EventType → Outcome Menu
  on_event m (some station_added) = send_to_all write m (menu_to_str m.shared)
  on_event m (some station_removed) = send_to_all write m (menu_to_str m.shared)
  on_event m (some current_station_changed) = send_to_all write m (menu_to_str m.shared)
  on_event m _ = ok m

  abbrev pub on_server : Menu → Option (Option ℕ) → Outcome Menu
  on_server m none = ok m
  on_server m (some accepted) = accept_new_client write m accepted

  abbrev pub on_input : Menu → ℕ → Option Read → Outcome Menu
  on_input m id none = ok m
  on_input m id (some r) = handle_client_input write m id r

  abbrev pub on_output : Menu → ℕ → Bool → Outcome Menu
  on_output m id true = send_msg write m id (menu_to_str m.shared)
  on_output m id false = ok m

  abbrev pub serve_open : Menu → ℕ → Outcome Menu
  serve_open m id = do
    m1 ← on_input m id (m.revents id).input
    m2 ← on_output m1 id (m1.revents id).out
    ok (record m2 { revents = put m2.revents id quiet })

  -- The body of the loop over the clients. A client that is gone has nothing to report any more.
  unfoldable pub serve_client : Menu → ℕ → Outcome Menu
  serve_client m id =
      if is_open (m.poll_fds id)
      then (if (m.revents id).err then ok (disconnect_client m id) else serve_open m id)
      else ok m

  unfoldable pub serve_from : ℕ → Menu → ℕ → Outcome Menu
  serve_from zero m id = ok m
  serve_from (suc n) m id = serve_client m id >>= λ m'. serve_from n m' (id + 1)

  -- A round that is not the last.
  unfoldable pub round : Menu → Round → Outcome Menu
  round m r = do
    m1 ← on_event (poll m r.ready) r.event
    m2 ← on_server m1 r.accepted
    serve_from (total_pollfds - min_client_id) m2 min_client_id

  abbrev pub ends : Option EventType → Bool
  ends (some terminate) = true
  ends _ = false

  unfoldable pub run_menu : Menu → List Round → Outcome Menu
  run_menu m [] = ok m
  run_menu m (r ∷ rs) =
      let rest = round m r >>= λ m'. run_menu m' rs in
      if ends r.event then ok (poll m r.ready) else rest
