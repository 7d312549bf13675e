-- ===== src/Params/Receiver.antt =====
-- `ReceiverParams` of receiver/receiver_params.hh, and what `main` of receiver/receiver.cc makes of it.
use sik_telnet_radio.Prelude.{ℕ, Bool, false, not, List, [], Option, none, some, ltb, if◌then◌else◌}
use sik_telnet_radio.Outcome.{Outcome, ok, crash, thrown, ◌>>=◌, ◌>>◌, guard}
use sik_telnet_radio.Net.{Bytes, SockaddrIn, Resolver, get_addr}
use sik_telnet_radio.Station.{is_valid_name}
use sik_telnet_radio.Buffer.{create}
use sik_telnet_radio.Receiver.{Shared}
use sik_telnet_radio.Text.{codes}
use sik_telnet_radio.Receiver.Audio.{AudioReceiver, no_session}
use sik_telnet_radio.Params.{value_or, or_fatal}

-- The options on the command line.
pub record ReceiverOptions : Type 0 where
  pub help : Bool
  pub name : Option Bytes
  pub discover_addr : Option Bytes
  pub ctrl_port : Option ℕ
  pub ui_port : Option ℕ
  pub bsize : Option ℕ
  pub rtime : Option ℕ

pub record ReceiverParams : Type 0 where
  pub prio_station_name : Option Bytes
  pub ctrl_port : ℕ
  pub ui_port : ℕ
  pub discover_addr : Bytes
  pub bsize : ℕ
  pub rtime : ℕ

-- What `main` hands to the workers.
pub record Receiver : Type 0 where
  pub discover_addr : SockaddrIn
  pub shared : Shared
  pub audio : AudioReceiver
  pub prio_station_name : Option Bytes
  pub ui_port : ℕ
  pub rtime : ℕ

abbrev pub read_prio : Option Bytes → Outcome (Option Bytes)
read_prio none = ok none
read_prio (some name) = guard (is_valid_name name) thrown >> ok (some name)

unfoldable pub read_params : ReceiverOptions → Outcome ReceiverParams
read_params vm = do
  prio_station_name ← read_prio vm.name
  let bsize = value_or vm.bsize 65536
  guard (not (ltb bsize 1)) thrown
  ok (record {
    prio_station_name = prio_station_name;
    ctrl_port = value_or vm.ctrl_port 39629;
    ui_port = value_or vm.ui_port 19629;
    discover_addr = value_or vm.discover_addr (codes "255.255.255.255");
    bsize = bsize;
    rtime = value_or vm.rtime 250;
  })

abbrev pub from_options : Option ReceiverOptions → Outcome (Option ReceiverParams)
from_options none = crash thrown
from_options (some vm) =
    let read = read_params vm >>= λ p. ok (some p) in if vm.help then ok none else read

module _ (net : Resolver) where
  abbrev pub prepare : Option ReceiverParams → Outcome (Option Receiver)
  prepare none = ok none
  prepare (some p) = do
    discover_addr ← get_addr net p.discover_addr p.ctrl_port
    ok (
        some (record {
          discover_addr = discover_addr;
          shared = record {
            stations = [];
            current_station = none;
            audio_receiver_event = [];
            ui_menu_event = [];
          };
          audio = record {
            buffer = create p.bsize;
            has_printed = false;
            cur_session = no_session;
            audio_printer_event = [];
          };
          prio_station_name = p.prio_station_name;
          ui_port = p.ui_port;
          rtime = p.rtime;
        }))

  module _ (parse_command_line : List Bytes → Option ReceiverOptions) where
    -- The constructor; `none` is the exit after the help message.
    unfoldable pub new_receiver_params : List Bytes → Outcome (Option ReceiverParams)
    new_receiver_params argv = from_options (parse_command_line argv)

    -- `main` up to the start of the workers.
    unfoldable pub start_receiver : List Bytes → Outcome (Option Receiver)
    start_receiver argv = or_fatal (new_receiver_params argv) >>= prepare
