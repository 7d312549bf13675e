-- ===== src/Params/Sender.antt =====
-- `SenderParams` of sender/sender_params.hh, and what `main` of sender/sender.cc makes of it.
use sik_telnet_radio.Prelude.{
  ℕ, ◌%◌, ◌-◌, Bool, not, List, [], Option, none, some, ltb, if◌then◌else◌,
}
use sik_telnet_radio.Outcome.{Outcome, ok, crash, thrown, ◌>>=◌, ◌>>◌, guard, word}
use sik_telnet_radio.Net.{Bytes, SockaddrIn, Resolver, get_addr, get_mcast_addr}
use sik_telnet_radio.Station.{is_valid_name}
use sik_telnet_radio.Text.{codes}
use sik_telnet_radio.Sender.Audio.{AudioSender, new_sender}
use sik_telnet_radio.Sender.Controller.{Controller}
use sik_telnet_radio.Params.{value_or, is_some, or_fatal}

-- The options on the command line.
pub record SenderOptions : Type 0 where
  pub help : Bool
  pub name : Option Bytes
  pub mcast_addr : Option Bytes
  pub data_port : Option ℕ
  pub ctrl_port : Option ℕ
  pub psize : Option ℕ
  pub fsize : Option ℕ
  pub rtime : Option ℕ

-- `rtime` is in milliseconds.
pub record SenderParams : Type 0 where
  pub name : Bytes
  pub mcast_addr : Bytes
  pub data_port : ℕ
  pub ctrl_port : ℕ
  pub psize : ℕ
  pub fsize : ℕ
  pub session_id : ℕ
  pub rtime : ℕ

abbrev pub udp_max_data_size : ℕ
udp_max_data_size = 65535

abbrev pub max_psize : ℕ
max_psize = udp_max_data_size - 16

abbrev pub read_params : ℕ → SenderOptions → Bytes → SenderParams
read_params now vm mcast_addr = record {
  name = value_or vm.name (codes "Nienazwany Nadajnik");
  mcast_addr = mcast_addr;
  data_port = value_or vm.data_port 29629;
  ctrl_port = value_or vm.ctrl_port 39629;
  psize = value_or vm.psize 512;
  fsize = value_or vm.fsize 131072;
  session_id = now % word;
  rtime = value_or vm.rtime 250;
}

-- What `main` hands to the workers.
pub record Sender : Type 0 where
  pub mcast_addr : SockaddrIn
  pub audio : AudioSender
  pub controller : Controller
  pub ctrl_port : ℕ
  pub rtime : ℕ

abbrev pub new_workers : SenderParams → SockaddrIn → Sender
new_workers p mcast_addr = record {
  mcast_addr = mcast_addr;
  audio = new_sender p.session_id p.psize p.fsize;
  controller = record {
    lookup_reply = record { mcast_addr = p.mcast_addr; data_port = p.data_port; name = p.name };
    retransmitter_event = [];
    rexmit_job_queue = [];
    replies = [];
  };
  ctrl_port = p.ctrl_port;
  rtime = p.rtime;
}

module _ (net : Resolver) where
  unfoldable pub check_params : SenderParams → Outcome SenderParams
  check_params p = do
    guard (not (ltb p.psize 1)) thrown
    guard (not (ltb max_psize p.psize)) thrown
    guard (not (ltb p.fsize 1)) thrown
    guard (is_valid_name p.name) thrown
    guard (is_some (get_mcast_addr net p.mcast_addr 0)) thrown
    ok p

  abbrev pub from_mcast_addr : ℕ → SenderOptions → Option Bytes → Outcome (Option SenderParams)
  from_mcast_addr now vm none = crash thrown
  from_mcast_addr now vm (some mcast_addr) =
      check_params (read_params now vm mcast_addr) >>= λ p. ok (some p)

  abbrev pub from_options : ℕ → Option SenderOptions → Outcome (Option SenderParams)
  from_options now none = crash thrown
  from_options now (some vm) = if vm.help then ok none else from_mcast_addr now vm vm.mcast_addr

  abbrev pub prepare : Option SenderParams → Outcome (Option Sender)
  prepare none = ok none
  prepare (some p) =
      get_addr net p.mcast_addr p.data_port >>= λ mcast_addr. ok (some (new_workers p mcast_addr))

  module _ (parse_command_line : List Bytes → Option SenderOptions) where
    -- The constructor, at time `now`; `none` is the exit after the help message.
    unfoldable pub new_sender_params : ℕ → List Bytes → Outcome (Option SenderParams)
    new_sender_params now argv = from_options now (parse_command_line argv)

    -- `main` up to the start of the workers.
    unfoldable pub start_sender : ℕ → List Bytes → Outcome (Option Sender)
    start_sender now argv = or_fatal (new_sender_params now argv) >>= prepare
