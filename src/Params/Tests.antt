-- ===== src/Params/Tests.antt =====
-- A sender with packets of two bytes, one whose cache is too small, and a receiver with its defaults.
use sik_telnet_radio.Prelude.{
  ℕ, ◌≡◌, ◌↔◌, ◌<◌, refl, false, List, [], ◌∷◌, ◌++◌, Option, none, some, arith, length,
}
use sik_telnet_radio.Outcome.{ok, crash, bounds, After}
use sik_telnet_radio.Net.{Bytes, SockaddrIn, Resolver, get_addr, get_mcast_addr}
use sik_telnet_radio.Station.{is_valid_name, all_printable}
use sik_telnet_radio.Sender.Audio.{AudioSender, new_sender, run}
use sik_telnet_radio.Sender.Audio.Stream.{concat, reads, packets_from}
use sik_telnet_radio.Params.Sender.{
  SenderOptions, SenderParams, Sender, new_sender_params, start_sender,
}
use sik_telnet_radio.Params.Receiver.{ReceiverOptions, start_receiver}
use sik_telnet_radio.Params.Accepted.{Asks, new_sender_params-Asks}
use sik_telnet_radio.Params.Streams.{AllFit, start_sender-streams}
use sik_telnet_radio.Params.Overflow.{run-overflow}
use sik_telnet_radio.Params.Ready.{IsReady, start_receiver-IsReady}

abbrev pub net : Resolver
net = record {
  getaddrinfo = λ host. some 3758096385;
  inet_pton = λ host. some 3758096385;
  htons = λ x. x;
  ntohl = λ x. x;
}

abbrev host : Bytes
host = b'e' ∷ []

abbrev options : SenderOptions
options = record {
  help = false;
  name = some (b'X' ∷ []);
  mcast_addr = some host;
  data_port = none;
  ctrl_port = none;
  psize = some 2;
  fsize = some 9;
  rtime = none;
}

abbrev parse : List Bytes → Option SenderOptions
parse argv = some options

abbrev params : SenderParams
params = record {
  name = b'X' ∷ [];
  mcast_addr = host;
  data_port = 29629;
  ctrl_port = 39629;
  psize = 2;
  fsize = 9;
  session_id = 1000;
  rtime = 250;
}

abbrev pub group : ℕ → SockaddrIn
group port = record { sin_family = 2; s_addr = 3758096385; sin_port = port }

params-Asks : Asks net 1000 (parse []) params
unfolding is_valid_name all_printable get_mcast_addr
params-Asks = record {
  vm = options;
  parses = refl;
  no_help = refl;
  mcast_addr = host;
  given = refl;
  is_read = refl;
  valid = record {
    some_bytes = omega arith;
    fits = omega arith;
    some_cache = omega arith;
    valid_name = refl;
    group = group 0;
    multicast = refl;
  };
}

resolved : get_addr net host 29629 ≡ ok (group 29629)
unfolding get_addr
resolved = refl

new_sender_params-Asks_example :
    (new_sender_params net parse 1000 [] ≡ ok (some params)) ↔ Asks net 1000 (parse []) params
new_sender_params-Asks_example = new_sender_params-Asks net parse 1000 [] params

abbrev pub pieces : List (List ℕ)
pieces = (1 ∷ []) ∷ (2 ∷ []) ∷ (3 ∷ 4 ∷ []) ∷ (5 ∷ []) ∷ []

start_sender-streams_example :
    (st : Sender) × (start_sender net parse 1000 [] ≡ ok (some st))
    × (st' : AudioSender) × (run length (λ x. x) st.audio (reads pieces) ≡ ok st')
    × (chunks : List (List ℕ)) × (concat chunks ++ st'.filled ≡ 1 ∷ 2 ∷ 3 ∷ 4 ∷ 5 ∷ [])
    × (length st'.filled < 2)
    × (st'.sent ≡ packets_from length (λ x. x) 1000 2 0 chunks)
    × AllFit st'.sent
start_sender-streams_example =
    start_sender-streams net parse length (λ x. x) 1000 [] params (group 29629) pieces params-Asks
      resolved (λ bytes. refl) (omega arith) (omega arith) (omega arith) (omega arith)

run-overflow_example :
    run length (λ x. x) (new_sender 7 2 1) (reads ((8 ∷ 9 ∷ []) ∷ [])) ≡ crash bounds
run-overflow_example =
    run-overflow length (λ x. x) 7 2 1 (8 ∷ 9 ∷ []) (λ bytes. refl) (omega arith) refl

abbrev parse_receiver : List Bytes → Option ReceiverOptions
parse_receiver argv = some (record {
  help = false;
  name = none;
  discover_addr = none;
  ctrl_port = none;
  ui_port = none;
  bsize = none;
  rtime = none;
})

start_receiver-IsReady_example : After IsReady (start_receiver net parse_receiver [])
start_receiver-IsReady_example = start_receiver-IsReady net parse_receiver []
