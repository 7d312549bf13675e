-- ===== src/Params/Streams.antt =====
-- A sender with accepted parameters sends its input in packets that fit into a datagram.
use sik_telnet_radio.Prelude.{
  ℕ, ◌+◌, ◌*◌, ◌^◌, ◌≤◌, ◌<◌, ◌≡◌, ap, sym, ◌∙◌, subst, List, [], ◌∷◌, ◌++◌, Option, some, arith,
  length,
}
use sik_telnet_radio.Outcome.{ok, ◌>>=◌}
use sik_telnet_radio.Net.{Bytes, SockaddrIn, Resolver, get_addr}
use sik_telnet_radio.Packet.{AudioPacket, outgoing}
use sik_telnet_radio.Packet.RoundTrip.{length-take}
use sik_telnet_radio.Sender.Audio.{AudioSender, run}
use sik_telnet_radio.Sender.Audio.Stream.{Even, Fits, concat, reads, packets_from, run-packets}
use sik_telnet_radio.Params.{or_fatal}
use sik_telnet_radio.Params.Sender.{
  SenderOptions, SenderParams, Sender, new_workers, prepare, start_sender, udp_max_data_size,
}
use sik_telnet_radio.Params.Accepted.{Asks, new_sender_params-Asks}

-- Each packet fits into the buffer that receivers read datagrams into.
abbrev pub AllFit : List AudioPacket → Type 0
AllFit [] = Unit {0}
AllFit (packet ∷ packets) = (length packet.bytes ≤ udp_max_data_size) × AllFit packets

outgoing-fits :
    (htonl : ℕ → ℕ) (s f p : ℕ) (c : List ℕ)
    → p ≤ 65519
    → length c ≡ p
    → length (outgoing htonl s f c p).bytes ≤ udp_max_data_size
unfolding outgoing
outgoing-fits htonl s f p c small e = omega (arith, small, e, length-take p c (omega (arith, e)))

packets_from-AllFit :
    (sendto : List ℕ → ℕ) (htonl : ℕ → ℕ) (s p f : ℕ) (chunks : List (List ℕ))
    → p ≤ 65519
    → Even p chunks
    → AllFit (packets_from sendto htonl s p f chunks)
packets_from-AllFit sendto htonl s p f [] small even = tt
packets_from-AllFit sendto htonl s p f (c ∷ cs) small (e, even) = (
  outgoing-fits htonl s f p c small e,
  packets_from-AllFit sendto htonl s p (f + p) cs small even,
)

module _ (net : Resolver) (parse_command_line : List Bytes → Option SenderOptions) where
  start_sender-starts :
      (now : ℕ) (argv : List Bytes) (p : SenderParams) (addr : SockaddrIn)
      → Asks net now (parse_command_line argv) p
      → get_addr net p.mcast_addr p.data_port ≡ ok addr
      → start_sender net parse_command_line now argv ≡ ok (some (new_workers p addr))
  unfolding start_sender
  start_sender-starts now argv p addr asks found =
      ap (λ run. or_fatal run >>= prepare net)
        ((new_sender_params-Asks net parse_command_line now argv p).1 asks)
      ∙ ap (λ run. run >>= λ mcast_addr. ok (some (new_workers p mcast_addr))) found

  -- A sender whose parameters are accepted, whose multicast address is resolved and whose cache has room
  -- for two packets starts, and then it runs without a fault on any input of less than 2 ^ 63 bytes, read
  -- in any pieces, if `sendto` takes all bytes. All that it keeps back is less than a packet, and each
  -- packet fits into the 65535 bytes that a receiver reads.
  pub start_sender-streams :
      (sendto : List ℕ → ℕ) (htonl : ℕ → ℕ) (now : ℕ) (argv : List Bytes) (p : SenderParams)
      (addr : SockaddrIn) (cs : List (List ℕ))
      → Asks net now (parse_command_line argv) p
      → get_addr net p.mcast_addr p.data_port ≡ ok addr
      → ((bytes : List ℕ) → sendto bytes ≡ length bytes)
      → 2 * p.psize ≤ p.fsize
      → p.fsize < 2 ^ 62
      → Fits p.psize 0 cs
      → length (concat cs) < 2 ^ 63
      → (st : Sender) × (start_sender net parse_command_line now argv ≡ ok (some st))
        × (st' : AudioSender) × (run sendto htonl st.audio (reads cs) ≡ ok st')
        × (chunks : List (List ℕ)) × (concat chunks ++ st'.filled ≡ concat cs)
        × (length st'.filled < p.psize)
        × (st'.sent ≡ packets_from sendto htonl p.session_id p.psize 0 chunks)
        × AllFit st'.sent
  start_sender-streams sendto htonl now argv p addr cs asks found all room small fits short =
      let (st', runs, chunks, even, joined, partial, sent, _) =
        run-packets sendto htonl p.session_id p.psize p.fsize cs all asks.valid.some_bytes room
          small fits short in
      (
        new_workers p addr,
        start_sender-starts now argv p addr asks found,
        st',
        runs,
        chunks,
        joined,
        partial,
        sent,
        subst AllFit (sym sent)
            (packets_from-AllFit sendto htonl p.session_id p.psize 0 chunks asks.valid.fits even),
      )
