-- ===== src/Lib.antt =====
-- SIK radio, a sender and a receiver of an internet radio: a model of its code and what holds of it.
--
-- The sender (sender/) reads audio from its standard input, cuts it into packets that it sends to a
-- multicast address, keeps the last ones in a cache, answers lookup requests and sends packets again
-- on request. The receiver (receiver/) looks for senders, keeps a set of stations, puts the packets of
-- the current one into a circular buffer, prints them, and asks for those that are missing. Threads
-- share state behind locks and wake each other through event queues; a handler is one function of the
-- model from a state to a state.
--
-- Files and code (paths below the repository's src):
-- - Outcome: what a run comes to, a value or a fault, with the arithmetic of size_t and arrays.
-- - Buffer: CircularBuffer of common/circular_buffer.cc, one function per method. Buffer.Refine.Holds
--   says which sequence of packets, some of them missing, a buffer stands for.
-- - Window: the slots of a ring read as a sequence.
-- - Packet: AudioPacket of common/datagram.cc, with common/endian.hh.
-- - Text, Datagram: the textual datagrams of common/datagram.cc.
-- - Net, Station, Events: common/net.cc, common/radio_station.cc, common/event_queue.cc. Events is the
--   queue as a list, and Events.Pipe the pipe below it.
-- - Receiver.Stations: handle_lookup_reply of receiver/lookup_receiver.cc, remove_inactive of
--   receiver/station_remover.cc, cmd_move_up and cmd_move_down of receiver/ui_menu.cc.
-- - Receiver.Lookup: the loop of receiver/lookup_receiver.cc.
-- - Receiver.Audio: receiver/audio_receiver.cc and handle_print of receiver/audio_printer.cc.
-- - Receiver.Rexmit: order_retransmission of receiver/rexmit_sender.cc.
-- - Receiver.Menu, Receiver.Screen, Receiver.Clients: receiver/ui_menu.cc, that is the input of a telnet
--   client, the text of the menu, and the table of clients with the loop.
-- - Receiver.Printer: the loop of receiver/audio_printer.cc.
-- - Receiver.Threads, Sender.Jobs: the handlers of several threads as steps that can follow each other in
--   any order: those on the stations of a receiver, and those on a sender's queue of retransmissions.
-- - Receiver.LookupSender: the loop of receiver/lookup_sender.cc.
-- - Broadcast, Discovery: the sender and the receiver together, for audio and for lookups.
-- - Logging: common/log.cc and common/log.hh. The other modules leave out what a handler logs.
-- - Locks: common/synced_ptr.hh, and what each handler of the two programs locks.
-- - Shutdown: terminate_worker and signal_handler of sender/sender.cc and receiver/receiver.cc.
-- - Shutdown.Ending: the ends of the workers' loops, and main of the two programs once the workers run.
-- - Socket: common/udp_socket.cc and common/tcp_socket.cc over a log of system calls; Receiver.Audio.Tuner
--   is change_station of receiver/audio_receiver.cc with its data socket.
-- - Params: sender/sender_params.hh and receiver/receiver_params.hh, and what main of sender/sender.cc and
--   receiver/receiver.cc makes of them before it starts the workers.
-- - Sender.Audio, Sender.Controller, Sender.Retransmitter: the files of sender/ with these names.
--
-- Conventions: a number is a natural number, and size_t and uint64_t arithmetic wraps at 2 ^ 64 where
-- it is written out. A byte string is the list of its bytes. The loop of a thread is a function of the
-- list of what its system calls report; an empty list is a call that waits. What the system does
-- (socket, accept, setsockopt, read, write, sendto, getaddrinfo, inet_pton, htons, htonl, ntohl) is a
-- parameter. An index out of bounds, a failed assertion, a division by zero and a call of fatal are faults,
-- not values.
--
-- Loops that are not structural run on fuel and end with the fault hang if it is used up. Each walks
-- over slots of the buffer, one packet of at least one byte a round, so that as many rounds as the
-- buffer has bytes are enough.
--
-- In Receiver.Threads a step is a handler, or the pop of an event, which takes no lock. In Sender.Jobs each
-- push, size, front and pop of a queue is a step, and those of other threads come between them; what two
-- accesses at the same moment would do to the memory of a queue is not modelled. In Locks a step is one
-- that locks, unlocks or accesses a shared value, by a worker or by the signal handler in main, and what is
-- done with the value is left out. There a call inside a locked scope returns, so the pipe of an event
-- queue is never full.
--
-- In Shutdown.Ending the signal handler runs as a whole and interrupts no poll; the rest of a worker's round
-- behind its poll or sleep is one step, which Locks looks into.
--
-- Not modelled: the option parser, which is a library.
-- The times at which a loop sleeps are no part of a state, so that the loops of receiver/rexmit_sender.cc
-- and receiver/station_remover.cc are their handlers. The steps of Receiver.Threads are those before the
-- shutdown.
pub mod Prelude
pub mod Outcome
pub mod Packet
pub mod Window
pub mod Buffer
pub mod Locks
pub mod Logging
pub mod Net
pub mod Station
pub mod Events
pub mod Text
pub mod Datagram
pub mod Socket
pub mod Shutdown
pub mod Receiver
pub mod Sender
pub mod Params
pub mod Discovery
pub mod Broadcast
