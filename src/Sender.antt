-- ===== src/Sender.antt =====
-- The sender: each of its threads as a function of what it reads.
pub mod Audio
pub mod Controller
pub mod Retransmitter
pub mod Jobs
