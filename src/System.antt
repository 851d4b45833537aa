-- ===== src/System.antt =====
-- src/receiver/main_receiver.cpp as a whole: udp_rx_thread, frame_worker_thread and main, in every
-- interleaving of their accesses to the queue and to g_shutdown.
pub mod State
pub mod Steps
pub mod Channel
pub mod Safe
pub mod Fits
pub mod Calls
pub mod End
pub mod Late
pub mod Costs
pub mod Ending
pub mod Kept
pub mod Last
pub mod Told
