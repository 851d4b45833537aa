-- ===== src/Manager.antt =====
-- src/common/frame_reassembler_manager.cpp and its header: the frames that are being put together,
-- the timers that end them, and the statistics.
pub mod State
pub mod Timers
pub mod Flush
pub mod Inv
pub mod Route
pub mod Loop
pub mod Ending
pub mod Run
pub mod Flushing
pub mod Apart
pub mod Track
pub mod Results
pub mod Tally
