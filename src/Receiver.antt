-- ===== src/Receiver.antt =====
-- src/receiver/main_receiver.cpp: the thread that receives, and the thread that puts frames together.
pub mod Rx
pub mod Loop
pub mod Fits
pub mod Bounds
pub mod Worker
pub mod Exit
pub mod Files
pub mod Sound
pub mod Main
pub mod Logging
pub mod Outputs
pub mod Kept
pub mod Return
pub mod Dumped
