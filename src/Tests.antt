-- ===== src/Tests.antt =====
-- Runs on small inputs: each general theorem at one of them.
mod Data
mod Frames
mod FirstVersion
mod Managing
mod Sending
mod Receiving
mod Systems
mod Catching
mod Passing
mod Saving
mod Locking
mod Logging
mod Tracing
mod Delivering
mod Streaming
