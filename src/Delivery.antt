-- ===== src/Delivery.antt =====
-- From the sender's frame to the receiver's buffer: the parts of both programs put together.
pub mod Assembly
pub mod Whole
pub mod Part
pub mod EndToEnd
pub mod Image
pub mod Files
pub mod Follow
pub mod Stream
pub mod Pipeline
pub mod Caught
