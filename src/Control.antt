-- ===== src/Control.antt =====
-- The control plane of a session (src/session.rs): State is the table of pending requests and the
-- registries, Dispatch the reader thread, Answers and Losses hold the theorems.
pub mod State
pub mod Dispatch
pub mod Effects
pub mod Answers
pub mod Requests
pub mod Losses
pub mod Closing
pub mod Ending
pub mod Allocator
mod Tests
