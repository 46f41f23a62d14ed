-- ===== src/Channel.antt =====
-- src/channel.rs: one channel generation of a track, with the sequence of src/track.rs that it
-- shares with the control plane. A send has three parts between which the other threads run:
-- `validate_send` up to the transport, `charge` for the flow window, `finish_send` after the write.
pub mod State
pub mod Reader
pub mod Sequence
pub mod Recovery
pub mod Flow
pub mod Closing
mod Tests
pub use State.*
