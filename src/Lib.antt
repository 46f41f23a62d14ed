-- ===== src/Lib.antt =====
-- Model and proofs for the producer side of the Vivid SDK, the Rust crate under src/. A producer opens
-- a session with a presenter, creates tracks, and sends media records over one channel per track; the
-- presenter returns flow capacity, asks for recovery units, and binds input to surfaces.
--
-- The parts and where they are modelled:
--
-- - Prelude: tests on numbers, lists with the native numbers, `Result` for io::Result with `do` for
--   `?`, saturating and checked 64-bit arithmetic, durations in nanoseconds.
-- - Wire (src/wire.rs): the readers of a payload map and the checks of its keys and identity. Wire
--   has a parameter for the CBOR values of the protocol crate. Wire/Lookup and Wire/Schema hold the
--   lemmas and theorems.
-- - Channel (src/channel.rs, with TrackMediaSequence and Session::flush of src/track.rs). Channel/State
--   is a channel behind its locks, and each send as what it does before and after the transport:
--   `validate_send` and `finish_send` for send_media, `validate_image` and `finish_image` for
--   send_image, `validate_eos` and `finish_eos` for eos; `charge` is one round of the loop of
--   write_charged_record. Channel/Reader is one round of the reader thread (`handle`), what its failure
--   does (`read_record`), and the events of other threads as a list that `run` goes through: an
--   interleaving of a send is a list of events between its two halves. Recovery, Sequence, Flow and
--   Closing hold the theorems. The flow window of the protocol crate (`ChannelFlow`) and the numbers of
--   its record types are parameters, with the laws of admission and raising as fields.
-- - Pressure (SendPressure of src/channel.rs) feeds Rate (VideoRateControl of src/pipeline.rs): the
--   control law `next_target`, the window that is closed by `poll`. Instants are arguments.
-- - Queue (LatestFrame and BoundedQueue of src/pipeline.rs): an operation that would block answers
--   `waits` and changes nothing, so the thread's loop is the same call again.
-- - Guard (InputBindingGuard of src/guard.rs): every operation on the binding's state, `err` where the
--   code returns an error and also where `advance_epoch` panics. Monotonic time and the registered
--   limits are parameters.
-- - Placement (TerminalPlacement of src/scene.rs): the contain-fit rectangle in 32.32 fixed point with
--   the checked 128-bit products and the conversion to 64 bits.
-- - Control (src/session.rs with session_event of src/wire.rs): State is the table of pending requests of
--   ControlPlane::request, the events, and the registries of tracks and flows; a track names its flow by
--   its number, which stands for the weak reference. Dispatch is one round of spawn_control_reader, its
--   end in the steps that the thread takes (`stop`, then three of `clean_up`), a close by any thread in
--   its two steps (begin_close, close_flows), and the calls of other threads between them. A caller's receiver is the list of answers sent under its ID.
-- - FileDrop (FileDropBindingGuard of src/file_drop.rs) and Transfer (IncomingFileTransfer of the same
--   file): the rules for bindings and the window of a transfer are parameters with their laws. Requests
--   are the session's calls, Opening is open_incoming_file_transfer.
-- - Session (the requests of src/session.rs): IDs of requests, the checks of a reply and of an OK. The
--   control plane is a function from the ID and the request to its outcome, none for an offline session.
--   The operations below take the outcome of a request as such a function.
-- - Track (src/track.rs): Conditions and Wait for bounded waits, Create with the registries, Query with
--   what a track takes over of a status, Commands for the requests that end with an OK. Where the code
--   locks a track again after its reply, `during` is what other threads made of it in between. An
--   active flow is what the weak reference still reaches.
-- - Surface (src/surface.rs) in the same style, Target (src/target.rs with apply_target_changed of
--   src/resume.rs), Resume (adoption: handles are the same when their numbers are).
-- - Scene (src/scene.rs): a transaction is an action on the session's allocators, its cached scene
--   revision and the list of records that were written; the answer to a record may depend on all records
--   before it. Commits reads the replies, Steps and Transactions hold the lemmas and the theorem;
--   Activation, Anchors and Nodes are the other methods.
-- - Sender (TrackSender and recover_channel of src/pipeline.rs) on the channel of Channel/State; what
--   other threads do around the recovery unit, and whether it is written, is an argument.
-- - Builder (TrackBuilder of src/orch.rs): u64 products wrap around as in a release build.
-- - Pane (src/pane.rs): the header scan runs on fuel, one round per byte, and an index out of bounds is
--   an error of its own, so that both can be shown not to happen; Show is presenting and clearing, with
--   the calls of the session answered by an oracle that sees all calls before.
-- - Input (the lane of src/input.rs): the table of requests with the answers that were sent, in place of
--   channels; Steps lets the reader, callers and closing threads take turns, where close_input_lane is
--   the two steps of its locks. Binding is set_binding: begin_binding up to its wait, with what other
--   threads do before its lock, and bound_status from the answer on. Opening has the registry
--   of lanes, which a session closes in two steps; Events is decode_input.
-- - Samples: concrete values for the parameters. The module Tests of a part runs its definitions.
--
-- Widths: numbers are unbounded, and each test, wrap-around and saturation of the code is written out
-- against u32_max, u64_max, i64_max and i128_max. Only the scan of a JPEG needs fuel: every other
-- definition is a step, or a recursion on its list. The loops of threads are lists of calls or events
-- of any length and order.
--
-- Not modelled: sockets, threads, lock poisoning and condition variables, which only delay a call; the
-- establishment of channels, the rate limit and raster deltas; leases and the controller, and desktop
-- orchestration; the protocol crate; the bindings for Python and Node.
pub mod Builder
pub mod Channel
pub mod Control
pub mod FileDrop
pub mod Guard
pub mod Input
pub mod Pane
pub mod Placement
pub mod Prelude
pub mod Pressure
pub mod Queue
pub mod Rate
pub mod Resume
pub mod Samples
pub mod Scene
pub mod Sender
pub mod Session
pub mod Surface
pub mod Target
pub mod Track
pub mod Transfer
pub mod Wire
