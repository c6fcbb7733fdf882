-- ===== src/Lib.antt =====
-- player5: a drum machine that plays in time with the decks of a DJ booth. This library models the
-- parts of its Rust core that decide what is played when, how it joins the booth's network and follows
-- its decks, and the protocol of the bridge that web pages connect to.
--
-- The sequencer (core/sequencer/src) walks a pattern ahead of a clock and fills a ring of timed
-- events, which the audio thread (core/engine/src/renderer.rs) empties and applies sample by sample.
-- The clock (core/sync/src/clock.rs) places beats on samples; its tempo comes from a source: Pro DJ
-- Link (core/sync/src/prolink), where the program joins the network as a virtual player, reads the
-- packets of the other devices, keeps a table of them and chooses the one to follow, or an Opus Quad
-- (core/sync/src/opus), to which it announces itself as a lighting controller and whose four decks it
-- chooses from. The bridge (apps/bridge/src) serves a WebSocket.
--
-- Common: shared names, Boolean tests, lists over the native numbers, bit masks, texts as lists of
--   code points, and the floating-point numbers as a parameter (Floats): their carriers and the
--   operations that the modelled code calls. No law of them is assumed. Common/Utf8 is UTF-8 as the
--   standard library documents it: is_utf8, from_utf8_lossy and the encoding. Common/Millis is an
--   instance of Floats that counts in thousandths, with which examples are run.
-- Sequencer/Pattern: core/sequencer/src/pattern.rs. VoiceId, Step, Track and Pattern keep their
--   names; Track::parse is `parse` with its loop `parse_loop`, Track::notation is `notation`.
-- Sequencer/Event: core/sequencer/src/event.rs, the types.
-- Sequencer/Queue: core/sequencer/src/queue.rs. Producer and Consumer share the record `Shared`;
--   `push`, `vacant`, `capacity`, `pop`, `len` and `is_empty` are their methods, and `w` is the
--   width of `usize`. A call that would index out of bounds or read a slot that was never written
--   returns `none`. Calls run one at a time; the memory orderings are not modelled.
-- Sequencer/Clock: core/sync/src/clock.rs. A clock is a record of its methods.
-- Sequencer/Scheduler: core/sequencer/src/scheduler.rs, one function per method. `schedule` and
--   `first_step_at_or_after` take fuel for their loops: any fuel above the number of steps up to
--   the first one that stops the loop is enough, and the theorems give the result for all of it.
--   Step numbers are `u64`; the theorems state that the cursor does not reach 2 ^ 64.
--   Scheduler/Runs makes several calls, each with the ring as the consumer has left it.
-- Prolink/Packets, Prolink/Announce, Prolink/Updates: core/sync/src/prolink/packets.rs. A packet is
--   the list of its bytes; `u8_at`, `be16`, `be32`, `name_at` and `check` are the source's helpers.
--   Announce has the parsers and builders of port 50000, Updates/Beats those of port 50001 and
--   Updates/Status those of port 50002. A text is the list of its bytes.
-- Prolink/Join: core/sync/src/prolink/join.rs. `Joiner` is the state; a handler returns the new one
--   and the actions. The loop of `poll` has at most eight rounds, as in the source. Join/Inputs
--   drives a joiner by a list of timed calls.
-- Prolink/Devices: core/sync/src/prolink/devices.rs. The table is a list of entries in the order of
--   their numbers; `touch` takes what its caller writes through the reference that it returns.
--   Devices/History drives a table by a list of calls.
-- Opus/Packets: core/sync/src/opus/packets.rs, the keep-alive and the lighting request with what the
--   unit sends in Packets/Status. A packet and a text are lists of bytes.
-- Opus/Session: core/sync/src/opus/session.rs. `Session` is the state; a handler returns the new one
--   and the actions, which `chain` appends. The beat tracker is the record `Tracking` of the three
--   methods the session calls, which `Tracker.beat_tracker` fills. `Message` has one constructor for each text shown to the user. Follow
--   chooses the deck, Peers keeps the other devices and defends the device number, Report makes the
--   device table, Decks takes packets, Ticks is the periodic work, and Calls drives a session by a list
--   of calls.
-- Opus/Tracker: core/sync/src/opus/tracker.rs. `update` is BeatTracker::update, whose parts are `heard`,
--   `report`, `next_beat`, `recent`, `agreed` and `estimate`; its loop `narrow` runs over the brackets
--   that are left. Tracker/Estimates drives a tracker by a list of reports.
-- Engine/Renderer: core/engine/src/renderer.rs. The voices and the master section are the record `Dsp`
--   of the calls made of them; the event ring is the list of the events it holds.
-- Engine/Queued: the record of queued steps in core/engine/src/control.rs, and where it is cut.
-- Bridge/Base64: apps/bridge/src/base64.rs. The loops over chunks and over quads are recursions on
--   the list; `decode_padded` is one round with the number of padding characters given.
-- Bridge/Counts: the connection caps of apps/bridge/src/server.rs. An address is the parameter `IpAddr`;
--   Counts/Slots has the slots that are held, as a relation of admissions and releases.
-- Bridge/Ws: apps/bridge/src/ws.rs, its frames here and the message assembler in Ws/Messages.
--   Ws/Connection is the part of apps/bridge/src/server.rs that serves the bytes a connection has
--   received; its loop takes one more fuel than there are bytes, and a round takes two at least.
--
-- Not modelled: the sockets, threads and timeouts (core/sync/src/net.rs, core/sync/src/prolink/source.rs,
-- core/sync/src/opus/source.rs, most of apps/bridge/src/server.rs), the tempo follower
-- and the other sources of tempo (core/sync/src), the control half of the engine but for
-- its record of queued steps, the voices (core/dsp, arithmetic on floating-point numbers), the renderer for
-- tests (core/render), the bindings (core/ffi), the HTTP part of the bridge and the other applications
-- (apps).
pub mod Common
pub mod Sequencer
pub mod Prolink
pub mod Bridge
pub mod Engine
pub mod Opus
