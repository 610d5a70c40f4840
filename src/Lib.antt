-- ===== src/Lib.antt =====
-- A verification library for the dLive MCP server: a Rust workspace with a client library for Allen &
-- Heath dLive mixers (lib), a server that offers tools over that client (mcp-server), and a fake desk to
-- test against (fake-dlive).
--
-- The parts and how they interact. A `Message` (lib/src/messages.rs) speaks of `Channel`s, names and
-- colours (lib/src/channels.rs). `DLiveCodec` (lib/src/codecs.rs) turns messages into MIDI messages and
-- back, over the crates midi-stream and wmidi. The client (lib/src/client.rs) frames a TCP stream with
-- the codec, sends requests and waits for answers among all that arrives. The fake desk
-- (fake-dlive/src/main.rs) answers on the other end. The server reads ranges of channels from its
-- arguments (mcp-server/src/args.rs), lets requests in by a token (mcp-server/src/auth.rs), and serves
-- tools that look channels up by name and call the client (mcp-server/src/handler.rs).
--
-- The files, by what they model:
--   Prelude, Prelude/*       names of the libraries, Boolean tests, lists, results (`anyhow::Result`, with
--                            a panic and exhausted fuel as outcomes of their own), actions on a state
--   Text                     the functions on str, char and u8 of the Rust standard library in use
--   Channels                 ChannelType, Channel, MIDI_MAPPINGS, validate, to_midi, from_midi of
--                            lib/src/channels.rs; Channels/Names, Channels/Colours: ChannelName and
--                            ChannelColour; Channels/Text, Channels/ColourText: Display and FromStr;
--                            Channels/Midi, Channels/Reading, Channels/Equality: their theorems
--   Messages                 Level and Message of lib/src/messages.rs
--   MidiStream               the interface to midi-stream and wmidi, with what the code relies on;
--                            PlainMidi is a value of it, on which the tests run
--   Codecs/Body              the SysEx bodies that `encode` of lib/src/codecs.rs builds
--   Codecs/Encoder           DLiveCodec and its Encoder, one function per arm; the buffer keeps what was
--                            written before an error
--   Codecs/Sysex             decode_sysex_message, with the panics of its cursor
--   Codecs/Decoder           the Decoder: a loop over MIDI messages that keeps a channel and a parameter
--   Codecs/Wire              the protocol as a table, apart from the code
--   Codecs/Sends, Refusals, LateLevel  what encode writes and refuses (with Written, InRange, Controls)
--   Codecs/RoundTrip, Faithful  decode after encode (with Hears, Stream, Hearing, Loop)
--   Codecs/Sound             decode_sysex_message on any bytes (with Ensures, Arms)
--   Codecs/Fuel              the fuel of decode
--   Codecs/Duplex, Transit   one codec for both directions: what is on its way to it while it writes
--   Client                   the client as interleaved events: arrivals, polls of its task, the timer;
--                            Client/Answered, Client/Waiting, Client/Receiving: theorems; Client/Recv: recv;
--                            Client/Connect:
--                            DLiveClient::new; Client/Log: a value of the interface to the broadcast channel
--   FakeDlive                State and handle_connection of fake-dlive/src/main.rs; FakeDlive/Levels,
--                            FakeDlive/Panics: theorems; FakeDlive/Connections: the tasks that main spawns,
--                            on the shared state; FakeDlive/Shared: their theorem
--   Args/Ranges              ChannelRange and ChannelRangeList of mcp-server/src/args.rs; Args/Config:
--                            ChannelConfig; Args/Iter, Args/Reading, Args/Commas, Args/Loading: theorems
--   Levels                   the conversions between levels and decibels of lib/src/messages.rs, and
--                            LevelDelta of mcp-server/src/handler.rs; Levels/Exact: what is relied on
--                            of f32; Levels/Steps: theorems
--   Json                     the implementations of serde's traits in lib/src/messages.rs and
--                            lib/src/channels.rs; Json/Schema: their JSON schemas; Json/Levels, Json/Names,
--                            Json/Accepted: theorems
--   System                   the client and the fake desk, joined by the codec, with System/Desk,
--                            System/Exchange, System/Asked: theorems; System/FakeCalls: a fake desk
--                            that always answers, for the tools; System/Link: a connection with one codec at
--                            each end; System/Whole: a call of the client on it, with all tasks that
--                            run; System/Carries, System/Duplex, System/Writing, System/Truthful,
--                            System/Held, System/Turns, System/Settling, System/Named, System/Restarted:
--                            theorems
--   Handler                  State and its lookups of mcp-server/src/handler.rs; Handler/Tools: the tools;
--                            Handler/Kept, Handler/Lists, Handler/Fresh, Handler/Lookup, Handler/Adjust,
--                            Handler/Confined, Handler/History, Handler/Seen, Handler/Ready,
--                            Handler/SetGet, Handler/SetGetMix: theorems
--   ChannelSet               BTreeSet<Channel>; ChannelSet/Order, Members, Canonical: theorems
--   Notify                   notify_on_config_change of mcp-server/src/handler.rs; Notify/Parts,
--                            Notify/Tracked: theorems
--   Server                   sighup_task of mcp-server/src/main.rs, and Args of mcp-server/src/args.rs;
--                            Server/Sessions: the service that main puts together; Server/Notifier: the
--                            task that tells a session of changes; Server/Guarded, Server/InForce,
--                            Server/Told: theorems
--   Auth                     the token middleware of mcp-server/src/auth.rs; Auth/Guard: its theorem
--   Tools                    scrape-channel-names and the requests of inspect-dlive; Tools/Inspector: the
--                            main of inspect-dlive; Tools/Scraped, Tools/Inspected: theorems
--   Tests/*                  the tests of the source (Tests/Source), and each theorem at a concrete input
--
-- Conventions. A u8 is a natural number below 256, and its arithmetic keeps the wrap-around. A text is the
-- list of its character codes. A `?` is `>>=`; an `ensure!` is `ensure`; an `unwrap`, an index out of
-- bounds or an `unreachable!` that is reached is the outcome `panic`. Logging is left out.
--
-- Bounds and fuel. `decode` runs on the length of its input plus one, which is enough since each MIDI
-- message takes a byte at least (`Consumes`). `step_by` runs on the end of the range plus one, which is
-- enough for any step of at least 1.
--
-- Parameters. The crates midi-stream and wmidi (`Midi`, `IsWmidi`, `IsLossless`, `Consumes`,
-- `IsDuplex`), tokio's broadcast channel (`Broadcast`, `IsBroadcast`), the sink of a framed stream,
-- axum and http (`Http`), dotenvy, the network behind a connection attempt, tokio's watch channel
-- (`Watch`, `IsWatch`, `WatchSender`, `IsWatchSender`, `WatchReceivers`, `AreReceivers`, `StaysOpen`),
-- the peer of a session (`notify`), f32 (`F32`, `IsF32`, `IsExact`), UTF-8 (`Utf8`), and, for the
-- handler and the scraper, the calls of the client (`Calls`, with `IsDesk`, `IsConfined` and
-- `TellsNames`). `fake_calls`, on which the tools run in the tests, is a value of that interface in which
-- every answer comes; it is no model of the client, whose calls can miss an answer and time out (Client,
-- System/Whole). A call of the handler sees one state of its receiver: the configuration changes between
-- calls. The numbers of JSON and their rounding to f32 are serde's (`JsonNumbers`, `IsRounding`,
-- `IsReadBack`).
--
-- In System/Exchange and System/Asked, the two directions of a connection have codecs of their own, each in
-- step with the other end; System/Link has one codec for both directions at each end, as `Framed` has, and
-- relies on the inner codec to keep its two directions apart (`IsDuplex`). There, bytes are in transit as
-- whole MIDI messages.
--
-- Not modelled: files, sockets and the screen, in the command line tools and in the fake desk's main; the
-- listener of the web server, and how the axum and rmcp crates route a request to its session; that a receiving
-- task which ends closes the client's queue, after which a call fails at once where it would time out here;
-- Debug, and the text of a level.
pub mod Prelude
pub mod Text
pub mod ChannelSet
pub mod Channels
pub mod Messages
pub mod Levels
pub mod MidiStream
pub mod Codecs
pub mod PlainMidi
pub mod Json
pub mod Args
pub mod Auth
pub mod FakeDlive
pub mod Handler
pub mod Notify
pub mod Server
pub mod System
pub mod Tools
pub mod Client
mod Tests
