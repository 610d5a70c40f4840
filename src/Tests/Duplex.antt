-- ===== src/Tests/Duplex.antt =====
-- The theorem on both directions of a connection at a concrete exchange.
use mcp_server_allenheath_dl.Prelude.{◌≡◌, refl, List, [], ◌∷◌, ◌++◌, map, arith}
use mcp_server_allenheath_dl.Messages.{Message, get_send_level, send_level, fader_level}
use mcp_server_allenheath_dl.PlainMidi.{plain, plain-IsWmidi, plain-IsLossless, plain-Consumes}
use mcp_server_allenheath_dl.Channels.{to_midi, from_midi}
use mcp_server_allenheath_dl.Codecs.Body
use mcp_server_allenheath_dl.Codecs.Encoder
use mcp_server_allenheath_dl.Codecs.Sysex.{decode_sysex_message}
use mcp_server_allenheath_dl.Codecs.Decoder.{decode, on_midi}
use mcp_server_allenheath_dl.Codecs.Wire.{heard_as}
use mcp_server_allenheath_dl.Codecs.Stream.{Yields}
use mcp_server_allenheath_dl.Codecs.Duplex.{IsDuplex}
use mcp_server_allenheath_dl.System.Link.{
  Event, client_sends, desk_sends, client_reads, desk_reads, connected, run,
}
use mcp_server_allenheath_dl.System.Duplex.{sent_up, sent_down, run-Yields}
use mcp_server_allenheath_dl.Tests.System.{kick, monitor, loud}

-- There is nothing to remember.
pub plain-IsDuplex : IsDuplex plain plain-IsLossless
unfolding plain
plain-IsDuplex = record {
  Writer = Unit {0};
  Reader = Unit {0};
  writer = λ e. tt;
  reader = λ d. tt;
  frame_writer = λ e e' m h. refl;
  writer-sent = λ e e' m h. refl;
  reader-sent = λ e m. refl;
  writer-heard = λ d m. refl;
  synced_reader = λ e d d' h sync. sync;
}

-- The desk moves a fader of its own while the client asks.
abbrev both_ways : List Event
both_ways =
    client_sends (send_level kick monitor loud)
    ∷ desk_sends (fader_level monitor loud)
    ∷ desk_reads
    ∷ client_sends (get_send_level kick monitor)
    ∷ client_reads
    ∷ desk_reads
    ∷ desk_sends (send_level kick monitor loud)
    ∷ []

run-Yields_example :
    ((rest : List Message) × Yields plain
        (decode plain (
          (run plain both_ways (connected plain)).desk,
          (run plain both_ways (connected plain)).up,
        ))
        rest
      × ((run plain both_ways (connected plain)).desk_read ++ rest
          ≡ map heard_as (sent_up both_ways)))
    × ((rest : List Message) × Yields plain
          (decode plain (
            (run plain both_ways (connected plain)).client,
            (run plain both_ways (connected plain)).down,
          ))
          rest
        × ((run plain both_ways (connected plain)).client_read ++ rest
            ≡ map heard_as (sent_down both_ways)))
run-Yields_example =
    run-Yields plain plain-IsWmidi plain-IsLossless plain-Consumes plain-IsDuplex both_ways (
      (omega arith, omega arith, omega arith),
      (
        (omega arith, omega arith),
        (
          tt,
          ((omega arith, omega arith), (tt, (tt, ((omega arith, omega arith, omega arith), tt)))),
        ),
      ),
    )

-- The desk has read both of the client's messages.
desk_has_read :
    (run plain both_ways (connected plain)).desk_read
    ≡ send_level kick monitor loud ∷ get_send_level kick monitor ∷ []
unfolding run decode plain Encoder.encode_sysex Encoder.encode_inner Body.send_level
    Body.get_send_level to_midi from_midi on_midi decode_sysex_message
desk_has_read = refl
