-- ===== src/System.antt =====
-- The client of lib/src/client.rs and the desk of fake-dlive/src/main.rs, joined by two streams of
-- bytes that lib/src/codecs.rs writes and reads. Here each direction has codecs of its own; System/Link
-- has one codec at each end, as the code does.
pub mod Desk
pub mod Exchange
pub mod Asked
pub mod FakeCalls
pub mod Link
pub mod Carries
pub mod Duplex
pub mod Whole
pub mod Writing
pub mod Truthful
pub mod Held
pub mod Turns
pub mod Settling
pub mod Named
pub mod Restarted
use mcp_server_allenheath_dl.Prelude.{ℕ, List, [], ◌∷◌, ◌++◌, ok, err, panic, stuck, Result, map}
use mcp_server_allenheath_dl.Channels.Names.{ChannelName}
use mcp_server_allenheath_dl.Channels.{Channel}
use mcp_server_allenheath_dl.Messages.{
  Message, get_channel_name, channel_name, get_send_level, send_level, get_fader_level, fader_level,
}
use mcp_server_allenheath_dl.MidiStream.{Midi}
use mcp_server_allenheath_dl.Codecs.Encoder.{DLiveCodec, encode}
use mcp_server_allenheath_dl.FakeDlive.{
  State, insert, name_of, send_level_of, fader_level_of, handle_connection,
}

-- What a desk is for, apart from its code: what a message makes of its state, and what it answers.
abbrev pub after : Message → State → State
after (send_level c d l) s = record s { send_levels = insert (c, d) l s.send_levels }
after (fader_level c l) s = record s { fader_levels = insert c l s.fader_levels }
after _ s = s

abbrev pub name_reply : Channel → Result ChannelName → List Message
name_reply c (ok n) = channel_name c n ∷ []
name_reply c _ = []

abbrev pub reply : Message → State → List Message
reply (get_channel_name c) s = name_reply c (name_of c s)
reply (get_send_level c d) s = send_level c d (send_level_of c d s) ∷ []
reply (get_fader_level c) s = fader_level c (fader_level_of c s) ∷ []
reply _ s = []

abbrev pub after_all : List Message → State → State
after_all [] s = s
after_all (m ∷ ms) s = after_all ms (after m s)

abbrev pub replies : List Message → State → List Message
replies [] s = []
replies (m ∷ ms) s = reply m s ++ replies ms (after m s)

-- The desk with the encoder of its stream, on messages that its decoder returned: the outcome, the
-- desk's state, and the codec with the bytes that it wrote.
abbrev pub desk_session :
    (midi : Midi)
    → List Message
    → State
    → DLiveCodec midi.State
    → Result (Unit {0}) × (State × (DLiveCodec midi.State × List ℕ))
desk_session midi ms s codec = handle_connection (encode midi) (map ok ms) (s, (codec, []))
