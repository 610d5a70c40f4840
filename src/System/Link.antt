-- ===== src/System/Link.antt =====
-- A TCP connection between two framed streams, as lib/src/client.rs and fake-dlive/src/main.rs make
-- them: each end has one codec of lib/src/codecs.rs for what it writes and for what it reads.
use mcp_server_allenheath_dl.Prelude.{ℕ, List, [], ◌∷◌, ◌++◌, Option, some, Result, ok}
use mcp_server_allenheath_dl.Messages.{Message}
use mcp_server_allenheath_dl.MidiStream.{Midi}
use mcp_server_allenheath_dl.Codecs.Encoder.{DLiveCodec, default, encode}
use mcp_server_allenheath_dl.Codecs.Decoder.{decode}

-- An end sends a message, or asks its stream for the next one.
pub data Event : Type 0 where
  client_sends desk_sends : Message → Event
  client_reads desk_reads : Event

-- The codecs, the bytes on their way to the desk and to the client, and what each end has read.
pub record Link (S : Type 0) : Type 0 where
  pub client : DLiveCodec S
  pub desk : DLiveCodec S
  pub up : List ℕ
  pub down : List ℕ
  pub desk_read : List Message
  pub client_read : List Message

-- The item that a stream gives, if any.
abbrev pub item_of : Result (Option Message) → List Message
item_of (ok (some m)) = m ∷ []
item_of _ = []

module _ (midi : Midi) where
  -- `Framed::new(stream, DLiveCodec::default())` at both ends.
  abbrev pub connected : Link midi.State
  connected = record {
    client = default midi;
    desk = default midi;
    up = [];
    down = [];
    desk_read = [];
    client_read = [];
  }

  unfoldable pub step : Event → Link midi.State → Link midi.State
  unfolding encode decode
  step (client_sends m) l =
      let (r, (c, bytes)) = encode midi m (l.client, l.up) in record l { client = c; up = bytes }
  step (desk_sends m) l =
      let (r, (c, bytes)) = encode midi m (l.desk, l.down) in record l { desk = c; down = bytes }
  step client_reads l =
      let (r, (c, bytes)) = decode midi (l.client, l.down) in
      record l { client = c; down = bytes; client_read = l.client_read ++ item_of r }
  step desk_reads l =
      let (r, (c, bytes)) = decode midi (l.desk, l.up) in
      record l { desk = c; up = bytes; desk_read = l.desk_read ++ item_of r }

  unfoldable pub run : List Event → Link midi.State → Link midi.State
  unfolding step
  run [] l = l
  run (e ∷ es) l = run es (step e l)
