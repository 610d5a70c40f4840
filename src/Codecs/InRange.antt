-- ===== src/Codecs/InRange.antt =====
-- The MIDI messages of the protocol's table are in range.
use mcp_server_allenheath_dl.Prelude.{ℕ, ◌<◌, Bool, [], ◌∷◌, ◌++◌, All, All-append, arith}
use mcp_server_allenheath_dl.Channels.{Channel, IsValid}
use mcp_server_allenheath_dl.Channels.Midi.{midi_channel_of, note_of, note_of-lt}
use mcp_server_allenheath_dl.Channels.Colours.{to_u8-lt}
use mcp_server_allenheath_dl.Messages.{
  Message, mute_status, get_mute_status, fader_level, get_fader_level, main_mix_assignment,
  get_main_mix_assignment, send_level, get_send_level, send_assign, get_send_assign, dca_assign,
  mute_group_assign, set_channel_name, get_channel_name, channel_name, set_channel_colour,
  get_channel_colour, channel_colour,
}
use mcp_server_allenheath_dl.MidiStream.{Midi, IsMidi, IsU7, IsWmidi}
use mcp_server_allenheath_dl.Codecs.Encoder.{sysex_header}
use mcp_server_allenheath_dl.Codecs.Wire.{on_off, nrpn, wire, IsEncodable}

pub midi_channel_of-lt : (c : Channel) → midi_channel_of c.ty < 16
midi_channel_of-lt c = ground arith

pub on_off-lt : (b : Bool) → on_off b < 128
on_off-lt b = ground arith

pub address : (c : Channel) → IsValid c → (midi_channel_of c.ty < 16) × (note_of c < 128)
address c v = (midi_channel_of-lt c, note_of-lt c v)

module _ (midi : Midi) (laws : IsWmidi midi) where
  nrpn-IsMidi :
      (c : Channel) (param value : ℕ)
      → IsValid c
      → IsU7 param
      → IsU7 value
      → All IsMidi (nrpn midi c param value)
  nrpn-IsMidi c param value v hp hv =
      omega (arith, midi_channel_of-lt c, note_of-lt c v, laws.msb_u7, laws.lsb_u7, laws.entry_u7)

  -- What is written is MIDI: channels below 16, data below 128.
  pub wire-IsMidi : (m : Message) → IsEncodable m → All IsMidi (wire midi m)
  wire-IsMidi (mute_status c b) v = omega (arith, midi_channel_of-lt c, note_of-lt c v, on_off-lt b)
  wire-IsMidi (fader_level c l) (v, h) = nrpn-IsMidi c 0x17 l.value v (omega arith) h
  wire-IsMidi (main_mix_assignment c b) v =
      nrpn-IsMidi c 0x18 (on_off b) v (omega arith) (on_off-lt b)
  wire-IsMidi (dca_assign c d b) (v, lo, hi) = nrpn-IsMidi c 0x40 _ v (omega arith) (ground arith)
  wire-IsMidi (mute_group_assign c g b) (v, lo, hi) =
      nrpn-IsMidi c 0x40 _ v (omega arith) (ground arith)
  wire-IsMidi (send_level c d l) (v, w, h) =
      omega (arith, midi_channel_of-lt c, note_of-lt c v, midi_channel_of-lt d, note_of-lt d w)
  wire-IsMidi (get_send_level c d) (v, w) =
      omega (arith, midi_channel_of-lt c, note_of-lt c v, midi_channel_of-lt d, note_of-lt d w)
  wire-IsMidi (send_assign c d b) (v, w) =
      ground (arith, midi_channel_of-lt c, note_of-lt c v, midi_channel_of-lt d, note_of-lt d w)
  wire-IsMidi (get_send_assign c d) (v, w) =
      omega (arith, midi_channel_of-lt c, note_of-lt c v, midi_channel_of-lt d, note_of-lt d w)
  wire-IsMidi (set_channel_name c n) (v, _, h) =
      let (hc, hn) = address c v in
      (
        All-append IsU7 (sysex_header ++ (midi_channel_of c.ty ∷ 0x03 ∷ note_of c ∷ [])) n.bytes
            (omega arith) h,
        tt,
      )
  wire-IsMidi (channel_name c n) (v, _, h) =
      let (hc, hn) = address c v in
      (
        All-append IsU7 (sysex_header ++ (midi_channel_of c.ty ∷ 0x02 ∷ note_of c ∷ [])) n.bytes
            (omega arith) h,
        tt,
      )
  wire-IsMidi (set_channel_colour c k) v =
      omega (arith, midi_channel_of-lt c, note_of-lt c v, to_u8-lt k)
  wire-IsMidi (channel_colour c k) v =
      omega (arith, midi_channel_of-lt c, note_of-lt c v, to_u8-lt k)
  wire-IsMidi (get_mute_status c) v = omega (arith, midi_channel_of-lt c, note_of-lt c v)
  wire-IsMidi (get_fader_level c) v = omega (arith, midi_channel_of-lt c, note_of-lt c v)
  wire-IsMidi (get_main_mix_assignment c) v = omega (arith, midi_channel_of-lt c, note_of-lt c v)
  wire-IsMidi (get_channel_name c) v = omega (arith, midi_channel_of-lt c, note_of-lt c v)
  wire-IsMidi (get_channel_colour c) v = omega (arith, midi_channel_of-lt c, note_of-lt c v)
