-- ===== src/Codecs/Hears.antt =====
-- `decode_sysex_message` of lib/src/codecs.rs on the SysEx bodies of the protocol's table.
use mcp_server_allenheath_dl.Prelude.{
  ℕ, ◌<◌, ◌≡◌, refl, List, [], ◌∷◌, ◌++◌, some, ok, le→leb, arith, length, suc,
}
use mcp_server_allenheath_dl.Channels.{ChannelType, input, Channel, IsValid, from_midi}
use mcp_server_allenheath_dl.Channels.Midi.{midi_channel_of, first_note, note_of, from_midi-address}
use mcp_server_allenheath_dl.Channels.Names.{ChannelName, IsName, try_from-bytes}
use mcp_server_allenheath_dl.Channels.Colours.{ChannelColour, to_u8, try_from-to_u8, to_u8-lt}
use mcp_server_allenheath_dl.Channels.Colours
use mcp_server_allenheath_dl.Messages.{
  Message, get_mute_status, get_fader_level, get_main_mix_assignment, send_level, get_send_level,
  get_send_assign, set_channel_name, get_channel_name, channel_name, set_channel_colour,
  get_channel_colour, channel_colour,
}
use mcp_server_allenheath_dl.Codecs.Encoder.{sysex_header}
use mcp_server_allenheath_dl.Codecs.Sysex.{decode_sysex_message}
use mcp_server_allenheath_dl.Codecs.Wire.{heard_as, nth_colour}

-- The decoder reads the body as the message.
abbrev pub Reads : List ℕ → Message → Type 0
Reads body m = decode_sysex_message (sysex_header ++ body) ≡ ok (some m)

-- The note 9 of a MIDI channel belongs to its first range.
from_midi-nine :
    (t : ChannelType)
    → first_note t < 8
    → from_midi (midi_channel_of t) 9 ≡ ok (record { ty = t; number = 10 })
unfolding from_midi
from_midi-nine input h = refl
from_midi-nine _ h = ground arith

try_from-nth : (n : ℕ) → n < 8 → Colours.try_from n ≡ ok (nth_colour n)
unfolding Colours.try_from
try_from-nth n h = ground arith

module _ (c : Channel) (v : IsValid c) where
  pub Reads-get_fader_level :
      Reads (midi_channel_of c.ty ∷ 0x05 ∷ 0x0B ∷ 0x17 ∷ note_of c ∷ []) (get_fader_level c)
  unfolding decode_sysex_message
  Reads-get_fader_level = rw (from_midi-address c v)

  pub Reads-get_main_mix_assignment :
      Reads (midi_channel_of c.ty ∷ 0x05 ∷ 0x0B ∷ 0x18 ∷ note_of c ∷ []) (get_main_mix_assignment c)
  unfolding decode_sysex_message
  Reads-get_main_mix_assignment = rw (from_midi-address c v)

  pub Reads-get_channel_name :
      Reads (midi_channel_of c.ty ∷ 0x01 ∷ note_of c ∷ []) (get_channel_name c)
  unfolding decode_sysex_message
  Reads-get_channel_name = rw (from_midi-address c v)

  pub Reads-get_channel_colour :
      Reads (midi_channel_of c.ty ∷ 0x04 ∷ note_of c ∷ []) (get_channel_colour c)
  unfolding decode_sysex_message
  Reads-get_channel_colour = rw (from_midi-address c v)

  pub Reads-channel_name :
      (n : ChannelName)
      → IsName n
      → Reads (midi_channel_of c.ty ∷ 0x02 ∷ note_of c ∷ n.bytes) (channel_name c n)
  unfolding decode_sysex_message
  Reads-channel_name n h =
      rw (from_midi-address c v, try_from-bytes n h, le→leb 1 (suc (length n.bytes)) (omega arith))

  pub Reads-set_channel_name :
      (n : ChannelName)
      → IsName n
      → Reads (midi_channel_of c.ty ∷ 0x03 ∷ note_of c ∷ n.bytes) (set_channel_name c n)
  unfolding decode_sysex_message
  Reads-set_channel_name n h =
      rw (from_midi-address c v, try_from-bytes n h, le→leb 1 (suc (length n.bytes)) (omega arith))

  pub Reads-set_channel_colour :
      (k : ChannelColour)
      → Reads (midi_channel_of c.ty ∷ 0x06 ∷ note_of c ∷ to_u8 k ∷ []) (set_channel_colour c k)
  unfolding decode_sysex_message
  Reads-set_channel_colour k = rw (from_midi-address c v, try_from-to_u8 k)

  pub Reads-channel_colour :
      (k : ChannelColour)
      → Reads (midi_channel_of c.ty ∷ 0x05 ∷ note_of c ∷ to_u8 k ∷ []) (channel_colour c k)
  unfolding decode_sysex_message
  Reads-channel_colour k =
      rw (le→leb (to_u8 k) 7 (omega (arith, to_u8-lt k)), from_midi-address c v, try_from-to_u8 k)

  pub Reads-get_mute_status :
      Reads (midi_channel_of c.ty ∷ 0x05 ∷ 0x09 ∷ note_of c ∷ []) (heard_as (get_mute_status c))
  unfolding decode_sysex_message
  Reads-get_mute_status =
      ground (arith, from_midi-address c v, from_midi-nine c.ty, try_from-nth (note_of c))

  module _ (d : Channel) (w : IsValid d) where
    pub Reads-get_send_level :
        Reads
          (midi_channel_of c.ty
            ∷ 0x05
            ∷ 0x0F
            ∷ 0x0D
            ∷ note_of c
            ∷ midi_channel_of d.ty
            ∷ note_of d
            ∷ [])
          (get_send_level c d)
    unfolding decode_sysex_message
    Reads-get_send_level = rw (from_midi-address c v, from_midi-address d w)

    pub Reads-get_send_assign :
        Reads
          (midi_channel_of c.ty
            ∷ 0x05
            ∷ 0x0F
            ∷ 0x0E
            ∷ note_of c
            ∷ midi_channel_of d.ty
            ∷ note_of d
            ∷ [])
          (get_send_assign c d)
    unfolding decode_sysex_message
    Reads-get_send_assign = rw (from_midi-address c v, from_midi-address d w)

    pub Reads-send_level :
        (n : ℕ)
        → Reads
            (midi_channel_of c.ty ∷ 0x0D ∷ note_of c ∷ midi_channel_of d.ty ∷ note_of d ∷ n ∷ [])
            (send_level c d (record { value = n }))
    unfolding decode_sysex_message
    Reads-send_level n = rw (from_midi-address c v, from_midi-address d w)
