-- ===== src/Codecs/Wire.antt =====
-- The protocol as a table: the MIDI messages that stand for a message of lib/src/messages.rs, and the
-- message that the decoder of lib/src/codecs.rs makes of them. Neither calls the codec.
use mcp_server_allenheath_dl.Prelude.{
  ℕ, zero, suc, ◌+◌, ◌-◌, ◌≤◌, Bool, true, List, [], ◌∷◌, ◌++◌, ltb, if◌then◌else◌, All,
}
use mcp_server_allenheath_dl.Channels.{Channel, IsValid}
use mcp_server_allenheath_dl.Channels.Midi.{midi_channel_of, note_of}
use mcp_server_allenheath_dl.Channels.Names.{IsName}
use mcp_server_allenheath_dl.Channels.Colours.{
  ChannelColour, to_u8, off, red, green, yellow, blue, purple, lt_blue, white,
}
use mcp_server_allenheath_dl.Messages.{
  Message, mute_status, get_mute_status, fader_level, get_fader_level, main_mix_assignment,
  get_main_mix_assignment, send_level, get_send_level, send_assign, get_send_assign, dca_assign,
  mute_group_assign, set_channel_name, get_channel_name, channel_name, set_channel_colour,
  get_channel_colour, channel_colour,
}
use mcp_server_allenheath_dl.MidiStream.{MidiMessage, note_on, control_change, sys_ex, Midi, IsU7}
use mcp_server_allenheath_dl.Codecs.Encoder.{
  sysex_header, control_channel, control_param, control_value,
}

abbrev pub on_off : Bool → ℕ
on_off b = if b then 0x7F else 0x3F

-- A SysEx about one channel.
abbrev pub ask : List ℕ → List MidiMessage
ask body = sys_ex (sysex_header ++ body) ∷ []

module _ (midi : Midi) where
  -- Channel, parameter and value, by three control changes.
  abbrev pub nrpn : Channel → ℕ → ℕ → List MidiMessage
  nrpn c param value =
      control_change (midi_channel_of c.ty) (control_channel midi) (note_of c)
      ∷ control_change (midi_channel_of c.ty) (control_param midi) param
      ∷ control_change (midi_channel_of c.ty) (control_value midi) value
      ∷ []

  abbrev pub wire : Message → List MidiMessage
  wire (mute_status c mute) =
      note_on (midi_channel_of c.ty) (note_of c) (on_off mute)
      ∷ note_on (midi_channel_of c.ty) (note_of c) 0
      ∷ []
  wire (get_mute_status c) = ask (midi_channel_of c.ty ∷ 0x05 ∷ 0x09 ∷ note_of c ∷ [])
  wire (fader_level c l) = nrpn c 0x17 l.value
  wire (get_fader_level c) = ask (midi_channel_of c.ty ∷ 0x05 ∷ 0x0B ∷ 0x17 ∷ note_of c ∷ [])
  wire (main_mix_assignment c b) = nrpn c 0x18 (on_off b)
  wire (get_main_mix_assignment c) =
      ask (midi_channel_of c.ty ∷ 0x05 ∷ 0x0B ∷ 0x18 ∷ note_of c ∷ [])
  wire (send_level c s l) =
      ask
        (midi_channel_of c.ty ∷ 0x0D ∷ note_of c ∷ midi_channel_of s.ty ∷ note_of s ∷ l.value ∷ [])
  wire (get_send_level c s) = ask (
      midi_channel_of c.ty ∷ 0x05 ∷ 0x0F ∷ 0x0D ∷ note_of c ∷ midi_channel_of s.ty ∷ note_of s ∷ [])
  wire (send_assign c s b) = ask (
      midi_channel_of c.ty
      ∷ 0x0D
      ∷ note_of c
      ∷ midi_channel_of s.ty
      ∷ note_of s
      ∷ (if b then 0x7F else 0x4F)
      ∷ [])
  wire (get_send_assign c s) = ask (
      midi_channel_of c.ty ∷ 0x05 ∷ 0x0F ∷ 0x0E ∷ note_of c ∷ midi_channel_of s.ty ∷ note_of s ∷ [])
  wire (dca_assign c d b) = nrpn c 0x40 ((if b then 0x40 else 0x00) + (d - 1))
  wire (mute_group_assign c g b) = nrpn c 0x40 ((if b then 0x58 else 0x18) + (g - 1))
  wire (set_channel_name c n) = ask (midi_channel_of c.ty ∷ 0x03 ∷ note_of c ∷ n.bytes)
  wire (get_channel_name c) = ask (midi_channel_of c.ty ∷ 0x01 ∷ note_of c ∷ [])
  wire (channel_name c n) = ask (midi_channel_of c.ty ∷ 0x02 ∷ note_of c ∷ n.bytes)
  wire (set_channel_colour c k) = ask (midi_channel_of c.ty ∷ 0x06 ∷ note_of c ∷ to_u8 k ∷ [])
  wire (get_channel_colour c) = ask (midi_channel_of c.ty ∷ 0x04 ∷ note_of c ∷ [])
  wire (channel_colour c k) = ask (midi_channel_of c.ty ∷ 0x05 ∷ note_of c ∷ to_u8 k ∷ [])

-- Channels and numbers are in the desk's ranges, levels and names in seven bits.
abbrev pub IsEncodable : Message → Type 0
IsEncodable (mute_status c _) = IsValid c
IsEncodable (get_mute_status c) = IsValid c
IsEncodable (fader_level c l) = IsValid c × IsU7 l.value
IsEncodable (get_fader_level c) = IsValid c
IsEncodable (main_mix_assignment c _) = IsValid c
IsEncodable (get_main_mix_assignment c) = IsValid c
IsEncodable (send_level c s l) = IsValid c × IsValid s × IsU7 l.value
IsEncodable (get_send_level c s) = IsValid c × IsValid s
IsEncodable (send_assign c s _) = IsValid c × IsValid s
IsEncodable (get_send_assign c s) = IsValid c × IsValid s
IsEncodable (dca_assign c d _) = IsValid c × (1 ≤ d) × (d ≤ 24)
IsEncodable (mute_group_assign c g _) = IsValid c × (1 ≤ g) × (g ≤ 8)
IsEncodable (set_channel_name c n) = IsValid c × IsName n × All IsU7 n.bytes
IsEncodable (get_channel_name c) = IsValid c
IsEncodable (channel_name c n) = IsValid c × IsName n × All IsU7 n.bytes
IsEncodable (set_channel_colour c _) = IsValid c
IsEncodable (get_channel_colour c) = IsValid c
IsEncodable (channel_colour c _) = IsValid c

-- The colour of a byte below 8.
abbrev pub nth_colour : ℕ → ChannelColour
nth_colour zero = off
nth_colour (suc zero) = red
nth_colour (suc (suc zero)) = green
nth_colour (suc (suc (suc zero))) = yellow
nth_colour (suc (suc (suc (suc zero)))) = blue
nth_colour (suc (suc (suc (suc (suc zero))))) = purple
nth_colour (suc (suc (suc (suc (suc (suc zero)))))) = lt_blue
nth_colour _ = white

-- Three kinds of message are heard as something else: a question for the mute status of a channel
-- whose note is below 8, every assignment to a send, and every release from a mute group.
abbrev pub heard_as : Message → Message
heard_as (get_mute_status c) =
    if ltb (note_of c) 8
    then channel_colour (record c { number = 10 }) (nth_colour (note_of c))
    else get_mute_status c
heard_as (send_assign c s b) = send_level c s (record { value = if b then 0x7F else 0x4F })
heard_as (mute_group_assign c g _) = mute_group_assign c g true
heard_as m = m
