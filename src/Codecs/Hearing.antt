-- ===== src/Codecs/Hearing.antt =====
-- What the decoder of lib/src/codecs.rs hears in the MIDI messages of the protocol's table.
use mcp_server_allenheath_dl.Prelude.{
  ℕ, ◌+◌, ◌-◌, ◌≡◌, ap, ◌∙◌, Bool, List, [], ◌∷◌, ◌++◌, All, if◌then◌else◌, map,
}
use mcp_server_allenheath_dl.Channels.{Channel, IsValid}
use mcp_server_allenheath_dl.Channels.Midi.{midi_channel_of}
use mcp_server_allenheath_dl.Messages.{
  Message, mute_status, get_mute_status, fader_level, get_fader_level, main_mix_assignment,
  get_main_mix_assignment, send_level, get_send_level, send_assign, get_send_assign, dca_assign,
  mute_group_assign, set_channel_name, get_channel_name, channel_name, set_channel_colour,
  get_channel_colour, channel_colour,
}
use mcp_server_allenheath_dl.MidiStream.{MidiMessage, Midi, IsWmidi}
use mcp_server_allenheath_dl.Codecs.Decoder.{leave, give, on_control_value, on_midi}
use mcp_server_allenheath_dl.Codecs.Wire.{on_off, ask, nrpn, wire, IsEncodable, heard_as}
use mcp_server_allenheath_dl.Codecs.Hears.{
  Reads, Reads-get_mute_status, Reads-get_fader_level, Reads-get_main_mix_assignment,
  Reads-send_level, Reads-get_send_level, Reads-get_send_assign, Reads-set_channel_name,
  Reads-get_channel_name, Reads-channel_name, Reads-set_channel_colour, Reads-get_channel_colour,
  Reads-channel_colour,
}
use mcp_server_allenheath_dl.Codecs.Stream.{
  Hears, silent, skip, tell, select, select_param, on_value, value_fader, value_main_mix,
  value_assign, dca_value, mute_group_value, on_mute, on_release,
}

module _ (midi : Midi) (laws : IsWmidi midi) {ws : List MidiMessage} {ms : List Message}
    (rest : (ch : Channel) (p : ℕ) → Hears midi ch p ws ms) where
  Hears-sysex :
      (body : List ℕ) (m : Message) (ch : Channel) (p : ℕ)
      → Reads body m
      → Hears midi ch p (ask body ++ ws) (m ∷ ms)
  unfolding on_midi
  Hears-sysex body m ch p reads = tell {m = m} (ap leave reads) (rest ch p)

  Hears-nrpn :
      (c : Channel) (param value : ℕ) (m : Message) (ch : Channel) (p : ℕ)
      → IsValid c
      → on_control_value midi value c param ≡ give m
      → Hears midi ch p (nrpn midi c param value ++ ws) (m ∷ ms)
  Hears-nrpn c param value m ch p v e = skip (select midi laws c v ch p) (
      skip (select_param midi laws (midi_channel_of c.ty) param c p)
        (tell (on_value midi laws (midi_channel_of c.ty) value c param ∙ e) (rest c param)))

  Hears-mute_status :
      (c : Channel) (b : Bool) (ch : Channel) (p : ℕ)
      → IsValid c
      → Hears midi ch p (wire midi (mute_status c b) ++ ws) (mute_status c b ∷ ms)
  Hears-mute_status c b ch p v =
      tell (on_mute midi c v ch p b) (skip (on_release midi c v ch p) (rest ch p))

  Hears-wire :
      (m : Message) (ch : Channel) (p : ℕ)
      → IsEncodable m
      → Hears midi ch p (wire midi m ++ ws) (heard_as m ∷ ms)
  Hears-wire (mute_status c b) ch p v = Hears-mute_status c b ch p v
  Hears-wire (get_mute_status c) ch p v = Hears-sysex _ _ ch p (Reads-get_mute_status c v)
  Hears-wire (fader_level c l) ch p (v, h) =
      Hears-nrpn c 0x17 l.value _ ch p v (value_fader midi laws l.value c)
  Hears-wire (get_fader_level c) ch p v = Hears-sysex _ _ ch p (Reads-get_fader_level c v)
  Hears-wire (main_mix_assignment c b) ch p v =
      Hears-nrpn c 0x18 (on_off b) _ ch p v (value_main_mix midi laws b c)
  Hears-wire (get_main_mix_assignment c) ch p v =
      Hears-sysex _ _ ch p (Reads-get_main_mix_assignment c v)
  Hears-wire (send_level c d l) ch p (v, w, h) =
      Hears-sysex _ _ ch p (Reads-send_level c v d w l.value)
  Hears-wire (get_send_level c d) ch p (v, w) = Hears-sysex _ _ ch p (Reads-get_send_level c v d w)
  Hears-wire (send_assign c d b) ch p (v, w) =
      Hears-sysex _ _ ch p (Reads-send_level c v d w (if b then 0x7F else 0x4F))
  Hears-wire (get_send_assign c d) ch p (v, w) =
      Hears-sysex _ _ ch p (Reads-get_send_assign c v d w)
  Hears-wire (dca_assign c d b) ch p (v, lo, hi) = Hears-nrpn c 0x40 _ _ ch p v (
      value_assign midi laws ((if b then 0x40 else 0x00) + (d - 1)) c
      ∙ dca_value midi laws d b c lo hi)
  Hears-wire (mute_group_assign c g b) ch p (v, lo, hi) = Hears-nrpn c 0x40 _ _ ch p v (
      value_assign midi laws ((if b then 0x58 else 0x18) + (g - 1)) c
      ∙ mute_group_value midi laws g b c lo hi)
  Hears-wire (set_channel_name c n) ch p (v, h, _) =
      Hears-sysex _ _ ch p (Reads-set_channel_name c v n h)
  Hears-wire (get_channel_name c) ch p v = Hears-sysex _ _ ch p (Reads-get_channel_name c v)
  Hears-wire (channel_name c n) ch p (v, h, _) = Hears-sysex _ _ ch p (Reads-channel_name c v n h)
  Hears-wire (set_channel_colour c k) ch p v = Hears-sysex _ _ ch p (Reads-set_channel_colour c v k)
  Hears-wire (get_channel_colour c) ch p v = Hears-sysex _ _ ch p (Reads-get_channel_colour c v)
  Hears-wire (channel_colour c k) ch p v = Hears-sysex _ _ ch p (Reads-channel_colour c v k)

abbrev pub wires : (midi : Midi) → List Message → List MidiMessage
wires midi [] = []
wires midi (m ∷ ms) = wire midi m ++ wires midi ms

pub Hears-wires :
    (midi : Midi) (laws : IsWmidi midi) (ms : List Message) (ch : Channel) (p : ℕ)
    → All IsEncodable ms
    → Hears midi ch p (wires midi ms) (map heard_as ms)
Hears-wires midi laws [] ch p h = silent
Hears-wires midi laws (m ∷ ms) ch p (hm, hs) =
    Hears-wire midi laws (λ ch' p'. Hears-wires midi laws ms ch' p' hs) m ch p hm
