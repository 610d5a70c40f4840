-- ===== src/Codecs/Sends.antt =====
-- `encode` of lib/src/codecs.rs writes the MIDI messages of the protocol's table, and no others.
use mcp_server_allenheath_dl.Prelude.{ℕ, ◌≡◌, List, ◌++◌, ok, All, All-append, arith}
use mcp_server_allenheath_dl.Channels.Midi.{to_midi_address}
use mcp_server_allenheath_dl.Channels.Colours.{to_u8-lt}
use mcp_server_allenheath_dl.Messages.{
  Message, mute_status, get_mute_status, fader_level, get_fader_level, main_mix_assignment,
  get_main_mix_assignment, send_level, get_send_level, send_assign, get_send_assign, dca_assign,
  mute_group_assign, set_channel_name, get_channel_name, channel_name, set_channel_colour,
  get_channel_colour, channel_colour,
}
use mcp_server_allenheath_dl.MidiStream.{Midi, IsU7, IsWmidi, IsLossless}
use mcp_server_allenheath_dl.Codecs.Body
use mcp_server_allenheath_dl.Codecs.Encoder.{DLiveCodec, sysex_header, encode_sysex, encode}
use mcp_server_allenheath_dl.Codecs.Wire.{ask, wire, IsEncodable}
use mcp_server_allenheath_dl.Codecs.InRange.{address}
use mcp_server_allenheath_dl.Codecs.Written.{Wrote, encode_one}
use mcp_server_allenheath_dl.Codecs.Controls.{
  Writes, encode_mute_status-Writes, encode_fader_level-Writes, encode_main_mix_assignment-Writes,
  encode_dca_assign-Writes, encode_mute_group_assign-Writes,
}

module _ (midi : Midi) (laws : IsWmidi midi) (lossless : IsLossless midi) where
  encode_sysex_lem :
      (body : List ℕ) (s : DLiveCodec midi.State × List ℕ)
      → All IsU7 body
      → encode_sysex midi (ok body) s ≡ Wrote midi lossless (ask body) s
  unfolding encode_sysex
  encode_sysex_lem body s h =
      let whole = All-append IsU7 sysex_header body (omega arith) h in
      rw (laws.bytes_ok (sysex_header ++ body) whole) (encode_one midi lossless _ s whole)

  pub encode-Writes : (m : Message) → IsEncodable m → Writes midi laws lossless m (encode midi m)
  unfolding encode Body.get_mute_status Body.get_fader_level Body.get_main_mix_assignment
      Body.send_level Body.get_send_level Body.send_assign Body.get_send_assign
      Body.set_channel_name Body.get_channel_name Body.channel_name Body.set_channel_colour
      Body.get_channel_colour Body.channel_colour
  encode-Writes (mute_status c b) v s = encode_mute_status-Writes midi laws lossless c b v s
  encode-Writes (get_mute_status c) v s =
      let (hc, hn) = address c v in rw (to_midi_address c v) (encode_sysex_lem _ s (omega arith))
  encode-Writes (fader_level c l) (v, h) s = encode_fader_level-Writes midi laws lossless c l v h s
  encode-Writes (get_fader_level c) v s =
      let (hc, hn) = address c v in rw (to_midi_address c v) (encode_sysex_lem _ s (omega arith))
  encode-Writes (main_mix_assignment c b) v s =
      encode_main_mix_assignment-Writes midi laws lossless c b v s
  encode-Writes (get_main_mix_assignment c) v s =
      let (hc, hn) = address c v in rw (to_midi_address c v) (encode_sysex_lem _ s (omega arith))
  encode-Writes (send_level c d l) (v, w, h) s =
      let (hc, hn) = address c v in
      let (hd, hm) = address d w in
      rw (to_midi_address c v, to_midi_address d w) (encode_sysex_lem _ s (omega arith))
  encode-Writes (get_send_level c d) (v, w) s =
      let (hc, hn) = address c v in
      let (hd, hm) = address d w in
      rw (to_midi_address c v, to_midi_address d w) (encode_sysex_lem _ s (omega arith))
  encode-Writes (send_assign c d b) (v, w) s =
      let (hc, hn) = address c v in
      let (hd, hm) = address d w in
      rw (to_midi_address c v, to_midi_address d w) (encode_sysex_lem _ s (ground arith))
  encode-Writes (get_send_assign c d) (v, w) s =
      let (hc, hn) = address c v in
      let (hd, hm) = address d w in
      rw (to_midi_address c v, to_midi_address d w) (encode_sysex_lem _ s (omega arith))
  encode-Writes (dca_assign c d b) (v, lo, hi) s =
      encode_dca_assign-Writes midi laws lossless c d b v lo hi s
  encode-Writes (mute_group_assign c g b) (v, lo, hi) s =
      encode_mute_group_assign-Writes midi laws lossless c g b v lo hi s
  encode-Writes (set_channel_name c n) (v, _, h) s =
      let (hc, hn) = address c v in
      rw (to_midi_address c v) (encode_sysex_lem _ s (omega arith, (omega arith, (omega arith, h))))
  encode-Writes (get_channel_name c) v s =
      let (hc, hn) = address c v in rw (to_midi_address c v) (encode_sysex_lem _ s (omega arith))
  encode-Writes (channel_name c n) (v, _, h) s =
      let (hc, hn) = address c v in
      rw (to_midi_address c v) (encode_sysex_lem _ s (omega arith, (omega arith, (omega arith, h))))
  encode-Writes (set_channel_colour c k) v s =
      let (hc, hn) = address c v in
      rw (to_midi_address c v) (encode_sysex_lem _ s (omega (arith, to_u8-lt k)))
  encode-Writes (get_channel_colour c) v s =
      let (hc, hn) = address c v in rw (to_midi_address c v) (encode_sysex_lem _ s (omega arith))
  encode-Writes (channel_colour c k) v s =
      let (hc, hn) = address c v in
      rw (to_midi_address c v) (encode_sysex_lem _ s (omega (arith, to_u8-lt k)))

  -- On an encodable message `encode` succeeds from any codec and buffer, and appends the MIDI messages
  -- of the protocol's table, in their order and no others.
  pub encode-wire :
      (m : Message) (s : DLiveCodec midi.State × List ℕ)
      → IsEncodable m
      → encode midi m s ≡ Wrote midi lossless (wire midi m) s
  encode-wire m s h = encode-Writes m h s
