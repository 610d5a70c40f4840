-- ===== src/Codecs/Body.antt =====
-- The closures that the arms of `encode` in lib/src/codecs.rs hand to `encode_sysex`: the bytes that
-- each puts behind the header. Colours are sent as `colour as u8`.
use mcp_server_allenheath_dl.Prelude.{
  ℕ, Bool, List, [], ◌∷◌, ◌++◌, Result, ok, ◌>>=◌, if◌then◌else◌,
}
use mcp_server_allenheath_dl.Channels.{Channel, to_midi}
use mcp_server_allenheath_dl.Channels.Names.{ChannelName}
use mcp_server_allenheath_dl.Channels.Colours.{ChannelColour, to_u8}
use mcp_server_allenheath_dl.Messages.{Level}

unfoldable pub get_mute_status : Channel → Result (List ℕ)
get_mute_status channel = do
  (midi_channel, note) ← to_midi channel
  ok (midi_channel ∷ 0x05 ∷ 0x09 ∷ note ∷ [])

unfoldable pub get_fader_level : Channel → Result (List ℕ)
get_fader_level channel = do
  (midi_channel, note) ← to_midi channel
  ok (midi_channel ∷ 0x05 ∷ 0x0B ∷ 0x17 ∷ note ∷ [])

unfoldable pub get_main_mix_assignment : Channel → Result (List ℕ)
get_main_mix_assignment channel = do
  (midi_channel, note) ← to_midi channel
  ok (midi_channel ∷ 0x05 ∷ 0x0B ∷ 0x18 ∷ note ∷ [])

unfoldable pub send_level : Channel → Channel → Level → Result (List ℕ)
send_level channel send level = do
  (midi_channel, note) ← to_midi channel
  (send_midi_channel, send_note) ← to_midi send
  ok (midi_channel ∷ 0x0D ∷ note ∷ send_midi_channel ∷ send_note ∷ level.value ∷ [])

unfoldable pub get_send_level : Channel → Channel → Result (List ℕ)
get_send_level channel send = do
  (midi_channel, note) ← to_midi channel
  (send_midi_channel, send_note) ← to_midi send
  ok (midi_channel ∷ 0x05 ∷ 0x0F ∷ 0x0D ∷ note ∷ send_midi_channel ∷ send_note ∷ [])

unfoldable pub send_assign : Channel → Channel → Bool → Result (List ℕ)
send_assign channel send assign = do
  (midi_channel, note) ← to_midi channel
  (send_midi_channel, send_note) ← to_midi send
  ok (
      midi_channel
      ∷ 0x0D
      ∷ note
      ∷ send_midi_channel
      ∷ send_note
      ∷ (if assign then 0x7F else 0x4F)
      ∷ [])

unfoldable pub get_send_assign : Channel → Channel → Result (List ℕ)
get_send_assign channel send = do
  (midi_channel, note) ← to_midi channel
  (send_midi_channel, send_note) ← to_midi send
  ok (midi_channel ∷ 0x05 ∷ 0x0F ∷ 0x0E ∷ note ∷ send_midi_channel ∷ send_note ∷ [])

unfoldable pub set_channel_name : Channel → ChannelName → Result (List ℕ)
set_channel_name channel name = do
  (midi_channel, note) ← to_midi channel
  ok ((midi_channel ∷ 0x03 ∷ note ∷ []) ++ name.bytes)

unfoldable pub get_channel_name : Channel → Result (List ℕ)
get_channel_name channel = do
  (midi_channel, note) ← to_midi channel
  ok (midi_channel ∷ 0x01 ∷ note ∷ [])

unfoldable pub channel_name : Channel → ChannelName → Result (List ℕ)
channel_name channel name = do
  (midi_channel, note) ← to_midi channel
  ok ((midi_channel ∷ 0x02 ∷ note ∷ []) ++ name.bytes)

unfoldable pub set_channel_colour : Channel → ChannelColour → Result (List ℕ)
set_channel_colour channel colour = do
  (midi_channel, note) ← to_midi channel
  ok (midi_channel ∷ 0x06 ∷ note ∷ to_u8 colour ∷ [])

unfoldable pub get_channel_colour : Channel → Result (List ℕ)
get_channel_colour channel = do
  (midi_channel, note) ← to_midi channel
  ok (midi_channel ∷ 0x04 ∷ note ∷ [])

unfoldable pub channel_colour : Channel → ChannelColour → Result (List ℕ)
channel_colour channel colour = do
  (midi_channel, note) ← to_midi channel
  ok (midi_channel ∷ 0x05 ∷ note ∷ to_u8 colour ∷ [])
