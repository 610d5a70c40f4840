-- ===== src/Tests/Channels.antt =====
-- The theorems on lib/src/channels.rs at concrete inputs.
use mcp_server_allenheath_dl.Prelude.{
  ◌≡◌, refl, ok, err, arith, unknown_channel_type, if◌then◌else◌,
}
use mcp_server_allenheath_dl.Channels.{Channel, stereo_fx_send, mains, IsValid, to_midi, from_midi}
use mcp_server_allenheath_dl.Channels.Midi.{from_midi-to_midi}
use mcp_server_allenheath_dl.Channels.Text.{show_channel, channel_from_str}
use mcp_server_allenheath_dl.Channels.Reading.{
  has_prefix, channel_from_str-show_channel, channel_from_str_sound,
}
use mcp_server_allenheath_dl.Text.{codes, parse_u8, show_u8, parse_u8-show_u8}

abbrev main3 : Channel
main3 = record { ty = mains; number = 3 }

abbrev send2 : Channel
send2 = record { ty = stereo_fx_send; number = 2 }

main3_address : to_midi main3 ≡ ok (15, 50)
unfolding to_midi
main3_address = refl

main3_found : from_midi 15 50 ≡ ok main3
unfolding from_midi
main3_found = refl

from_midi-to_midi_example : from_midi 15 50 ≡ ok main3
from_midi-to_midi_example = from_midi-to_midi main3 15 50 main3_address

parse_u8-show_u8_example : parse_u8 (show_u8 207) ≡ ok 207
parse_u8-show_u8_example = parse_u8-show_u8 207 (omega arith)

channel_from_str-show_channel_example :
    channel_from_str (show_channel send2)
    ≡ (if has_prefix send2.ty then ok send2 else err unknown_channel_type)
channel_from_str-show_channel_example =
    channel_from_str-show_channel send2 (omega arith, omega arith)

read_main3 : channel_from_str (codes "Main3") ≡ ok main3
unfolding channel_from_str
read_main3 = refl

channel_from_str_sound_example : IsValid main3
channel_from_str_sound_example = channel_from_str_sound (codes "Main3") main3 read_main3
