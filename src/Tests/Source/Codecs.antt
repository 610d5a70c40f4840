-- ===== src/Tests/Source/Codecs.antt =====
-- The tests of lib/src/codecs.rs, on the plain value of the interface to the MIDI crates.
use mcp_server_allenheath_dl.Prelude.{ℕ, ◌≡◌, refl, List, [], ◌∷◌, some, ok}
use mcp_server_allenheath_dl.Channels.{Channel, input, to_midi, from_midi}
use mcp_server_allenheath_dl.Channels.Names.{ChannelName}
use mcp_server_allenheath_dl.Channels.Names
use mcp_server_allenheath_dl.Messages.{get_channel_name, channel_name}
use mcp_server_allenheath_dl.PlainMidi.{plain}
use mcp_server_allenheath_dl.Codecs.Body
use mcp_server_allenheath_dl.Codecs.Encoder.{default, encode, encode_sysex, encode_inner}
use mcp_server_allenheath_dl.Codecs.Sysex.{decode_sysex_message}
use mcp_server_allenheath_dl.Codecs.Decoder.{decode, on_midi}

abbrev ip42 : Channel
ip42 = record { ty = input; number = 42 }

-- "f000001a501001000b0129f7"
abbrev asked_name : List ℕ
asked_name = 0xf0 ∷ 0x00 ∷ 0x00 ∷ 0x1a ∷ 0x50 ∷ 0x10 ∷ 0x01 ∷ 0x00 ∷ 0x0b ∷ 0x01 ∷ 0x29 ∷ 0xf7 ∷ []

-- "f000001a501001000b02294368616e30310000f7"
abbrev told_name : List ℕ
told_name =
    0xf0 ∷ 0x00 ∷ 0x00 ∷ 0x1a ∷ 0x50 ∷ 0x10 ∷ 0x01 ∷ 0x00 ∷ 0x0b ∷ 0x02 ∷ 0x29 ∷ 0x43 ∷ 0x68 ∷ 0x61
    ∷ 0x6e ∷ 0x30 ∷ 0x31 ∷ 0x00 ∷ 0x00 ∷ 0xf7 ∷ []

abbrev chan01 : ChannelName
chan01 = record { bytes = 0x43 ∷ 0x68 ∷ 0x61 ∷ 0x6e ∷ 0x30 ∷ 0x31 ∷ 0x00 ∷ 0x00 ∷ [] }

abbrev TestEncodeGetChannelName : Type 0
TestEncodeGetChannelName =
    encode plain (get_channel_name ip42) (default plain, []) ≡ (ok tt, (default plain, asked_name))

test_encode_get_channel_name : TestEncodeGetChannelName
unfolding encode encode_sysex encode_inner plain Body.get_channel_name to_midi
test_encode_get_channel_name = refl

abbrev TestEncodeGetChannelNameResponse : Type 0
TestEncodeGetChannelNameResponse =
    encode plain (channel_name ip42 chan01) (default plain, [])
    ≡ (ok tt, (default plain, told_name))

test_encode_get_channel_name_response : TestEncodeGetChannelNameResponse
unfolding encode encode_sysex encode_inner plain Body.channel_name to_midi
test_encode_get_channel_name_response = refl

abbrev TestDecodeGetChannelName : Type 0
TestDecodeGetChannelName =
    decode plain (default plain, asked_name)
    ≡ (ok (some (get_channel_name ip42)), (default plain, []))

test_decode_get_channel_name : TestDecodeGetChannelName
unfolding decode on_midi plain decode_sysex_message from_midi
test_decode_get_channel_name = refl

abbrev TestDecodeGetChannelNameResponse : Type 0
TestDecodeGetChannelNameResponse =
    decode plain (default plain, told_name)
    ≡ (ok (some (channel_name ip42 chan01)), (default plain, []))

test_decode_get_channel_name_response : TestDecodeGetChannelNameResponse
unfolding decode on_midi plain decode_sysex_message from_midi Names.try_from
test_decode_get_channel_name_response = refl
