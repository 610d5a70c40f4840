-- ===== src/Tests/Codecs.antt =====
-- The tests of lib/src/codecs.rs, and the theorems on the codec at concrete inputs.
use mcp_server_allenheath_dl.Prelude.{◌≡◌, ◌↔◌, true, false, List, [], ◌∷◌, ok, map, arith}
use mcp_server_allenheath_dl.Channels.{Channel, input, stereo_aux}
use mcp_server_allenheath_dl.Messages.{
  Message, mute_status, get_mute_status, fader_level, send_level, send_assign, dca_assign,
  mute_group_assign,
}
use mcp_server_allenheath_dl.PlainMidi.{plain, plain-IsWmidi, plain-IsLossless, plain-Consumes}
use mcp_server_allenheath_dl.Codecs.Encoder.{default}
use mcp_server_allenheath_dl.Codecs.Decoder.{decode}
use mcp_server_allenheath_dl.Codecs.Wire.{heard_as}
use mcp_server_allenheath_dl.Codecs.Stream.{Yields, encode_all}
use mcp_server_allenheath_dl.Codecs.RoundTrip.{decode-encode_all}
use mcp_server_allenheath_dl.Codecs.Faithful.{IsFaithful, comes_back_iff}

abbrev ip42 : Channel
ip42 = record { ty = input; number = 42 }

-- A fader, a mute, a release from a mute group and an assignment to a send, in one stream.
abbrev session : List Message
session =
    fader_level ip42 (record { value = 0x6B })
    ∷ mute_status ip42 true
    ∷ mute_group_assign ip42 3 false
    ∷ send_assign ip42 (record { ty = stereo_aux; number = 2 }) true
    ∷ []

decode-encode_all_example :
    ((encode_all plain session (default plain, [])).0 ≡ ok tt)
    × Yields plain
        (decode plain (default plain, (encode_all plain session (default plain, [])).1.1))
        (map heard_as session)
decode-encode_all_example =
    decode-encode_all plain plain-IsWmidi plain-IsLossless plain-Consumes (default plain)
      (default plain) session plain-IsLossless.synced_new (omega arith)

abbrev exact : List Message
exact =
    dca_assign ip42 24 false
    ∷ mute_group_assign ip42 3 true
    ∷ send_level ip42 (record { ty = stereo_aux; number = 2 }) (record { value = 127 })
    ∷ []

-- The mute status of the first input is not asked for: its note is 0.
comes_back_iff_example :
    Yields plain
      (decode plain (
        default plain,
        (encode_all plain
            (get_mute_status (record { ty = input; number = 1 }) ∷ [])
            (default plain, [])).1.1,
      ))
      (get_mute_status (record { ty = input; number = 1 }) ∷ [])
    ↔ IsFaithful (get_mute_status (record { ty = input; number = 1 }))
comes_back_iff_example =
    comes_back_iff plain plain-IsWmidi plain-IsLossless plain-Consumes (default plain)
      (default plain) (get_mute_status (record { ty = input; number = 1 }))
      plain-IsLossless.synced_new (omega arith)
