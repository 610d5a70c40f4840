-- ===== src/Tests/Errors.antt =====
-- The theorems on what the codec writes, refuses and panics on, at concrete inputs.
use mcp_server_allenheath_dl.Prelude.{◌≡◌, ◌↔◌, true, [], ◌∷◌, ◌++◌, err, panic, not_u7, arith}
use mcp_server_allenheath_dl.Channels.{Channel, input}
use mcp_server_allenheath_dl.Messages.{mute_status, fader_level, dca_assign}
use mcp_server_allenheath_dl.PlainMidi.{plain, plain-IsWmidi, plain-IsLossless}
use mcp_server_allenheath_dl.Codecs.Encoder.{default, encode, sysex_header}
use mcp_server_allenheath_dl.Codecs.Sysex.{decode_sysex_message}
use mcp_server_allenheath_dl.Codecs.Wire.{wire, IsEncodable}
use mcp_server_allenheath_dl.Codecs.Written.{Wrote}
use mcp_server_allenheath_dl.Codecs.Ensures.{Ensures}
use mcp_server_allenheath_dl.Codecs.Sound.{
  IsAnswer, IsCut, decode_sysex_message_sound, decode_sysex_message_panics_iff,
}
use mcp_server_allenheath_dl.Codecs.Sends.{encode-wire}
use mcp_server_allenheath_dl.Codecs.Refusals.{Fails, encode_refuses}
use mcp_server_allenheath_dl.Codecs.LateLevel.{half_fader, encode_late_level}

abbrev ip1 : Channel
ip1 = record { ty = input; number = 1 }

encode-wire_example :
    encode plain (mute_status ip1 true) (default plain, [])
    ≡ Wrote plain plain-IsLossless (wire plain (mute_status ip1 true)) (default plain, [])
encode-wire_example =
    encode-wire plain plain-IsWmidi plain-IsLossless (mute_status ip1 true) (default plain, [])
      (omega arith, omega arith)

dca_25 : ¬ IsEncodable (dca_assign ip1 25 true)
dca_25 (v, lo, hi) = omega arith

encode_refuses_example : Fails plain (encode plain (dca_assign ip1 25 true)) (default plain, [])
encode_refuses_example =
    encode_refuses plain plain-IsWmidi (default plain, []) (dca_assign ip1 25 true) tt dca_25
      (λ h. h)

encode_late_level_example :
    encode plain (fader_level ip1 (record { value = 200 })) (default plain, [])
    ≡ (err not_u7, (Wrote plain plain-IsLossless (half_fader plain ip1) (default plain, [])).1)
encode_late_level_example =
    encode_late_level plain plain-IsWmidi plain-IsLossless ip1 (record { value = 200 })
      (default plain, []) (omega arith, omega arith) (omega arith)

decode_sysex_message_sound_example :
    Ensures IsAnswer (decode_sysex_message (sysex_header ++ 11 ∷ 0x05 ∷ 0x0F ∷ 0x0D ∷ []))
decode_sysex_message_sound_example =
    decode_sysex_message_sound 11 0x05 (0x0F ∷ 0x0D ∷ []) (omega arith)

decode_sysex_message_panics_iff_example :
    (decode_sysex_message (sysex_header ++ 11 ∷ []) ≡ panic) ↔ IsCut (sysex_header ++ 11 ∷ [])
decode_sysex_message_panics_iff_example =
    decode_sysex_message_panics_iff (sysex_header ++ 11 ∷ []) (omega arith)
