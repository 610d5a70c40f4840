-- ===== src/Codecs/Sysex.antt =====
-- `decode_sysex_message` of lib/src/codecs.rs. The slice `raw` is a cursor: what has not been read.
use mcp_server_allenheath_dl.Prelude.{
  ℕ, Bool, false, List, [], ◌∷◌, Option, none, some, leb, ◌==◌, length, if◌then◌else◌, Result, ok,
  panic, ensure, ok_or, unknown_sysex, bad_sysex_length, ◌>>=◌, ◌>>◌,
}
use mcp_server_allenheath_dl.Channels.{Channel, from_midi}
use mcp_server_allenheath_dl.Channels.Names
use mcp_server_allenheath_dl.Channels.Colours
use mcp_server_allenheath_dl.Messages.{
  Message, get_mute_status, get_fader_level, get_main_mix_assignment, send_level, get_send_level,
  send_assign, get_send_assign, set_channel_name, get_channel_name, channel_name,
  set_channel_colour, get_channel_colour, channel_colour,
}
use mcp_server_allenheath_dl.Codecs.Encoder.{sysex_header}

-- `Buf::get_u8` panics at the end of the slice.
abbrev pub get_u8 : List ℕ → Result (ℕ × List ℕ)
get_u8 [] = panic
get_u8 (b ∷ raw) = ok (b, raw)

abbrev pub strip_prefix : List ℕ → List ℕ → Option (List ℕ)
strip_prefix [] raw = some raw
strip_prefix (p ∷ ps) [] = none
strip_prefix (p ∷ ps) (b ∷ raw) = if p == b then strip_prefix ps raw else none

-- What an arm of the match gives: `none` for its `return Ok(None)`, or a message and what it left
-- of `raw`.
abbrev Arm : Type 0
Arm = Result (Option (Message × List ℕ))

-- An arm that reads one note and builds a message on that channel.
unfoldable pub on_channel : (Channel → Message) → ℕ → List ℕ → Arm
on_channel message midi_channel raw = do
  (note, raw) ← get_u8 raw
  channel ← from_midi midi_channel note
  ok (some (message channel, raw))

-- The end of the arms 0x0B and 0x01, 0x04, where just the note is left.
unfoldable pub only_channel : (Channel → Message) → ℕ → List ℕ → Arm
unfolding on_channel
only_channel message midi_channel raw = do
  ensure (length raw == 1) bad_sysex_length
  on_channel message midi_channel raw

unfoldable pub decode_name : (Channel → Names.ChannelName → Message) → ℕ → List ℕ → Arm
decode_name message midi_channel raw = do
  ensure (leb 1 (length raw)) bad_sysex_length
  (note, raw) ← get_u8 raw
  channel ← from_midi midi_channel note
  name ← Names.try_from raw
  ok (some (message channel name, []))

unfoldable pub decode_colour : (Channel → Colours.ChannelColour → Message) → ℕ → List ℕ → Arm
decode_colour message midi_channel raw = do
  (note, raw) ← get_u8 raw
  channel ← from_midi midi_channel note
  (b, raw) ← get_u8 raw
  colour ← Colours.try_from b
  ok (some (message channel colour, raw))

-- The guard of the first arm 0x05: `raw.len() == 2 && raw[1] <= 0x07`.
abbrev pub is_colour : List ℕ → Bool
is_colour (a ∷ b ∷ []) = leb b 0x07
is_colour _ = false

-- Two channels, as a note, a MIDI channel and a note.
unfoldable pub get_channels : ℕ → List ℕ → Result (Channel × Channel × List ℕ)
get_channels midi_channel raw = do
  (note, raw) ← get_u8 raw
  channel ← from_midi midi_channel note
  (send_midi_channel, raw) ← get_u8 raw
  (send_note, raw) ← get_u8 raw
  send ← from_midi send_midi_channel send_note
  ok (channel, send, raw)

-- The arm 0x0B of the second arm 0x05.
unfoldable pub decode_get_param : ℕ → List ℕ → Arm
unfolding only_channel
decode_get_param midi_channel raw = do
  (b, raw) ← get_u8 raw
  if b == 0x17
      then only_channel get_fader_level midi_channel raw
      else if b == 0x18
      then only_channel get_main_mix_assignment midi_channel raw
      else ok none

unfoldable pub decode_get_pair : (Channel → Channel → Message) → ℕ → List ℕ → Arm
unfolding get_channels
decode_get_pair message midi_channel raw = do
  ensure (length raw == 3) bad_sysex_length
  (channel, send, raw) ← get_channels midi_channel raw
  ok (some (message channel send, raw))

-- The arm 0x0F of the second arm 0x05.
unfoldable pub decode_get_send : ℕ → List ℕ → Arm
unfolding decode_get_pair
decode_get_send midi_channel raw = do
  (b, raw) ← get_u8 raw
  if b == 0x0D
      then decode_get_pair get_send_level midi_channel raw
      else if b == 0x0E
      then decode_get_pair get_send_assign midi_channel raw
      else ok none

-- The second arm 0x05.
unfoldable pub decode_get : ℕ → List ℕ → Arm
unfolding on_channel decode_get_param decode_get_send
decode_get midi_channel raw = do
  ensure (leb 2 (length raw)) bad_sysex_length
  (b, raw) ← get_u8 raw
  if b == 0x09
      then on_channel get_mute_status midi_channel raw
      else if b == 0x0B
      then decode_get_param midi_channel raw
      else if b == 0x0F
      then decode_get_send midi_channel raw
      else ok none

-- The arms 0x0D and 0x0E: two channels and a last byte.
unfoldable pub decode_send : (Channel → Channel → ℕ → Message) → ℕ → List ℕ → Arm
unfolding get_channels
decode_send message midi_channel raw = do
  ensure (length raw == 4) bad_sysex_length
  (channel, send, raw) ← get_channels midi_channel raw
  (b, raw) ← get_u8 raw
  ok (some (message channel send b, raw))

abbrev pub level_message : Channel → Channel → ℕ → Message
level_message channel send raw_level = send_level channel send (record { value = raw_level })

abbrev pub assign_message : Channel → Channel → ℕ → Message
assign_message channel send raw_assign = send_assign channel send (leb 0x40 raw_assign)

-- `match kind`
unfoldable pub decode_kind : ℕ → ℕ → List ℕ → Arm
unfolding only_channel decode_name decode_colour decode_get decode_send
decode_kind kind midi_channel raw =
    if kind == 0x01
    then only_channel get_channel_name midi_channel raw
    else if kind == 0x02
    then decode_name channel_name midi_channel raw
    else if kind == 0x03
    then decode_name set_channel_name midi_channel raw
    else if kind == 0x04
    then only_channel get_channel_colour midi_channel raw
    else if (if kind == 0x05 then is_colour raw else false)
    then decode_colour channel_colour midi_channel raw
    else if kind == 0x06
    then (do
      ensure (length raw == 2) bad_sysex_length
      decode_colour set_channel_colour midi_channel raw)
    else if kind == 0x05
    then decode_get midi_channel raw
    else if kind == 0x0D
    then decode_send level_message midi_channel raw
    else if kind == 0x0E
    then decode_send assign_message midi_channel raw
    else ok none

-- `ensure!(raw.is_empty())`, for an arm that did not return.
unfoldable pub finish : Option (Message × List ℕ) → Result (Option Message)
finish none = ok none
finish (some (message, raw)) = do ensure (length raw == 0) bad_sysex_length; ok (some message)

unfoldable pub decode_sysex_message : List ℕ → Result (Option Message)
unfolding decode_kind finish
decode_sysex_message raw = do
  raw ← ok_or (strip_prefix sysex_header raw) unknown_sysex
  (midi_channel, raw) ← get_u8 raw
  (kind, raw) ← get_u8 raw
  arm ← decode_kind kind midi_channel raw
  finish arm
