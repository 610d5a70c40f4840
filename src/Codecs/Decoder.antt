-- ===== src/Codecs/Decoder.antt =====
-- The `Decoder` of `DLiveCodec` in lib/src/codecs.rs: a loop over MIDI messages that remembers the
-- channel and the parameter of the last control changes.
use mcp_server_allenheath_dl.Prelude.{
  ℕ, zero, suc, true, false, List, Option, none, some, leb, ◌==◌, length, if◌then◌else◌, Result, ok,
  err, panic, stuck,
}
use mcp_server_allenheath_dl.Channels.{Channel, from_midi, add_u8, sub_u8}
use mcp_server_allenheath_dl.Messages.{
  Message, mute_status, fader_level, main_mix_assignment, dca_assign, mute_group_assign,
}
use mcp_server_allenheath_dl.MidiStream.{
  MidiMessage, note_on, note_off, control_change, sys_ex, owned_sys_ex, other, Midi,
}
use mcp_server_allenheath_dl.Codecs.Encoder.{
  DLiveCodec, control_channel, control_param, control_value, param_fader_level,
  param_main_mix_assign, param_dca_mg_assign,
}
use mcp_server_allenheath_dl.Codecs.Sysex.{decode_sysex_message}

-- What one round does: go on with the codec's two fields, or leave the function.
pub data Flow : Type 0 where
  proceed : Channel → ℕ → Flow
  leave : Result (Option Message) → Flow

abbrev pub give : Message → Flow
give m = leave (ok (some m))

-- `?` on a fallible call inside the loop.
abbrev try {ℓ} : {A : Type ℓ} → Result A → (A → Flow) → Flow
try (ok a) f = f a
try (err e) f = leave (err e)
try panic f = leave panic
try stuck f = leave stuck

unfoldable pub on_velocity : Channel → ℕ → Channel → ℕ → Flow
on_velocity channel velocity current_channel current_param =
    if velocity == 0x00
    then proceed current_channel current_param
    else if leb velocity 0x3F
    then give (mute_status channel false)
    else if leb velocity 0x7F
    then give (mute_status channel true)
    else leave panic

-- `0x80..=0xFF` is `unreachable!()`.
unfoldable pub on_assign_value : ℕ → Channel → ℕ → Flow
on_assign_value raw channel current_param =
    if leb raw 0x17
    then give (dca_assign channel (add_u8 (sub_u8 raw 0x00) 1) false)
    else if leb raw 0x1F
    then give (mute_group_assign channel (add_u8 (sub_u8 raw 0x18) 1) true)
    else if leb raw 0x3F
    then proceed channel current_param
    else if leb raw 0x57
    then give (dca_assign channel (add_u8 (sub_u8 raw 0x40) 1) true)
    else if leb raw 0x5F
    then give (mute_group_assign channel (add_u8 (sub_u8 raw 0x58) 1) true)
    else if leb raw 0x7F
    then proceed channel current_param
    else leave panic

module _ (midi : Midi) where
  -- The arm `CONTROL_VALUE`.
  unfoldable pub on_control_value : ℕ → Channel → ℕ → Flow
  unfolding on_assign_value
  on_control_value value channel param =
      if param == param_fader_level midi
      then give (fader_level channel (record { value = value }))
      else if param == param_main_mix_assign midi
      then give (main_mix_assignment channel (leb 0x40 value))
      else if param == param_dca_mg_assign midi
      then on_assign_value value channel param
      else proceed channel param

  -- `match &midi_msg`. Unknown messages, functions and parameters are logged and skipped.
  unfoldable pub on_midi : MidiMessage → Channel → ℕ → Flow
  on_midi (note_on midi_channel note velocity) channel param =
      try (from_midi midi_channel note) (λ muted. on_velocity muted velocity channel param)
  on_midi (note_off midi_channel note velocity) channel param = proceed channel param
  on_midi (owned_sys_ex bytes) channel param = leave (decode_sysex_message bytes)
  on_midi (control_change midi_channel func value) channel param =
      if func == control_channel midi
      then try (from_midi midi_channel value) (λ selected. proceed selected param)
      else if func == control_param midi
      then proceed channel value
      else if func == control_value midi
      then on_control_value value channel param
      else proceed channel param
  on_midi (sys_ex bytes) channel param = proceed channel param
  on_midi (other n) channel param = proceed channel param

  abbrev pub Decoded : Type 0
  Decoded = Result (Option Message) × (DLiveCodec midi.State × List ℕ)

  -- The end of a round; `continue` and the end of the loop's body are a call of `again`.
  unfoldable pub follow :
      (DLiveCodec midi.State × List ℕ → Decoded) → DLiveCodec midi.State × List ℕ → Flow → Decoded
  follow again (codec, src) (proceed channel param) =
      again (record codec { current_channel = channel; current_param = param }, src)
  follow again (codec, src) (leave result) = (result, (codec, src))

  -- `while let Some(midi_msg) = self.inner.decode(src)?`, on what `self.inner.decode(src)` gave.
  unfoldable pub next :
      (DLiveCodec midi.State × List ℕ → Decoded)
      → DLiveCodec midi.State
      → Result (Option MidiMessage) × (midi.State × List ℕ)
      → Decoded
  next again codec (ok none, (s, src)) = (ok none, (record codec { inner = s }, src))
  next again codec (ok (some m), (s, src)) =
      follow again (record codec { inner = s }, src)
        (on_midi m codec.current_channel codec.current_param)
  next again codec (err e, (s, src)) = (err e, (record codec { inner = s }, src))
  next again codec (panic, (s, src)) = (panic, (record codec { inner = s }, src))
  next again codec (stuck, (s, src)) = (stuck, (record codec { inner = s }, src))

  unfoldable pub decode_loop : ℕ → DLiveCodec midi.State × List ℕ → Decoded
  unfolding next follow
  decode_loop zero (codec, src) = (stuck, (codec, src))
  decode_loop (suc fuel) (codec, src) =
      next (decode_loop fuel) codec (midi.decode (codec.inner, src))

  -- Each round takes a byte at least, so one round more than there are bytes is enough.
  unfoldable pub decode : DLiveCodec midi.State × List ℕ → Decoded
  unfolding decode_loop
  decode (codec, src) = decode_loop (suc (length src)) (codec, src)
