-- ===== src/Codecs/Encoder.antt =====
-- `DLiveCodec` of lib/src/codecs.rs, and its `Encoder`. An action works on the codec and on `dst`:
-- what it wrote before an error stays in `dst`.
use mcp_server_allenheath_dl.Prelude.{
  ℕ, Bool, ◌&&◌, List, [], ◌∷◌, ◌++◌, leb, if◌then◌else◌, Result, ensure, bad_dca, bad_mute_group,
}
use mcp_server_allenheath_dl.Prelude.Exec.{Exec, lift, ◌>>=◌, ◌>>◌}
use mcp_server_allenheath_dl.Channels.{Channel, default_channel, to_midi, add_u8, sub_u8}
use mcp_server_allenheath_dl.Messages.{
  Level, Message, mute_status, get_mute_status, fader_level, get_fader_level, main_mix_assignment,
  get_main_mix_assignment, send_level, get_send_level, send_assign, get_send_assign, dca_assign,
  mute_group_assign, set_channel_name, get_channel_name, channel_name, set_channel_colour,
  get_channel_colour, channel_colour,
}
use mcp_server_allenheath_dl.MidiStream.{MidiMessage, note_on, control_change, sys_ex, Midi}
use mcp_server_allenheath_dl.Codecs.Body

pub record DLiveCodec (S : Type 0) : Type 0 where
  pub inner : S
  pub current_channel : Channel
  pub current_param : ℕ

abbrev pub sysex_header : List ℕ
sysex_header = 0x00 ∷ 0x00 ∷ 0x1A ∷ 0x50 ∷ 0x10 ∷ 0x01 ∷ 0x00 ∷ []

module _ (midi : Midi) where
  abbrev pub control_channel : ℕ
  control_channel = midi.non_registered_parameter_number_msb

  abbrev pub control_param : ℕ
  control_param = midi.non_registered_parameter_number_lsb

  abbrev pub control_value : ℕ
  control_value = midi.data_entry_msb

  abbrev pub param_fader_level : ℕ
  param_fader_level = midi.u7_from_u8_lossy 0x17

  abbrev pub param_main_mix_assign : ℕ
  param_main_mix_assign = midi.u7_from_u8_lossy 0x18

  abbrev pub param_dca_mg_assign : ℕ
  param_dca_mg_assign = midi.u7_from_u8_lossy 0x40

  -- The derived `Default`.
  abbrev pub default : DLiveCodec midi.State
  default = record {
    inner = midi.new;
    current_channel = default_channel;
    current_param = midi.u7_min;
  }

  abbrev pub Encode : Type 0
  Encode = Exec (DLiveCodec midi.State × List ℕ) (Unit {0})

  -- `self.inner.encode(m, dst)?`
  unfoldable pub encode_inner : MidiMessage → Encode
  encode_inner m (codec, dst) =
      let (r, (s, dst')) = midi.encode m (codec.inner, dst) in
      (r, (record codec { inner = s }, dst'))

  unfoldable pub encode_sysex : Result (List ℕ) → Encode
  encode_sysex f = do
    body ← lift f
    bytes ← lift (midi.u7_try_from_bytes (sysex_header ++ body))
    encode_inner (sys_ex bytes)

  unfoldable pub encode_mute_status : Channel → Bool → Encode
  encode_mute_status channel mute = do
    (midi_channel, note) ← lift (to_midi channel)
    midi_channel ← lift (midi.channel_from_index midi_channel)
    let note = midi.note_from_u8_lossy note
    let velocity = if mute then midi.u7_from_u8_lossy 0x7F else midi.u7_from_u8_lossy 0x3F
    encode_inner (note_on midi_channel note velocity)
    encode_inner (note_on midi_channel note midi.u7_min)

  unfoldable pub encode_fader_level : Channel → Level → Encode
  encode_fader_level channel level = do
    (midi_channel, note) ← lift (to_midi channel)
    midi_channel ← lift (midi.channel_from_index midi_channel)
    note ← lift (midi.u7_try_from note)
    encode_inner (control_change midi_channel control_channel note)
    encode_inner (control_change midi_channel control_param param_fader_level)
    value ← lift (midi.u7_try_from level.value)
    encode_inner (control_change midi_channel control_value value)

  unfoldable pub encode_main_mix_assignment : Channel → Bool → Encode
  encode_main_mix_assignment channel assign = do
    (midi_channel, note) ← lift (to_midi channel)
    midi_channel ← lift (midi.channel_from_index midi_channel)
    let velocity = if assign then midi.u7_from_u8_lossy 0x7F else midi.u7_from_u8_lossy 0x3F
    note ← lift (midi.u7_try_from note)
    encode_inner (control_change midi_channel control_channel note)
    encode_inner (control_change midi_channel control_param param_main_mix_assign)
    encode_inner (control_change midi_channel control_value velocity)

  -- The three control changes that both kinds of assignment send.
  unfoldable pub encode_assign_value : ℕ → ℕ → ℕ → Encode
  encode_assign_value midi_channel note value = do
    note ← lift (midi.u7_try_from note)
    encode_inner (control_change midi_channel control_channel note)
    encode_inner (control_change midi_channel control_param param_dca_mg_assign)
    encode_inner (control_change midi_channel control_value (midi.u7_from_u8_lossy value))

  unfoldable pub encode_dca_assign : Channel → ℕ → Bool → Encode
  encode_dca_assign channel dca assign = do
    (midi_channel, note) ← lift (to_midi channel)
    midi_channel ← lift (midi.channel_from_index midi_channel)
    lift (ensure (leb 1 dca && leb dca 24) bad_dca)
    encode_assign_value midi_channel note (add_u8 (sub_u8 dca 1) (if assign then 0x40 else 0x00))

  unfoldable pub encode_mute_group_assign : Channel → ℕ → Bool → Encode
  encode_mute_group_assign channel mute_group assign = do
    (midi_channel, note) ← lift (to_midi channel)
    midi_channel ← lift (midi.channel_from_index midi_channel)
    lift (ensure (leb 1 mute_group && leb mute_group 8) bad_mute_group)
    encode_assign_value midi_channel note
        (add_u8 (sub_u8 mute_group 1) (if assign then 0x58 else 0x18))

  unfoldable pub encode : Message → Encode
  encode (mute_status channel mute) = encode_mute_status channel mute
  encode (get_mute_status channel) = encode_sysex (Body.get_mute_status channel)
  encode (fader_level channel level) = encode_fader_level channel level
  encode (get_fader_level channel) = encode_sysex (Body.get_fader_level channel)
  encode (main_mix_assignment channel assign) = encode_main_mix_assignment channel assign
  encode (get_main_mix_assignment channel) = encode_sysex (Body.get_main_mix_assignment channel)
  encode (send_level channel send level) = encode_sysex (Body.send_level channel send level)
  encode (get_send_level channel send) = encode_sysex (Body.get_send_level channel send)
  encode (send_assign channel send assign) = encode_sysex (Body.send_assign channel send assign)
  encode (get_send_assign channel send) = encode_sysex (Body.get_send_assign channel send)
  encode (dca_assign channel dca assign) = encode_dca_assign channel dca assign
  encode (mute_group_assign channel group assign) = encode_mute_group_assign channel group assign
  encode (set_channel_name channel name) = encode_sysex (Body.set_channel_name channel name)
  encode (get_channel_name channel) = encode_sysex (Body.get_channel_name channel)
  encode (channel_name channel name) = encode_sysex (Body.channel_name channel name)
  encode (set_channel_colour channel colour) = encode_sysex (Body.set_channel_colour channel colour)
  encode (get_channel_colour channel) = encode_sysex (Body.get_channel_colour channel)
  encode (channel_colour channel colour) = encode_sysex (Body.channel_colour channel colour)
