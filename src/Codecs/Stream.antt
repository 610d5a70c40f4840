-- ===== src/Codecs/Stream.antt =====
-- What the decoder of lib/src/codecs.rs makes of the MIDI messages of the protocol's table, and of
-- the bytes that an encoder wrote.
use mcp_server_allenheath_dl.Prelude.{
  ℕ, ◌+◌, ◌-◌, ◌≤◌, ◌≡◌, Bool, true, List, [], ◌∷◌, some, none, ok, arith, if◌then◌else◌,
}
use mcp_server_allenheath_dl.Prelude.Exec.{◌>>◌}
use mcp_server_allenheath_dl.Channels.{Channel, IsValid}
use mcp_server_allenheath_dl.Channels.Midi.{midi_channel_of, note_of, from_midi-address}
use mcp_server_allenheath_dl.Messages.{
  Message, mute_status, fader_level, main_mix_assignment, dca_assign, mute_group_assign,
}
use mcp_server_allenheath_dl.MidiStream.{
  MidiMessage, received, note_on, control_change, Midi, IsWmidi,
}
use mcp_server_allenheath_dl.Codecs.Encoder.{
  DLiveCodec, Encode, encode, control_channel, control_param, control_value,
}
use mcp_server_allenheath_dl.Codecs.Decoder.{
  proceed, give, on_velocity, on_assign_value, on_control_value, on_midi, Decoded, decode,
}
use mcp_server_allenheath_dl.Codecs.Wire.{on_off}

module _ (midi : Midi) where
  -- The loop goes through the MIDI messages and returns the messages, with the last selected channel
  -- and parameter.
  pub data Hears : Channel → ℕ → List MidiMessage → List Message → Type 0 where
    silent : {ch : Channel} {p : ℕ} → Hears ch p [] []
    skip :
        {ch ch' : Channel} {p p' : ℕ} {w : MidiMessage} {ws : List MidiMessage} {ms : List Message}
        → on_midi midi (received w) ch p ≡ proceed ch' p'
        → Hears ch' p' ws ms
        → Hears ch p (w ∷ ws) ms
    tell :
        {ch : Channel} {p : ℕ} {w : MidiMessage} {ws : List MidiMessage} {m : Message}
        {ms : List Message}
        → on_midi midi (received w) ch p ≡ give m
        → Hears ch p ws ms
        → Hears ch p (w ∷ ws) (m ∷ ms)

  -- The answers of one call of `decode` after the other, up to the first that finds no message.
  pub data Yields : Decoded midi → List Message → Type 0 where
    done : (t : DLiveCodec midi.State × List ℕ) → Yields (ok none, t) []
    more :
        (m : Message) (t : DLiveCodec midi.State × List ℕ) {ms : List Message}
        → Yields (decode midi t) ms
        → Yields (ok (some m), t) (m ∷ ms)

  unfoldable pub encode_all : List Message → Encode midi
  encode_all [] s = (ok tt, s)
  encode_all (m ∷ ms) s = (encode midi m >> encode_all ms) s

module _ (midi : Midi) (laws : IsWmidi midi) where
  pub select :
      (c : Channel)
      → IsValid c
      → (ch : Channel) (p : ℕ)
      → on_midi midi (control_change (midi_channel_of c.ty) (control_channel midi) (note_of c)) ch p
        ≡ proceed c p
  unfolding on_midi
  select c v ch p = ground (arith, from_midi-address c v)

  pub select_param :
      (n param : ℕ) (ch : Channel) (p : ℕ)
      → on_midi midi (control_change n (control_param midi) param) ch p ≡ proceed ch param
  unfolding on_midi
  select_param n param ch p = ground (arith, laws.msb-ne-lsb)

  pub on_value :
      (n value : ℕ) (ch : Channel) (p : ℕ)
      → on_midi midi (control_change n (control_value midi) value) ch p
        ≡ on_control_value midi value ch p
  unfolding on_midi
  on_value n value ch p = ground (arith, laws.msb-ne-entry, laws.lsb-ne-entry)

  pub value_fader :
      (value : ℕ) (ch : Channel)
      → on_control_value midi value ch 0x17 ≡ give (fader_level ch (record { value = value }))
  unfolding on_control_value
  value_fader value ch = rw (laws.u7_lossy 0x17 (omega arith))

  pub value_main_mix :
      (b : Bool) (ch : Channel)
      → on_control_value midi (on_off b) ch 0x18 ≡ give (main_mix_assignment ch b)
  unfolding on_control_value
  value_main_mix b ch =
      rw (laws.u7_lossy 0x17 (omega arith), laws.u7_lossy 0x18 (omega arith)) (ground arith)

  pub value_assign :
      (value : ℕ) (ch : Channel)
      → on_control_value midi value ch 0x40 ≡ on_assign_value value ch 0x40
  unfolding on_control_value
  value_assign value ch = rw (
    laws.u7_lossy 0x17 (omega arith),
    laws.u7_lossy 0x18 (omega arith),
    laws.u7_lossy 0x40 (omega arith),
  )

  pub dca_value :
      (d : ℕ) (b : Bool) (ch : Channel)
      → 1 ≤ d
      → d ≤ 24
      → on_assign_value ((if b then 0x40 else 0x00) + (d - 1)) ch 0x40 ≡ give (dca_assign ch d b)
  unfolding on_assign_value
  dca_value d b ch lo hi = ground arith

  pub mute_group_value :
      (g : ℕ) (b : Bool) (ch : Channel)
      → 1 ≤ g
      → g ≤ 8
      → on_assign_value ((if b then 0x58 else 0x18) + (g - 1)) ch 0x40
        ≡ give (mute_group_assign ch g true)
  unfolding on_assign_value
  mute_group_value g b ch lo hi = ground arith

-- These hold whatever the crates do.
module _ (midi : Midi) (c : Channel) (v : IsValid c) (ch : Channel) (p : ℕ) where
  pub on_mute :
      (b : Bool)
      → on_midi midi (note_on (midi_channel_of c.ty) (note_of c) (on_off b)) ch p
        ≡ give (mute_status c b)
  unfolding on_midi on_velocity
  on_mute b = rw (from_midi-address c v) (ground arith)

  pub on_release : on_midi midi (note_on (midi_channel_of c.ty) (note_of c) 0) ch p ≡ proceed ch p
  unfolding on_midi on_velocity
  on_release = rw (from_midi-address c v)
