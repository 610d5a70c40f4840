-- ===== src/Codecs/LateLevel.antt =====
-- The one message that `encode` of lib/src/codecs.rs refuses too late.
use mcp_server_allenheath_dl.Prelude.{
  ℕ, ◌≤◌, ◌≡◌, List, [], ◌∷◌, err, not_u7, arith, append_assoc, append-nil,
}
use mcp_server_allenheath_dl.Channels.{Channel, IsValid}
use mcp_server_allenheath_dl.Channels.Midi.{midi_channel_of, note_of, to_midi_address}
use mcp_server_allenheath_dl.Messages.{Level, fader_level}
use mcp_server_allenheath_dl.MidiStream.{Midi, IsWmidi, IsLossless, MidiMessage, control_change}
use mcp_server_allenheath_dl.Codecs.Encoder.{
  DLiveCodec, encode_fader_level, encode, control_channel, control_param,
}
use mcp_server_allenheath_dl.Codecs.InRange.{address}
use mcp_server_allenheath_dl.Codecs.Written.{Wrote, after, encode_inner_lem}

module _ (midi : Midi) where
  -- The first two of the three control changes of a fader level.
  abbrev pub half_fader : Channel → List MidiMessage
  half_fader c =
      control_change (midi_channel_of c.ty) (control_channel midi) (note_of c)
      ∷ control_change (midi_channel_of c.ty) (control_param midi) 0x17
      ∷ []

module _ (midi : Midi) (laws : IsWmidi midi) (lossless : IsLossless midi) where
  -- A fader level above 127 on a valid channel is refused when two control changes are written.
  pub encode_late_level :
      (c : Channel) (l : Level) (s : DLiveCodec midi.State × List ℕ)
      → IsValid c
      → 128 ≤ l.value
      → encode midi (fader_level c l) s
        ≡ (err not_u7, (Wrote midi lossless (half_fader midi c) s).1)
  unfolding encode encode_fader_level after
  encode_late_level c l s v h =
      let (hc, hn) = address c v in
      let select = control_change (midi_channel_of c.ty) (control_channel midi) (note_of c) in
      let param = control_change (midi_channel_of c.ty) (control_param midi) 0x17 in
      rw (
        to_midi_address c v,
        laws.index_ok _ hc,
        laws.u7_ok _ hn,
        laws.u7_lossy 0x17 (omega arith),
        laws.u7_err _ h,
        encode_inner_lem midi lossless select s (hc, laws.msb_u7, hn),
        encode_inner_lem midi lossless param (after midi lossless select s)
            (hc, laws.lsb_u7, omega arith),
        append_assoc,
        append-nil,
      )
