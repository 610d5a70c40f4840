-- ===== src/Codecs/Controls.antt =====
-- The arms of `encode` in lib/src/codecs.rs that send notes and control changes.
use mcp_server_allenheath_dl.Prelude.{
  ℕ, ◌+◌, ◌-◌, ◌≤◌, ◌≡◌, Bool, true, false, le→leb, List, [], ◌∷◌, if◌then◌else◌, arith,
}
use mcp_server_allenheath_dl.Prelude.Exec.{◌>>◌}
use mcp_server_allenheath_dl.Channels.{Channel, IsValid, add_u8, sub_u8}
use mcp_server_allenheath_dl.Channels.Midi.{midi_channel_of, note_of, to_midi_address}
use mcp_server_allenheath_dl.Messages.{
  Level, Message, mute_status, fader_level, main_mix_assignment, dca_assign, mute_group_assign,
}
use mcp_server_allenheath_dl.MidiStream.{note_on, control_change, Midi, IsU7, IsWmidi, IsLossless}
use mcp_server_allenheath_dl.Codecs.Encoder.{
  DLiveCodec, Encode, encode_inner, encode_mute_status, encode_fader_level,
  encode_main_mix_assignment, encode_assign_value, encode_dca_assign, encode_mute_group_assign,
  control_channel, control_param, control_value,
}
use mcp_server_allenheath_dl.Codecs.Wire.{on_off, nrpn, wire}
use mcp_server_allenheath_dl.Codecs.InRange.{on_off-lt, address}
use mcp_server_allenheath_dl.Codecs.Written.{Wrote, encode_one, encode_cons}

module _ (midi : Midi) (laws : IsWmidi midi) (lossless : IsLossless midi) where
  abbrev pub Writes : Message → Encode midi → Type 0
  Writes m f = (s : DLiveCodec midi.State × List ℕ) → f s ≡ Wrote midi lossless (wire midi m) s

  velocity_lem :
      (b : Bool) → (if b then midi.u7_from_u8_lossy 0x7F else midi.u7_from_u8_lossy 0x3F) ≡ on_off b
  velocity_lem true = laws.u7_lossy 0x7F (omega arith)
  velocity_lem false = laws.u7_lossy 0x3F (omega arith)

  pub encode_mute_status-Writes :
      (c : Channel) (b : Bool) → IsValid c → Writes (mute_status c b) (encode_mute_status midi c b)
  unfolding encode_mute_status
  encode_mute_status-Writes c b v s =
      let (hc, hn) = address c v in
      rw (to_midi_address c v, laws.index_ok _ hc, laws.note_lossy _ hn, velocity_lem b)
        (simp laws.min_lem (
          encode_cons midi lossless _ (note_on (midi_channel_of c.ty) (note_of c) 0 ∷ []) _ s
            (hc, hn, on_off-lt b) (λ t. encode_one midi lossless _ t (hc, hn, omega arith))))

  -- Three control changes on one channel.
  three_changes :
      (c : Channel) (param value : ℕ) (s : DLiveCodec midi.State × List ℕ)
      → IsValid c
      → IsU7 param
      → IsU7 value
      → (encode_inner midi
              (control_change (midi_channel_of c.ty) (control_channel midi) (note_of c))
            >> (encode_inner midi (control_change (midi_channel_of c.ty) (control_param midi) param)
                >> encode_inner midi
                    (control_change (midi_channel_of c.ty) (control_value midi) value)))
          s
        ≡ Wrote midi lossless (nrpn midi c param value) s
  three_changes c param value s v hp hv =
      let (hc, hn) = address c v in
      let change = control_change (midi_channel_of c.ty) in
      let last = change (control_value midi) value ∷ [] in
      encode_cons midi lossless _ (change (control_param midi) param ∷ last) _ s
        (hc, laws.msb_u7, hn)
        (λ t.
          encode_cons midi lossless _ last _ t (hc, laws.lsb_u7, hp)
            (λ u. encode_one midi lossless _ u (hc, laws.entry_u7, hv)))

  pub encode_fader_level-Writes :
      (c : Channel) (l : Level)
      → IsValid c
      → IsU7 l.value
      → Writes (fader_level c l) (encode_fader_level midi c l)
  unfolding encode_fader_level
  encode_fader_level-Writes c l v hl s =
      let (hc, hn) = address c v in
      rw
        (
          to_midi_address c v,
          laws.index_ok _ hc,
          laws.u7_ok _ hn,
          laws.u7_lossy 0x17 (omega arith),
          laws.u7_ok _ hl,
        )
        (three_changes c 0x17 l.value s v (omega arith) hl)

  pub encode_main_mix_assignment-Writes :
      (c : Channel) (b : Bool)
      → IsValid c
      → Writes (main_mix_assignment c b) (encode_main_mix_assignment midi c b)
  unfolding encode_main_mix_assignment
  encode_main_mix_assignment-Writes c b v s =
      let (hc, hn) = address c v in
      rw
        (
          to_midi_address c v,
          laws.index_ok _ hc,
          laws.u7_ok _ hn,
          laws.u7_lossy 0x18 (omega arith),
          velocity_lem b,
        )
        (three_changes c 0x18 (on_off b) s v (omega arith) (on_off-lt b))

  encode_assign_value_lem :
      (c : Channel) (value : ℕ) (s : DLiveCodec midi.State × List ℕ)
      → IsValid c
      → IsU7 value
      → encode_assign_value midi (midi_channel_of c.ty) (note_of c) value s
        ≡ Wrote midi lossless (nrpn midi c 0x40 value) s
  unfolding encode_assign_value
  encode_assign_value_lem c value s v hv =
      let (hc, hn) = address c v in
      rw (laws.u7_ok _ hn, laws.u7_lossy 0x40 (omega arith), laws.u7_lossy value hv)
        (three_changes c 0x40 value s v (omega arith) hv)

  assign_value :
      (d : ℕ) (base : ℕ) → 1 ≤ d → d + base ≤ 256 → add_u8 (sub_u8 d 1) base ≡ base + (d - 1)
  assign_value d base h k = omega arith

  pub encode_dca_assign-Writes :
      (c : Channel) (d : ℕ) (b : Bool)
      → IsValid c
      → 1 ≤ d
      → d ≤ 24
      → Writes (dca_assign c d b) (encode_dca_assign midi c d b)
  unfolding encode_dca_assign
  encode_dca_assign-Writes c d b v lo hi s =
      let (hc, hn) = address c v in
      rw
        (
          to_midi_address c v,
          laws.index_ok _ hc,
          le→leb 1 d lo,
          le→leb d 24 hi,
          assign_value d (if b then 0x40 else 0x00) lo (ground arith),
        )
        (encode_assign_value_lem c _ s v (ground arith))

  pub encode_mute_group_assign-Writes :
      (c : Channel) (g : ℕ) (b : Bool)
      → IsValid c
      → 1 ≤ g
      → g ≤ 8
      → Writes (mute_group_assign c g b) (encode_mute_group_assign midi c g b)
  unfolding encode_mute_group_assign
  encode_mute_group_assign-Writes c g b v lo hi s =
      let (hc, hn) = address c v in
      rw
        (
          to_midi_address c v,
          laws.index_ok _ hc,
          le→leb 1 g lo,
          le→leb g 8 hi,
          assign_value g (if b then 0x58 else 0x18) lo (ground arith),
        )
        (encode_assign_value_lem c _ s v (ground arith))
