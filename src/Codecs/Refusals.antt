-- ===== src/Codecs/Refusals.antt =====
-- What `encode` of lib/src/codecs.rs does with a message that it refuses.
use mcp_server_allenheath_dl.Prelude.{
  ℕ, ◌≤◌, ◌≡◌, refl, inl, inr, Bool, false, leb, ◌&&◌, List, [], ◌∷◌, ◌++◌, ok, err, Error, Result,
  out_of_range, not_u7, bad_dca, bad_mute_group, arith, All, if◌then◌else◌,
}
use mcp_server_allenheath_dl.Channels.{Channel, IsValid, to_midi}
use mcp_server_allenheath_dl.Channels.Midi.{
  midi_channel_of, note_of, to_midi_cases, to_midi_invalid,
}
use mcp_server_allenheath_dl.Channels.Names.{IsName}
use mcp_server_allenheath_dl.Channels.Colours.{to_u8}
use mcp_server_allenheath_dl.Messages.{
  Message, Level, mute_status, get_mute_status, fader_level, get_fader_level, main_mix_assignment,
  get_main_mix_assignment, send_level, get_send_level, send_assign, get_send_assign, dca_assign,
  mute_group_assign, set_channel_name, get_channel_name, channel_name, set_channel_colour,
  get_channel_colour, channel_colour,
}
use mcp_server_allenheath_dl.MidiStream.{Midi, IsU7, IsWmidi}
use mcp_server_allenheath_dl.Codecs.Body
use mcp_server_allenheath_dl.Codecs.Encoder.{
  DLiveCodec, Encode, sysex_header, encode_sysex, encode_mute_status, encode_fader_level,
  encode_main_mix_assignment, encode_dca_assign, encode_mute_group_assign, encode,
}
use mcp_server_allenheath_dl.Codecs.Wire.{IsEncodable}
use mcp_server_allenheath_dl.Codecs.InRange.{midi_channel_of-lt}

module _ (midi : Midi) where
  -- An error, with the codec and the buffer as they were.
  abbrev pub Fails : Encode midi → DLiveCodec midi.State × List ℕ → Type 0
  Fails f s = (e : Error) × (f s ≡ (err e, s))

  sysex_err :
      (e : Error) (s : DLiveCodec midi.State × List ℕ) → encode_sysex midi (err e) s ≡ (err e, s)
  unfolding encode_sysex
  sysex_err e s = refl

module _ (midi : Midi) (laws : IsWmidi midi) (s : DLiveCodec midi.State × List ℕ) where
  sysex_not_u7 : (body : List ℕ) → ¬ All IsU7 body → encode_sysex midi (ok body) s ≡ (err not_u7, s)
  unfolding encode_sysex
  sysex_not_u7 body h =
      let high : ¬ All IsU7 (sysex_header ++ body) = λ all. h all.1.1.1.1.1.1.1 in
      rw (laws.bytes_err (sysex_header ++ body) high)

  -- A body about one channel.
  on_one :
      (c : Channel) (f : Result (List ℕ)) (body : List ℕ)
      → (to_midi c ≡ err out_of_range → f ≡ err out_of_range)
      → (to_midi c ≡ ok (midi_channel_of c.ty, note_of c) → f ≡ ok body)
      → ¬ (IsValid c × All IsU7 body)
      → Fails midi (encode_sysex midi f) s
  on_one c f body bad good h = elim (to_midi_cases c) [
    | inl (v, e) ↦ (not_u7, rw (good e) (sysex_not_u7 body (λ all. h (v, all))))
    | inr (_, e) ↦ (out_of_range, rw (bad e) (sysex_err midi out_of_range s))
  ]

  -- A body about two channels.
  on_two :
      (c d : Channel) (f : Result (List ℕ)) (body : List ℕ)
      → (to_midi c ≡ err out_of_range → f ≡ err out_of_range)
      → (to_midi c ≡ ok (midi_channel_of c.ty, note_of c)
          → to_midi d ≡ err out_of_range
          → f ≡ err out_of_range)
      → (to_midi c ≡ ok (midi_channel_of c.ty, note_of c)
          → to_midi d ≡ ok (midi_channel_of d.ty, note_of d)
          → f ≡ ok body)
      → ¬ (IsValid c × IsValid d × All IsU7 body)
      → Fails midi (encode_sysex midi f) s
  on_two c d f body bad worse good h = elim (to_midi_cases c) [
    | inl (v, e) ↦ elim (to_midi_cases d) [
      | inl (w, e') ↦ (not_u7, rw (good e e') (sysex_not_u7 body (λ all. h (v, w, all))))
      | inr (_, e') ↦ (out_of_range, rw (worse e e') (sysex_err midi out_of_range s))
    ]
    | inr (_, e) ↦ (out_of_range, rw (bad e) (sysex_err midi out_of_range s))
  ]

  note_err : (c : Channel) (b : Bool) → ¬ IsValid c → Fails midi (encode_mute_status midi c b) s
  unfolding encode_mute_status
  note_err c b h = (out_of_range, rw (to_midi_invalid c h))

  fader_err : (c : Channel) (l : Level) → ¬ IsValid c → Fails midi (encode_fader_level midi c l) s
  unfolding encode_fader_level
  fader_err c l h = (out_of_range, rw (to_midi_invalid c h))

  main_mix_err :
      (c : Channel) (b : Bool) → ¬ IsValid c → Fails midi (encode_main_mix_assignment midi c b) s
  unfolding encode_main_mix_assignment
  main_mix_err c b h = (out_of_range, rw (to_midi_invalid c h))

  dca_err :
      (c : Channel) (d : ℕ) (b : Bool)
      → ¬ (IsValid c × (1 ≤ d) × (d ≤ 24))
      → Fails midi (encode_dca_assign midi c d b) s
  unfolding encode_dca_assign
  dca_err c d b h = elim (to_midi_cases c) [
    | inl (v, e) ↦
        let out : (leb 1 d && leb d 24) ≡ false = ground arith in
        (bad_dca, rw (e, laws.index_ok _ (midi_channel_of-lt c), out))
    | inr (_, e) ↦ (out_of_range, rw e)
  ]

  mute_group_err :
      (c : Channel) (g : ℕ) (b : Bool)
      → ¬ (IsValid c × (1 ≤ g) × (g ≤ 8))
      → Fails midi (encode_mute_group_assign midi c g b) s
  unfolding encode_mute_group_assign
  mute_group_err c g b h = elim (to_midi_cases c) [
    | inl (v, e) ↦
        let out : (leb 1 g && leb g 8) ≡ false = ground arith in
        (bad_mute_group, rw (e, laws.index_ok _ (midi_channel_of-lt c), out))
    | inr (_, e) ↦ (out_of_range, rw e)
  ]

-- Eight bytes make a name; that a value of the Rust type has them is taken from the type.
abbrev IsTyped : Message → Type 0
IsTyped (set_channel_name c n) = IsName n
IsTyped (channel_name c n) = IsName n
IsTyped _ = Unit

-- The message whose level is checked last.
abbrev IsLateLevel : Message → Type 0
IsLateLevel (fader_level c l) = IsValid c × ¬ IsU7 l.value
IsLateLevel _ = ⊥

module _ (midi : Midi) (laws : IsWmidi midi) (s : DLiveCodec midi.State × List ℕ) where
  -- A message that is not encodable is refused with an error, and codec and buffer are as they were,
  -- but for a fader level above 127 on a valid channel.
  pub encode_refuses :
      (m : Message) → IsTyped m → ¬ IsEncodable m → ¬ IsLateLevel m → Fails midi (encode midi m) s
  unfolding encode Body.get_mute_status Body.get_fader_level Body.get_main_mix_assignment
      Body.get_channel_name Body.get_channel_colour Body.set_channel_colour Body.channel_colour
      Body.get_send_level Body.get_send_assign Body.send_level Body.send_assign
      Body.set_channel_name Body.channel_name
  encode_refuses (mute_status c b) t h late = note_err midi laws s c b h
  encode_refuses (fader_level c l) t h late =
      fader_err midi laws s c l (λ v. late (v, λ u. h (v, u)))
  encode_refuses (main_mix_assignment c b) t h late = main_mix_err midi laws s c b h
  encode_refuses (dca_assign c d b) t h late = dca_err midi laws s c d b h
  encode_refuses (mute_group_assign c g b) t h late = mute_group_err midi laws s c g b h
  encode_refuses (get_mute_status c) t h late =
      on_one midi laws s c (Body.get_mute_status c)
        (midi_channel_of c.ty ∷ 0x05 ∷ 0x09 ∷ note_of c ∷ []) (λ e. rw e) (λ e. rw e) (λ p. h p.0)
  encode_refuses (get_fader_level c) t h late =
      on_one midi laws s c (Body.get_fader_level c)
        (midi_channel_of c.ty ∷ 0x05 ∷ 0x0B ∷ 0x17 ∷ note_of c ∷ []) (λ e. rw e) (λ e. rw e)
        (λ p. h p.0)
  encode_refuses (get_main_mix_assignment c) t h late =
      on_one midi laws s c (Body.get_main_mix_assignment c)
        (midi_channel_of c.ty ∷ 0x05 ∷ 0x0B ∷ 0x18 ∷ note_of c ∷ []) (λ e. rw e) (λ e. rw e)
        (λ p. h p.0)
  encode_refuses (get_channel_name c) t h late =
      on_one midi laws s c (Body.get_channel_name c) (midi_channel_of c.ty ∷ 0x01 ∷ note_of c ∷ [])
        (λ e. rw e) (λ e. rw e) (λ p. h p.0)
  encode_refuses (get_channel_colour c) t h late =
      on_one midi laws s c (Body.get_channel_colour c)
        (midi_channel_of c.ty ∷ 0x04 ∷ note_of c ∷ []) (λ e. rw e) (λ e. rw e) (λ p. h p.0)
  encode_refuses (set_channel_colour c k) t h late =
      on_one midi laws s c (Body.set_channel_colour c k)
        (midi_channel_of c.ty ∷ 0x06 ∷ note_of c ∷ to_u8 k ∷ []) (λ e. rw e) (λ e. rw e)
        (λ p. h p.0)
  encode_refuses (channel_colour c k) t h late =
      on_one midi laws s c (Body.channel_colour c k)
        (midi_channel_of c.ty ∷ 0x05 ∷ note_of c ∷ to_u8 k ∷ []) (λ e. rw e) (λ e. rw e)
        (λ p. h p.0)
  encode_refuses (set_channel_name c n) t h late =
      on_one midi laws s c (Body.set_channel_name c n)
        (midi_channel_of c.ty ∷ 0x03 ∷ note_of c ∷ n.bytes) (λ e. rw e) (λ e. rw e)
        (λ p. h (p.0, t, p.1.1.1.1))
  encode_refuses (channel_name c n) t h late =
      on_one midi laws s c (Body.channel_name c n)
        (midi_channel_of c.ty ∷ 0x02 ∷ note_of c ∷ n.bytes) (λ e. rw e) (λ e. rw e)
        (λ p. h (p.0, t, p.1.1.1.1))
  encode_refuses (get_send_level c d) t h late =
      on_two midi laws s c d (Body.get_send_level c d)
        (midi_channel_of c.ty
          ∷ 0x05
          ∷ 0x0F
          ∷ 0x0D
          ∷ note_of c
          ∷ midi_channel_of d.ty
          ∷ note_of d
          ∷ [])
        (λ e. rw e) (λ e e'. rw (e, e')) (λ e e'. rw (e, e')) (λ p. h (p.0, p.1))
  encode_refuses (get_send_assign c d) t h late =
      on_two midi laws s c d (Body.get_send_assign c d)
        (midi_channel_of c.ty
          ∷ 0x05
          ∷ 0x0F
          ∷ 0x0E
          ∷ note_of c
          ∷ midi_channel_of d.ty
          ∷ note_of d
          ∷ [])
        (λ e. rw e) (λ e e'. rw (e, e')) (λ e e'. rw (e, e')) (λ p. h (p.0, p.1))
  encode_refuses (send_level c d l) t h late =
      on_two midi laws s c d (Body.send_level c d l)
        (midi_channel_of c.ty ∷ 0x0D ∷ note_of c ∷ midi_channel_of d.ty ∷ note_of d ∷ l.value ∷ [])
        (λ e. rw e) (λ e e'. rw (e, e')) (λ e e'. rw (e, e')) (λ p. h (p.0, p.1, p.2.1.1.1.1.1.0))
  encode_refuses (send_assign c d b) t h late =
      on_two midi laws s c d (Body.send_assign c d b)
        (midi_channel_of c.ty
          ∷ 0x0D
          ∷ note_of c
          ∷ midi_channel_of d.ty
          ∷ note_of d
          ∷ (if b then 0x7F else 0x4F)
          ∷ [])
        (λ e. rw e) (λ e e'. rw (e, e')) (λ e e'. rw (e, e')) (λ p. h (p.0, p.1))
