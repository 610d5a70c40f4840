-- ===== src/Channels/Midi.antt =====
-- The MIDI addresses of channels: `to_midi` and `from_midi` of lib/src/channels.rs.
use mathlib.Core.Path.{subst}
use mcp_server_allenheath_dl.Prelude.{
  ℕ, ◌+◌, ◌-◌, ◌<◌, ◌≡◌, ◌⊎◌, ◌∙◌, ap, Bool-cases, unknown_channel_type, ok, err, out_of_range,
  arith, true, inl, inr, Option-cases, leb, ◌==◌, ◌&&◌, All, find, find_sound,
}
use mcp_server_allenheath_dl.Channels.{
  ChannelType, input, mono_group, stereo_group, mono_aux, stereo_aux, mono_matrix, stereo_matrix,
  mono_fx_send, stereo_fx_send, fx_return, mains, dca, mute_group, stereo_ufx_send,
  stereo_ufx_return, Channel, Mapping, midi_mappings, covers, numbered, last_number, to_midi,
  from_midi, IsValid,
}

-- The address of a channel as the protocol document lists it: a MIDI channel and a first note.
abbrev pub midi_channel_of : ChannelType → ℕ
midi_channel_of input = 11
midi_channel_of mono_group = 12
midi_channel_of stereo_group = 12
midi_channel_of mono_aux = 13
midi_channel_of stereo_aux = 13
midi_channel_of mono_matrix = 14
midi_channel_of stereo_matrix = 14
midi_channel_of _ = 15

abbrev pub first_note : ChannelType → ℕ
first_note input = 0
first_note mono_group = 0
first_note stereo_group = 64
first_note mono_aux = 0
first_note stereo_aux = 64
first_note mono_matrix = 0
first_note stereo_matrix = 64
first_note mono_fx_send = 0
first_note stereo_fx_send = 16
first_note fx_return = 32
first_note mains = 48
first_note dca = 54
first_note mute_group = 78
first_note stereo_ufx_send = 86
first_note stereo_ufx_return = 94

abbrev pub note_of : Channel → ℕ
note_of c = first_note c.ty + (c.number - 1)

-- A valid channel's address is the protocol's: nothing wraps around, and the note is below 128.
pub to_midi_address : (c : Channel) → IsValid c → to_midi c ≡ ok (midi_channel_of c.ty, note_of c)
unfolding to_midi
to_midi_address c v = ground arith

pub note_of-lt : (c : Channel) → IsValid c → note_of c < 128
note_of-lt c v = ground arith

pub to_midi_invalid : (c : Channel) → ¬ IsValid c → to_midi c ≡ err out_of_range
unfolding to_midi
to_midi_invalid c v = ground arith

pub to_midi_cases :
    (c : Channel)
    → (IsValid c × (to_midi c ≡ ok (midi_channel_of c.ty, note_of c)))
      ⊎ ((¬ IsValid c) × (to_midi c ≡ err out_of_range))
to_midi_cases c = elim (Bool-cases (leb 1 c.number && leb c.number (last_number c.ty))) [
  | inl inside ↦ let v : IsValid c = ground arith in inl (v, to_midi_address c v)
  | inr outside ↦ let n : ¬ IsValid c = ground arith in inr (n, to_midi_invalid c n)
]

pub from_midi-address :
    (c : Channel) → IsValid c → from_midi (midi_channel_of c.ty) (note_of c) ≡ ok c
unfolding from_midi
from_midi-address c v = ground arith

abbrev IsAddressed : Mapping → Type 0
IsAddressed m =
    (midi_channel_of m.ty ≡ m.midi_channel)
    × (first_note m.ty ≡ m.first)
    × (m.last + 1 ≡ m.first + last_number m.ty)
    × (m.last < 128)

midi_mappings-IsAddressed : All IsAddressed midi_mappings
midi_mappings-IsAddressed = omega arith

mapping_sound :
    (m : Mapping) (n note : ℕ)
    → IsAddressed m
    → (m.midi_channel == n && (leb m.first note && leb note m.last)) ≡ true
    → IsValid (numbered m note) × (midi_channel_of m.ty ≡ n) × (note_of (numbered m note) ≡ note)
mapping_sound m n note h e = ground arith

-- `from_midi` finds a valid channel with that address, or answers with its one error.
pub from_midi_cases :
    (n note : ℕ)
    → ((c : Channel) × (from_midi n note ≡ ok c)
        × (IsValid c × (midi_channel_of c.ty ≡ n) × (note_of c ≡ note)))
      ⊎ (from_midi n note ≡ err unknown_channel_type)
unfolding from_midi
from_midi_cases n note = elim (Option-cases (find (covers n note) midi_mappings)) [
  | inl none_found ↦ inr (rw none_found)
  | inr (m, found) ↦
      let (test, addressed) =
        find_sound IsAddressed (covers n note) midi_mappings m midi_mappings-IsAddressed found in
      inl (numbered m note, rw found, mapping_sound m n note addressed test)
]

from_midi_sound :
    (n note : ℕ) {c : Channel}
    → from_midi n note ≡ ok c
    → IsValid c × (midi_channel_of c.ty ≡ n) × (note_of c ≡ note)
from_midi_sound n note {c} e = elim (from_midi_cases n note) [
  | inl (d, found, h) ↦
      subst (λ k. IsValid k × (midi_channel_of k.ty ≡ n) × (note_of k ≡ note)) (cc) h
  | inr none_found ↦ cc
]

-- A channel is read back from its address.
pub from_midi-to_midi :
    (c : Channel) (n note : ℕ) → to_midi c ≡ ok (n, note) → from_midi n note ≡ ok c
from_midi-to_midi c n note e = elim (to_midi_cases c) [
  | inl (v, address) ↦
      let same : ◌≡◌ {A = ℕ × ℕ} (midi_channel_of c.ty, note_of c) (n, note) = cc in
      rw (ap (λ (p : ℕ × ℕ). p.0) same) at
        (rw (ap (λ (p : ℕ × ℕ). p.1) same) at (from_midi-address c v))
  | inr (_, refused) ↦ cc
]

-- The address of whatever channel `from_midi` finds is the one that was looked up.
to_midi-from_midi : (c : Channel) (n note : ℕ) → from_midi n note ≡ ok c → to_midi c ≡ ok (n, note)
to_midi-from_midi c n note e =
    let (v, hn, hnote) = from_midi_sound n note e in to_midi_address c v ∙ cc (hn, hnote)
