-- ===== src/Channels.antt =====
-- lib/src/channels.rs: channel types, channels, names and colours, and the MIDI addresses.
-- A `u8` is a number below 256; its arithmetic keeps the wrap-around.
pub mod Midi
pub mod Names
pub mod Colours
pub mod Text
pub mod Reading
pub mod ColourText
pub mod Equality
use mcp_server_allenheath_dl.Prelude.{
  ℕ, ◌+◌, ◌-◌, ◌%◌, ◌≤◌, Bool, true, false, ◌&&◌, List, [], ◌∷◌, Option, leb, ◌==◌, find, Result,
  ok, ensure, ok_or, out_of_range, unknown_channel_type, ◌>>=◌, ◌>>◌,
}

pub data ChannelType : Type 0 where
  input : ChannelType
  mono_group stereo_group : ChannelType
  mono_aux stereo_aux : ChannelType
  mono_matrix stereo_matrix : ChannelType
  mono_fx_send stereo_fx_send fx_return : ChannelType
  mains dca mute_group : ChannelType
  stereo_ufx_send stereo_ufx_return : ChannelType

-- The derived `PartialEq`: two unit variants are equal when their discriminants are.
abbrev pub discriminant : ChannelType → ℕ
discriminant input = 0
discriminant mono_group = 1
discriminant stereo_group = 2
discriminant mono_aux = 3
discriminant stereo_aux = 4
discriminant mono_matrix = 5
discriminant stereo_matrix = 6
discriminant mono_fx_send = 7
discriminant stereo_fx_send = 8
discriminant fx_return = 9
discriminant mains = 10
discriminant dca = 11
discriminant mute_group = 12
discriminant stereo_ufx_send = 13
discriminant stereo_ufx_return = 14

abbrev pub type_eq : ChannelType → ChannelType → Bool
type_eq a b = discriminant a == discriminant b

pub record Channel : Type 0 where
  pub ty : ChannelType
  pub number : ℕ

abbrev pub channel_eq : Channel → Channel → Bool
channel_eq a b = type_eq a.ty b.ty && a.number == b.number

-- The derived `Default`.
abbrev pub default_channel : Channel
default_channel = record { ty = input; number = 0 }

-- Arithmetic on `u8`.
abbrev pub add_u8 : ℕ → ℕ → ℕ
add_u8 a b = (a + b) % 256

abbrev pub sub_u8 : ℕ → ℕ → ℕ
sub_u8 a b = (a + 256 - b) % 256

-- One entry of `MIDI_MAPPINGS`: `(ty, midi_channel, first..=last)`.
pub record Mapping : Type 0 where
  pub ty : ChannelType
  pub midi_channel : ℕ
  pub first : ℕ
  pub last : ℕ

abbrev pub entry : ChannelType → ℕ → ℕ → ℕ → Mapping
entry t n a b = record { ty = t; midi_channel = n; first = a; last = b }

abbrev base_midi_channel : ℕ
base_midi_channel = 11

abbrev pub midi_mappings : List Mapping
midi_mappings =
    entry input base_midi_channel 0x00 0x7F
    ∷ entry mono_group (base_midi_channel + 1) 0x00 0x3D
    ∷ entry stereo_group (base_midi_channel + 1) 0x40 0x5E
    ∷ entry mono_aux (base_midi_channel + 2) 0x00 0x3D
    ∷ entry stereo_aux (base_midi_channel + 2) 0x40 0x5E
    ∷ entry mono_matrix (base_midi_channel + 3) 0x00 0x3D
    ∷ entry stereo_matrix (base_midi_channel + 3) 0x40 0x5E
    ∷ entry mono_fx_send (base_midi_channel + 4) 0x00 0x0F
    ∷ entry stereo_fx_send (base_midi_channel + 4) 0x10 0x1F
    ∷ entry fx_return (base_midi_channel + 4) 0x20 0x2F
    ∷ entry mains (base_midi_channel + 4) 0x30 0x35
    ∷ entry dca (base_midi_channel + 4) 0x36 0x4D
    ∷ entry mute_group (base_midi_channel + 4) 0x4E 0x55
    ∷ entry stereo_ufx_send (base_midi_channel + 4) 0x56 0x5D
    ∷ entry stereo_ufx_return (base_midi_channel + 4) 0x5E 0x65
    ∷ []

-- The upper end of the range that `validate` picks for a type; the lower end is 1 in each arm.
abbrev pub last_number : ChannelType → ℕ
last_number input = 128
last_number mono_group = 62
last_number mono_aux = 62
last_number mono_matrix = 62
last_number stereo_group = 31
last_number stereo_aux = 31
last_number stereo_matrix = 31
last_number mono_fx_send = 16
last_number stereo_fx_send = 16
last_number fx_return = 16
last_number mains = 6
last_number dca = 24
last_number mute_group = 8
last_number stereo_ufx_send = 8
last_number stereo_ufx_return = 8

unfoldable pub validate : Channel → Result (Unit {0})
validate c = ensure (leb 1 c.number && leb c.number (last_number c.ty)) out_of_range

unfoldable pub to_midi : Channel → Result (ℕ × ℕ)
unfolding validate
to_midi c = do
  validate c
  m ← ok_or (find (λ (m : Mapping). type_eq m.ty c.ty) midi_mappings) unknown_channel_type
  ok (m.midi_channel, add_u8 (sub_u8 c.number 1) m.first)

-- The closure that `from_midi` searches the table by.
abbrev pub covers : ℕ → ℕ → Mapping → Bool
covers midi_channel note m = m.midi_channel == midi_channel && (leb m.first note && leb note m.last)

abbrev pub numbered : Mapping → ℕ → Channel
numbered m note = record { ty = m.ty; number = add_u8 (sub_u8 note m.first) 1 }

unfoldable pub from_midi : ℕ → ℕ → Result Channel
from_midi midi_channel note = do
  m ← ok_or (find (covers midi_channel note) midi_mappings) unknown_channel_type
  ok (numbered m note)

-- What `validate` accepts.
abbrev pub IsValid : Channel → Type 0
IsValid c = (1 ≤ c.number) × (c.number ≤ last_number c.ty)
