-- ===== src/Channels/Colours.antt =====
-- Channel colours: `ChannelColour` of lib/src/channels.rs.
use mcp_server_allenheath_dl.Prelude.{
  ℕ, ◌<◌, ◌≡◌, refl, List, [], ◌∷◌, ltb, length, get_elem?, none, some, Result, ok, panic, ensure,
  bad_colour, ◌>>◌, arith, zero, suc, err, ◌≤◌, ◌⊎◌, inl, inr,
}

pub data ChannelColour : Type 0 where
  off red green yellow blue purple lt_blue white : ChannelColour

-- `colour as u8`, with `#[repr(u8)]`.
abbrev pub to_u8 : ChannelColour → ℕ
to_u8 off = 0
to_u8 red = 1
to_u8 green = 2
to_u8 yellow = 3
to_u8 blue = 4
to_u8 purple = 5
to_u8 lt_blue = 6
to_u8 white = 7

abbrev pub channel_colours : List ChannelColour
channel_colours = off ∷ red ∷ green ∷ yellow ∷ blue ∷ purple ∷ lt_blue ∷ white ∷ []

-- An index out of bounds panics.
abbrev pub index {ℓ} : {A : Type ℓ} → List A → ℕ → Result A
index xs i = elim (get_elem? xs i) [ none ↦ panic | some a ↦ ok a ]

unfoldable pub try_from : ℕ → Result ChannelColour
try_from value = do
  ensure (ltb value (length channel_colours)) bad_colour
  index channel_colours value

pub try_from-to_u8 : (c : ChannelColour) → try_from (to_u8 c) ≡ ok c
unfolding try_from
try_from-to_u8 off = refl
try_from-to_u8 _ = refl

pub to_u8-lt : (c : ChannelColour) → to_u8 c < 8
to_u8-lt off = omega arith
to_u8-lt _ = omega arith

-- A byte is read as the colour that it is the byte of, or is refused with the error for colours; an
-- index never is out of bounds.
try_from_cases :
    (b : ℕ)
    → ((c : ChannelColour) × (try_from b ≡ ok c) × (to_u8 c ≡ b))
      ⊎ ((8 ≤ b) × (try_from b ≡ err bad_colour))
unfolding try_from
try_from_cases zero = inl (off, refl, refl)
try_from_cases (suc zero) = inl (red, refl, refl)
try_from_cases (suc (suc zero)) = inl (green, refl, refl)
try_from_cases (suc (suc (suc zero))) = inl (yellow, refl, refl)
try_from_cases (suc (suc (suc (suc zero)))) = inl (blue, refl, refl)
try_from_cases (suc (suc (suc (suc (suc zero))))) = inl (purple, refl, refl)
try_from_cases (suc (suc (suc (suc (suc (suc zero)))))) = inl (lt_blue, refl, refl)
try_from_cases (suc (suc (suc (suc (suc (suc (suc zero))))))) = inl (white, refl, refl)
try_from_cases (suc (suc (suc (suc (suc (suc (suc (suc n)))))))) = inr (omega arith, ground arith)
