-- ===== src/Channels/ColourText.antt =====
-- The text of colours: `as_str`, `Display` and `FromStr` of `ChannelColour` in lib/src/channels.rs.
use mcp_server_allenheath_dl.Prelude.{
  ℕ, zero, suc, ◌≡◌, refl, sym, ap, ◌↔◌, List, [], ◌∷◌, Option, none, some, get_elem?, Result, ok,
  ok_or, unknown_colour, ◌>>=◌, if◌then◌else◌, Bool-cases, Option-cases, inl, inr,
}
use mcp_server_allenheath_dl.Text.{codes, text_eq, text_eq_sound}
use mcp_server_allenheath_dl.Channels.Colours.{ChannelColour, off, to_u8, channel_colours, index}

abbrev channel_colour_names : List (List ℕ)
channel_colour_names =
    codes "Off"
    ∷ codes "Red"
    ∷ codes "Green"
    ∷ codes "Yellow"
    ∷ codes "Blue"
    ∷ codes "Purple"
    ∷ codes "Lt Blue"
    ∷ codes "White"
    ∷ []

-- `as_str`, which `Display` writes.
unfoldable pub as_str : ChannelColour → Result (List ℕ)
as_str colour = index channel_colour_names (to_u8 colour)

-- `iter().position(|&x| x == s)`
abbrev pub position : List (List ℕ) → List ℕ → Option ℕ
position [] s = none
position (x ∷ xs) s =
    if text_eq x s then some 0 else elim (position xs s) [ none ↦ none | some i ↦ some (suc i) ]

unfoldable colour_from_str : List ℕ → Result ChannelColour
colour_from_str s = do
  i ← ok_or (position channel_colour_names s) unknown_colour
  index channel_colours i

position_sound :
    (xs : List (List ℕ)) (s : List ℕ) (i : ℕ) → position xs s ≡ some i → get_elem? xs i ≡ some s
position_sound [] s i e = cc
position_sound (x ∷ xs) s i e = elim (Bool-cases (text_eq x s)) [
  | inl same ↦
      let first : i ≡ 0 = sym (some_injective (rw (position, same) at e)) in
      rw first (ap some (text_eq_sound x s same))
  | inr other ↦ elim (Option-cases (position xs s)) [
    | inl none_found ↦ let no = rw (position, other, none_found) at e in cc
    | inr (j, found) ↦
        let next : i ≡ suc j = sym (some_injective (rw (position, other, found) at e)) in
        rw next (position_sound xs s j found)
  ]
]
  where
    some_injective : {a b : ℕ} → ◌≡◌ {A = Option ℕ} (some a) (some b) → a ≡ b
    some_injective h = cc

colour_injective : {c d : ChannelColour} → ◌≡◌ {A = Result ChannelColour} (ok c) (ok d) → c ≡ d
colour_injective e = cc

text_injective : {s t : List ℕ} → ◌≡◌ {A = Result (List ℕ)} (ok s) (ok t) → s ≡ t
text_injective e = cc

index_sound : (i : ℕ) (c : ChannelColour) → index channel_colours i ≡ ok c → to_u8 c ≡ i
index_sound zero c e = rw (sym (colour_injective e)) refl
index_sound (suc zero) c e = rw (sym (colour_injective e)) refl
index_sound (suc (suc zero)) c e = rw (sym (colour_injective e)) refl
index_sound (suc (suc (suc zero))) c e = rw (sym (colour_injective e)) refl
index_sound (suc (suc (suc (suc zero)))) c e = rw (sym (colour_injective e)) refl
index_sound (suc (suc (suc (suc (suc zero))))) c e = rw (sym (colour_injective e)) refl
index_sound (suc (suc (suc (suc (suc (suc zero)))))) c e = rw (sym (colour_injective e)) refl
index_sound (suc (suc (suc (suc (suc (suc (suc zero))))))) c e = rw (sym (colour_injective e)) refl
index_sound (suc (suc (suc (suc (suc (suc (suc (suc n)))))))) c e = cc

colour_from_str-as_str :
    (c : ChannelColour) (s : List ℕ) → as_str c ≡ ok s → colour_from_str s ≡ ok c
unfolding as_str colour_from_str
colour_from_str-as_str off s e = rw (sym (text_injective e)) refl
colour_from_str-as_str _ s e = rw (sym (text_injective e)) refl

-- A text is read as a colour exactly if it is what the colour is shown as.
colour_from_str_iff :
    (s : List ℕ) (c : ChannelColour) → (colour_from_str s ≡ ok c) ↔ (as_str c ≡ ok s)
unfolding colour_from_str as_str
colour_from_str_iff s c = (to, colour_from_str-as_str c s)
  where
    to : colour_from_str s ≡ ok c → as_str c ≡ ok s
    to e = elim (Option-cases (position channel_colour_names s)) [
      | inl none_found ↦ let no = rw (colour_from_str, none_found) at e in cc
      | inr (i, found) ↦
          let at_i = index_sound i c (rw (colour_from_str, found) at e) in
          let there = position_sound channel_colour_names s i found in rw (as_str, at_i, there) refl
    ]
