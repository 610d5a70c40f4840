-- ===== src/Channels/Reading.antt =====
-- Reading back the text of channels, `FromStr` after `Display`, in lib/src/channels.rs.
use mcp_server_allenheath_dl.Prelude.{
  ℕ, ◌<◌, ◌≡◌, refl, inl, inr, Bool, true, false, List, [], ◌++◌, some, Holds, Holds-bind, Holds-ok,
  ok, err, ok_or, unknown_channel_type, no_number, ◌>>◌, arith, if◌then◌else◌, leb, ◌&&◌,
  Bool-cases,
}
use mcp_server_allenheath_dl.Text.{split_at_digit, parse_u8, show_u8, parse_u8-show_u8}
use mcp_server_allenheath_dl.Channels.{
  ChannelType, input, mono_fx_send, stereo_fx_send, mute_group, Channel, IsValid, validate,
  last_number,
}
use mcp_server_allenheath_dl.Channels.Text.{
  show_type, show_channel, type_from_str, channel_from_str,
}

-- The types that the table of prefixes names.
abbrev pub has_prefix : ChannelType → Bool
has_prefix mono_fx_send = false
has_prefix stereo_fx_send = false
has_prefix mute_group = false
has_prefix _ = true

pub split_at_digit-show_u8 : (n : ℕ) → n < 256 → split_at_digit (show_u8 n) ≡ some ([], show_u8 n)
unfolding split_at_digit show_u8
split_at_digit-show_u8 n h = ground arith

pub split_at_digit-show_type :
    (t : ChannelType) (rest : List ℕ)
    → split_at_digit rest ≡ some ([], rest)
    → split_at_digit (show_type t ++ rest) ≡ some (show_type t, rest)
unfolding split_at_digit show_type
split_at_digit-show_type input rest h = rw h
split_at_digit-show_type _ rest h = rw h

pub type_from_str-show_type :
    (t : ChannelType)
    → type_from_str (show_type t) ≡ (if has_prefix t then ok t else err unknown_channel_type)
unfolding type_from_str show_type
type_from_str-show_type input = refl
type_from_str-show_type _ = refl

pub validate-IsValid : (c : Channel) → IsValid c → validate c ≡ ok tt
unfolding validate
validate-IsValid c v = ground arith

pub last_number-lt : (t : ChannelType) → last_number t < 256
last_number-lt t = ground arith

-- What a valid channel is shown as is read as the channel itself, but for the three types without a
-- prefix, which are refused.
pub channel_from_str-show_channel :
    (c : Channel)
    → IsValid c
    → channel_from_str (show_channel c)
      ≡ (if has_prefix c.ty then ok c else err unknown_channel_type)
unfolding channel_from_str show_channel
channel_from_str-show_channel c v =
    let small : c.number < 256 = omega (arith, last_number-lt c.ty) in
    let apart =
      split_at_digit-show_type c.ty (show_u8 c.number) (split_at_digit-show_u8 c.number small) in
    rw (apart, type_from_str-show_type c.ty)
      (elim (Bool-cases (has_prefix c.ty)) [
        | inl named ↦ rw (named, parse_u8-show_u8 c.number small, validate-IsValid c v)
        | inr unnamed ↦ rw unnamed
      ])

validated : (c : Channel) → Holds IsValid (validate c >> ok c)
unfolding validate
validated c = elim (Bool-cases (leb 1 c.number && leb c.number (last_number c.ty))) [
  | inl inside ↦ let v : IsValid c = ground arith in rw inside v
  | inr outside ↦ rw outside tt
]

channel_from_str-Holds : (s : List ℕ) → Holds IsValid (channel_from_str s)
unfolding channel_from_str
channel_from_str-Holds s = Holds-bind IsValid (ok_or (split_at_digit s) no_number) _ (λ p.
    Holds-bind IsValid (type_from_str p.0) _
      (λ ty. Holds-bind IsValid (parse_u8 p.1) _ (λ n. validated (record { ty = ty; number = n }))))

-- Whatever is read as a channel is a valid channel.
pub channel_from_str_sound : (s : List ℕ) (c : Channel) → channel_from_str s ≡ ok c → IsValid c
channel_from_str_sound s c e = Holds-ok IsValid (channel_from_str s) c (channel_from_str-Holds s) e
