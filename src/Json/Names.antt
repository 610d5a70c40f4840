-- ===== src/Json/Names.antt =====
-- Channels and names of lib/src/channels.rs come back from JSON.
use mcp_server_allenheath_dl.Prelude.{
  ℕ, ◌≤◌, ◌<◌, ◌≡◌, sym, ap, ◌∙◌, Bool-cases, inl, inr, List, [], ◌∷◌, ok, err,
  unknown_channel_type, leb, length, All, arith, if◌then◌else◌,
}
use mcp_server_allenheath_dl.Channels.{Channel, IsValid}
use mcp_server_allenheath_dl.Channels.Reading.{has_prefix, channel_from_str-show_channel}
use mcp_server_allenheath_dl.Channels.Names.{
  ChannelName, try_from, before_zero, try_from_too_long, before_zero-try_from,
}
use mcp_server_allenheath_dl.Levels.{F32}
use mcp_server_allenheath_dl.Json.{
  JsonNumbers, Utf8, text, serialize_channel, deserialize_channel, serialize_name, deserialize_name,
  show_name, name_from_str,
}

-- A byte that is a character by itself, and not zero.
abbrev IsAscii : ℕ → Type 0
IsAscii b = (0 < b) × (b < 128)

-- In UTF-8, ASCII characters are their codes.
pub record IsUtf8 (utf8 : Utf8) : Type 0 where
  pub lossy_ascii : (bytes : List ℕ) → All IsAscii bytes → utf8.lossy bytes ≡ bytes
  pub as_bytes_ascii : (s : List ℕ) → All IsAscii s → utf8.as_bytes s ≡ s
  -- A character takes a byte at least.
  pub length-as_bytes : (s : List ℕ) → length s ≤ length (utf8.as_bytes s)

positive : (bytes : List ℕ) → All IsAscii bytes → All (λ b. 0 < b) bytes
positive [] h = tt
positive (b ∷ bytes) ((hb, _), h) = (hb, positive bytes h)

pub length-try_from : (value : List ℕ) (n : ChannelName) → try_from value ≡ ok n → length value ≤ 8
length-try_from value n e = elim (Bool-cases (leb (length value) 8)) [
  | inl short ↦ ground arith
  | inr long ↦ let no = try_from_too_long value (ground arith) in cc
]

module _ (f : F32) (json : JsonNumbers f) (utf8 : Utf8) (laws : IsUtf8 utf8) where
  -- A name that was made of ASCII characters without zeros is written to JSON as these, and is read
  -- back as itself.
  deserialize_name-serialize_name :
      (value : List ℕ) (n : ChannelName)
      → All IsAscii value
      → try_from value ≡ ok n
      → (serialize_name f json utf8 n ≡ text value)
        × (deserialize_name f json utf8 (serialize_name f json utf8 n) ≡ ok n)
  unfolding serialize_name deserialize_name name_from_str
  deserialize_name-serialize_name value n ascii made =
      let (m, made', _, shown) =
        before_zero-try_from value (length-try_from value n made) (positive value ascii) in
      let same : m ≡ n = cc in
      let written : before_zero n.bytes ≡ value =
        ap (λ k. before_zero k.bytes) (sym same) ∙ shown in
      let shown_as : show_name f json utf8 n ≡ value =
        ap utf8.lossy written ∙ laws.lossy_ascii value ascii in
      (
        ap text shown_as,
        ap (λ s. try_from (utf8.as_bytes s)) shown_as
            ∙ ap try_from (laws.as_bytes_ascii value ascii)
            ∙ made,
      )

  -- A valid channel is read back as itself if its type has a prefix.
  deserialize_channel-serialize_channel :
      (c : Channel)
      → IsValid c
      → deserialize_channel f json (serialize_channel f json c)
        ≡ (if has_prefix c.ty then ok c else err unknown_channel_type)
  unfolding serialize_channel deserialize_channel
  deserialize_channel-serialize_channel c v = channel_from_str-show_channel c v
