-- ===== src/Json.antt =====
-- How levels, channels, names and colours go into JSON and come out of it: the implementations of
-- serde's traits in lib/src/messages.rs and lib/src/channels.rs. What the serde crates read is a value
-- that is a text, a number, or something else; the numbers of JSON are theirs, and a parameter.
pub mod Levels
pub mod Names
pub mod Schema
pub mod Accepted
use mcp_server_allenheath_dl.Prelude.{
  ℕ, Bool, ◌&&◌, List, [], ◌∷◌, Result, ok, err, bad_level, bad_json, if◌then◌else◌, ◌==◌, ◌>>=◌,
}
use mcp_server_allenheath_dl.Text.{codes, text_eq}
use mcp_server_allenheath_dl.Messages.{Level, neg_infinity}
use mcp_server_allenheath_dl.Levels.{F32, dlive_value_to_db, db_to_dlive_value}
use mcp_server_allenheath_dl.Channels.{Channel}
use mcp_server_allenheath_dl.Channels.Text.{show_channel, channel_from_str}
use mcp_server_allenheath_dl.Channels.Names.{ChannelName, before_zero, try_from}
use mcp_server_allenheath_dl.Channels.Colours.{ChannelColour}
use mcp_server_allenheath_dl.Channels.ColourText.{as_str}

-- `String::from_utf8_lossy` and `str::as_bytes`.
pub record Utf8 : Type 0 where
  pub lossy : List ℕ → List ℕ
  pub as_bytes : List ℕ → List ℕ

-- The numbers of JSON: whole ones, their order, the f32 nearest to one, and the one that an f32 is
-- written as.
pub record JsonNumbers (f : F32) : Type 1 where
  pub Number : Type 0
  pub of : ℕ → Number
  pub neg : Number → Number
  pub le : Number → Number → Bool
  pub to_f32 : Number → f.Float
  pub of_f32 : f.Float → Number

module _ (f : F32) (json : JsonNumbers f) where
  pub data JsonValue : Type 0 where
    text : List ℕ → JsonValue
    number : json.Number → JsonValue
    other : JsonValue

  -- `Serialize for Level`
  unfoldable pub serialize_level : Level → JsonValue
  unfolding dlive_value_to_db
  serialize_level level =
      if level.value == neg_infinity.value
      then text (codes "-inf")
      else number (json.of_f32 (dlive_value_to_db f level.value))

  -- The arm of `Inner::Float`, on what `f32::deserialize` has rounded.
  abbrev pub level_of_db : f.Float → Result Level
  level_of_db db =
      if f.le (f.neg (f.of 50)) db && f.le db (f.of 10)
      then ok (record { value = db_to_dlive_value f db })
      else err bad_level

  -- `Deserialize for Level`, on a value that is a text, a number, or neither.
  unfoldable pub deserialize_level : JsonValue → Result Level
  unfolding db_to_dlive_value
  deserialize_level (text s) = if text_eq s (codes "-inf") then ok neg_infinity else err bad_level
  deserialize_level (number x) = level_of_db (json.to_f32 x)
  deserialize_level other = err bad_json

  -- `String::deserialize`
  abbrev deserialize_string : JsonValue → Result (List ℕ)
  deserialize_string (text s) = ok s
  deserialize_string _ = err bad_json

  unfoldable pub serialize_channel : Channel → JsonValue
  unfolding show_channel
  serialize_channel channel = text (show_channel channel)

  unfoldable pub deserialize_channel : JsonValue → Result Channel
  unfolding channel_from_str
  deserialize_channel value = deserialize_string value >>= channel_from_str

  unfoldable serialize_colour : ChannelColour → Result JsonValue
  unfolding as_str
  serialize_colour colour = as_str colour >>= λ s. ok (text s)

  module _ (utf8 : Utf8) where
    -- `Display` and `FromStr` of a name.
    abbrev pub show_name : ChannelName → List ℕ
    show_name name = utf8.lossy (before_zero name.bytes)

    unfoldable pub name_from_str : List ℕ → Result ChannelName
    unfolding try_from
    name_from_str s = try_from (utf8.as_bytes s)

    unfoldable pub serialize_name : ChannelName → JsonValue
    unfolding before_zero
    serialize_name name = text (show_name name)

    unfoldable pub deserialize_name : JsonValue → Result ChannelName
    unfolding name_from_str
    deserialize_name value = deserialize_string value >>= name_from_str
