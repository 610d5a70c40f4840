-- ===== src/Json/Schema.antt =====
-- The JSON schemas that lib/src/messages.rs and lib/src/channels.rs publish of levels, channels and
-- names, and what JSON Schema says of the keywords in them. Comments, titles and `inline_schema` say
-- nothing of the values.
use mcp_server_allenheath_dl.Prelude.{ℕ, Bool, true, false, ◌&&◌, ◌||◌, not, List, leb, length}
use mcp_server_allenheath_dl.Text.{codes, text_eq}
use mcp_server_allenheath_dl.Channels.Names.{channel_name_len}
use mcp_server_allenheath_dl.Levels.{F32}
use mcp_server_allenheath_dl.Json.{JsonNumbers, JsonValue, text, number}

module _ (f : F32) (json : JsonNumbers f) where
  -- A number with a minimum and a maximum, a constant text, a text, a text with a maximal length, and
  -- `oneOf` two schemas.
  pub data Schema : Type 0 where
    number_between : json.Number → json.Number → Schema
    const_text : List ℕ → Schema
    any_text : Schema
    text_up_to : ℕ → Schema
    one_of : Schema → Schema → Schema

  -- The length of a text is counted in characters, and exactly one of two schemas is to hold.
  unfoldable pub validates : Schema → JsonValue f json → Bool
  validates (number_between low high) (number x) = json.le low x && json.le x high
  validates (number_between low high) _ = false
  validates (const_text s) (text t) = text_eq t s
  validates (const_text s) _ = false
  validates any_text (text t) = true
  validates any_text _ = false
  validates (text_up_to n) (text t) = leb (length t) n
  validates (text_up_to n) _ = false
  validates (one_of a b) v =
      let in_a = validates a v in
      let in_b = validates b v in (in_a && not in_b) || (not in_a && in_b)

  -- `JsonSchema for Level`
  abbrev pub level_schema : Schema
  level_schema =
      one_of (number_between (json.neg (json.of 50)) (json.of 10)) (const_text (codes "-inf"))

  -- `JsonSchema for Channel`
  abbrev channel_schema : Schema
  channel_schema = any_text

  -- `JsonSchema for ChannelName`
  abbrev pub name_schema : Schema
  name_schema = text_up_to channel_name_len
