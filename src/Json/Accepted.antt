-- ===== src/Json/Accepted.antt =====
-- The published schemas against what is read: lib/src/messages.rs and lib/src/channels.rs.
use mcp_server_allenheath_dl.Prelude.{
  ℕ, ◌≤◌, ◌≡◌, ◌∙◌, refl, sym, Bool, true, false, ◌&&◌, ◌||◌, not, Result, ok, err, bad_level,
  if◌then◌else◌, arith,
}
use mcp_server_allenheath_dl.Text.{codes, text_eq}
use mcp_server_allenheath_dl.Channels.Names.{ChannelName}
use mcp_server_allenheath_dl.Messages.{Level, neg_infinity}
use mcp_server_allenheath_dl.Levels.{F32}
use mcp_server_allenheath_dl.Json.{
  Utf8, JsonNumbers, JsonValue, text, number, other, deserialize_level, name_from_str,
  deserialize_name,
}
use mcp_server_allenheath_dl.Json.Names.{IsUtf8, length-try_from}
use mcp_server_allenheath_dl.Json.Schema.{validates, level_schema, name_schema}

-- `Result::is_ok`
abbrev pub is_ok : {A : Type 0} → Result A → Bool
is_ok (ok a) = true
is_ok _ = false

is_ok-if :
    (b : Bool) (level : Level) → b ≡ true → is_ok (if b then ok level else err bad_level) ≡ true
is_ok-if true level h = refl
is_ok-if false level h = cc

both-left : (a b : Bool) → (a && b) ≡ true → a ≡ true
both-left true b h = refl
both-left false b h = h

both-right : (a b : Bool) → (a && b) ≡ true → b ≡ true
both-right true b h = h
both-right false b h = cc

-- One of two schemas, where the other never holds.
one_of_left : (b : Bool) → (b && not false || not b && false) ≡ b
one_of_left true = refl
one_of_left false = refl

one_of_right : (b : Bool) → (false && not b || not false && b) ≡ b
one_of_right true = refl
one_of_right false = refl

-- What is relied on of rounding to f32: it is exact on small whole numbers, and keeps the order.
pub record IsRounding {f : F32} (json : JsonNumbers f) : Type 0 where
  pub to_f32-of : (n : ℕ) → n ≤ 255 → json.to_f32 (json.of n) ≡ f.of n
  pub to_f32-neg : (n : ℕ) → n ≤ 255 → json.to_f32 (json.neg (json.of n)) ≡ f.neg (f.of n)
  pub le-to_f32 :
      (x y : json.Number) → json.le x y ≡ true → f.le (json.to_f32 x) (json.to_f32 y) ≡ true

module _ (f : F32) (json : JsonNumbers f) where
  -- A number in the range of the schema is in the range of the code when it is rounded.
  in_range-to_f32 :
      IsRounding json
      → (x : json.Number) → (json.le (json.neg (json.of 50)) x && json.le x (json.of 10)) ≡ true
      → (f.le (f.neg (f.of 50)) (json.to_f32 x) && f.le (json.to_f32 x) (f.of 10)) ≡ true
  in_range-to_f32 rounding x h =
      let above = json.le (json.neg (json.of 50)) x in
      let below = json.le x (json.of 10) in
      let low = rounding.le-to_f32 (json.neg (json.of 50)) x (both-left above below h) in
      let high = rounding.le-to_f32 x (json.of 10) (both-right above below h) in
      let low' : f.le (f.neg (f.of 50)) (json.to_f32 x) ≡ true =
        rw (rounding.to_f32-neg 50 (omega arith)) at low in
      let high' : f.le (json.to_f32 x) (f.of 10) ≡ true =
        rw (rounding.to_f32-of 10 (omega arith)) at high in
      rw (low', high') refl

  -- If rounding to f32 is exact on small whole numbers and keeps the order, then every JSON value that
  -- the published schema of levels allows is read as a level.
  pub is_ok-deserialize_level :
      (rounding : IsRounding json) (v : JsonValue f json)
      → validates f json (level_schema f json) v ≡ true
      → is_ok (deserialize_level f json v) ≡ true
  unfolding validates deserialize_level
  is_ok-deserialize_level rounding (text s) h =
      let allowed = sym (one_of_right (text_eq s (codes "-inf"))) ∙ h in
      is_ok-if (text_eq s (codes "-inf")) neg_infinity allowed
  is_ok-deserialize_level rounding (number x) h =
      let allowed =
        sym (one_of_left (json.le (json.neg (json.of 50)) x && json.le x (json.of 10))) ∙ h in
      is_ok-if (f.le (f.neg (f.of 50)) (json.to_f32 x) && f.le (json.to_f32 x) (f.of 10)) _
        (in_range-to_f32 rounding x allowed)
  is_ok-deserialize_level rounding other h = cc

  -- A name that is read is from a text that its schema allows.
  validates-deserialize_name :
      (utf8 : Utf8) (laws : IsUtf8 utf8) (v : JsonValue f json) (n : ChannelName)
      → deserialize_name f json utf8 v ≡ ok n
      → validates f json (name_schema f json) v ≡ true
  unfolding validates deserialize_name name_from_str
  validates-deserialize_name utf8 laws (text s) n e =
      let short = length-try_from (utf8.as_bytes s) n e in ground (arith, laws.length-as_bytes s)
  validates-deserialize_name utf8 laws (number x) n e = cc
  validates-deserialize_name utf8 laws other n e = cc
