-- ===== src/Levels/Exact.antt =====
-- What the conversions of lib/src/messages.rs rely on: f32 is exact on small whole and half numbers.
use mcp_server_allenheath_dl.Prelude.{
  ℕ, ◌+◌, ◌-◌, ◌*◌, ◌≤◌, ◌≡◌, true, false, ltb, leb, if◌then◌else◌,
}
use mcp_server_allenheath_dl.Levels.{F32}

-- The whole and half numbers from −512 are counted from 0, so that 0 itself is the number 1024.
abbrev pub origin : ℕ
origin = 1024

abbrev pub clamp_number : ℕ → ℕ → ℕ → ℕ
clamp_number n low high = if ltb n low then low else if ltb high n then high else n

pub record IsExact (f : F32) : Type 0 where
  -- The n-th of these numbers: (n − 1024) / 2.
  pub half : ℕ → f.Float
  pub of_lem : (n : ℕ) → n ≤ 255 → f.of n ≡ half (origin + 2 * n)
  pub neg_of : (n : ℕ) → n ≤ 255 → f.neg (f.of n) ≡ half (origin - 2 * n)
  pub add_lem :
      (a b : ℕ)
      → origin ≤ a + b
      → a + b ≤ 8 * origin
      → f.add (half a) (half b) ≡ half (a + b - origin)
  pub sub_lem :
      (a b : ℕ) → b ≤ a + origin → a ≤ 4 * origin → f.sub (half a) (half b) ≡ half (a + origin - b)
  pub double : (a : ℕ) → 512 ≤ a → a ≤ 4 * origin → f.mul (f.of 2) (half a) ≡ half (2 * a - origin)
  pub halve : (a : ℕ) → a ≤ origin → f.div (half (2 * a)) (f.of 2) ≡ half (a + 512)
  pub eq_silent : f.eq (f.neg f.infinity) (f.neg f.infinity) ≡ true
  pub half-not_silent : (a : ℕ) → f.eq (half a) (f.neg f.infinity) ≡ false
  pub add_silent : (a : ℕ) → f.add (f.neg f.infinity) (half a) ≡ f.neg f.infinity
  pub lt_lem : (a b : ℕ) → a ≤ 8 * origin → b ≤ 8 * origin → f.lt (half a) (half b) ≡ ltb a b
  pub le_lem : (a b : ℕ) → a ≤ 8 * origin → b ≤ 8 * origin → f.le (half a) (half b) ≡ leb a b
  pub clamp_lem :
      (a b c : ℕ)
      → a ≤ 8 * origin
      → b ≤ c
      → c ≤ 8 * origin
      → f.clamp (half a) (half b) (half c) ≡ half (clamp_number a b c)
  -- A whole number is rounded to itself, and converted if a `u8` holds it.
  pub round_lem : (n : ℕ) → n ≤ 255 → f.round (half (origin + 2 * n)) ≡ half (origin + 2 * n)
  pub as_u8_lem : (n : ℕ) → n ≤ 255 → f.as_u8 (half (origin + 2 * n)) ≡ n
