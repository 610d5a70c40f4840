-- ===== src/Levels.antt =====
-- Levels in decibels: the conversions of lib/src/messages.rs, and `LevelDelta` of
-- mcp-server/src/handler.rs. The type f32 and its operations are fields of `F32`.
pub mod Exact
pub mod Steps
use mcp_server_allenheath_dl.Prelude.{
  ℕ, Bool, ◌||◌, ◌≤◌, ◌==◌, if◌then◌else◌, arith, Bool-cases, inl, inr,
}
use mcp_server_allenheath_dl.Messages.{Level}
use mcp_server_allenheath_dl.MidiStream.{IsU7}

pub record F32 : Type 1 where
  pub Float : Type 0
  -- A literal, and `as f32` of a `u8`.
  pub of : ℕ → Float
  pub neg : Float → Float
  pub infinity : Float
  pub add : Float → Float → Float
  pub sub : Float → Float → Float
  pub mul : Float → Float → Float
  pub div : Float → Float → Float
  pub eq : Float → Float → Bool
  pub lt : Float → Float → Bool
  pub le : Float → Float → Bool
  pub clamp : Float → Float → Float → Float
  pub round : Float → Float
  pub log10 : Float → Float
  pub as_u8 : Float → ℕ

-- What is clamped between 0 and 127 and rounded is at most 127 as a `u8`, also if it is no number:
-- then it is 0.
pub record IsF32 (f : F32) : Type 0 where
  pub clamped : (x : f.Float) → f.as_u8 (f.round (f.clamp x (f.of 0) (f.of 127))) ≤ 127

pub data LevelDeltaUnit : Type 0 where
  decibels percentage : LevelDeltaUnit

module _ (f : F32) where
  pub record LevelDelta : Type 0 where
    pub amount : f.Float
    pub unit : LevelDeltaUnit

  unfoldable pub dlive_value_to_db : ℕ → f.Float
  dlive_value_to_db value =
      if value == 0 then f.neg f.infinity else f.div (f.sub (f.of value) (f.of 107)) (f.of 2)

  unfoldable pub db_to_dlive_value : f.Float → ℕ
  db_to_dlive_value gain =
      if f.eq gain (f.neg f.infinity) || f.lt gain (f.neg (f.of 90))
      then 0x00
      else f.as_u8 (f.round (f.clamp (f.add (f.mul (f.of 2) gain) (f.of 107)) (f.of 0) (f.of 127)))

  unfoldable pub to_db : LevelDelta → f.Float
  to_db delta = elim delta.unit [
    | decibels ↦ delta.amount
    | percentage ↦ f.mul (f.of 20) (f.log10 (f.add (f.of 1) (f.div delta.amount (f.of 100))))
  ]

  -- `AddAssign<LevelDelta> for Level`
  unfoldable pub add_assign : Level → LevelDelta → Level
  unfolding dlive_value_to_db db_to_dlive_value to_db
  add_assign level rhs = record {
    value = db_to_dlive_value (f.add (dlive_value_to_db level.value) (to_db rhs));
  }

  db_to_dlive_value-U7 : IsF32 f → (gain : f.Float) → IsU7 (db_to_dlive_value gain)
  unfolding db_to_dlive_value
  db_to_dlive_value-U7 laws gain =
      elim (Bool-cases (f.eq gain (f.neg f.infinity) || f.lt gain (f.neg (f.of 90)))) [
        | inl silent ↦ rw silent (omega arith)
        | inr heard ↦
            rw heard (omega (arith, laws.clamped (f.add (f.mul (f.of 2) gain) (f.of 107))))
      ]

  pub add_assign-U7 :
      IsF32 f → (level : Level) (rhs : LevelDelta) → IsU7 (add_assign level rhs).value
  unfolding add_assign
  add_assign-U7 laws level rhs =
      db_to_dlive_value-U7 laws (f.add (dlive_value_to_db level.value) (to_db rhs))
