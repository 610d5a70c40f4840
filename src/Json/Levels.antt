-- ===== src/Json/Levels.antt =====
-- Which levels of lib/src/messages.rs come back from JSON.
use mcp_server_allenheath_dl.Prelude.{
  ℕ, ◌≤◌, ◌+◌, ◌-◌, ◌*◌, ◌≡◌, refl, ap, ◌∙◌, true, false, ◌&&◌, Bool-cases, inl, inr, ok, err,
  bad_level, leb, ◌==◌, if◌then◌else◌, arith,
}
use mcp_server_allenheath_dl.Text.{codes}
use mcp_server_allenheath_dl.Messages.{Level, neg_infinity}
use mcp_server_allenheath_dl.MidiStream.{IsU7}
use mcp_server_allenheath_dl.Levels.{F32, dlive_value_to_db, db_to_dlive_value}
use mcp_server_allenheath_dl.Levels.Exact.{IsExact, origin}
use mcp_server_allenheath_dl.Levels.Steps.{dlive_value_to_db-half, db_to_dlive_value-half}
use mcp_server_allenheath_dl.Json.{JsonNumbers, text, number, serialize_level, deserialize_level}

-- A half decibel that is written is read as itself.
pub record IsReadBack {f : F32} (exact : IsExact f) (json : JsonNumbers f) : Type 0 where
  pub to_f32-of_f32 : (n : ℕ) → n ≤ 2000 → json.to_f32 (json.of_f32 (exact.half n)) ≡ exact.half n

module _ (f : F32) (exact : IsExact f) (json : JsonNumbers f) (back : IsReadBack exact json) where
  -- −50 dB has the number 924 and the value 7, and 10 dB the number 1044 and the value 127.
  deserialize_half :
      (v : ℕ)
      → v ≤ 127
      → deserialize_level f json (number (json.of_f32 (exact.half (v + 917))))
        ≡ (if leb 7 v then ok (record { value = v }) else err bad_level)
  unfolding deserialize_level
  deserialize_half v low =
      let value : db_to_dlive_value f (exact.half (v + 917)) ≡ v =
        db_to_dlive_value-half f exact (v + 917) (omega arith) ∙ ground arith in
      let tests : f.le (f.neg (f.of 50)) (exact.half (v + 917))
            && f.le (exact.half (v + 917)) (f.of 10)
          ≡ leb 7 v =
        rw
          (
            exact.neg_of 50 (omega arith),
            exact.of_lem 10 (omega arith),
            exact.le_lem (origin - 2 * 50) (v + 917) (omega arith) (omega arith),
            exact.le_lem (v + 917) (origin + 2 * 10) (omega arith) (omega arith),
          )
          (ground arith) in
      rw (back.to_f32-of_f32 (v + 917) (omega arith), tests, value) refl

  serialize_loud :
      (level : Level)
      → (level.value == 0) ≡ false
      → serialize_level f json level ≡ number (json.of_f32 (dlive_value_to_db f level.value))
  unfolding serialize_level
  serialize_loud level loud = rw loud refl

  serialize_silent :
      (level : Level)
      → (level.value == 0) ≡ true
      → serialize_level f json level ≡ text (codes "-inf")
  unfolding serialize_level
  serialize_silent level silent = rw silent refl

  deserialize_silent : deserialize_level f json (text (codes "-inf")) ≡ ok neg_infinity
  unfolding deserialize_level
  deserialize_silent = refl

  -- If f32 is exact on half decibels, and these are read from JSON as they are written, then a level of
  -- the desk that is written to JSON is read back as itself if it is minus infinity or at least −50 dB; the six levels between are written, and refused
  -- when they are read.
  pub deserialize_level-serialize_level :
      (level : Level)
      → IsU7 level.value
      → deserialize_level f json (serialize_level f json level) ≡ (
          if level.value == 0
          then ok level
          else if leb 7 level.value
          then ok level
          else err bad_level)
  deserialize_level-serialize_level level low = elim (Bool-cases (level.value == 0)) [
    | inl silent ↦
        let none : level.value ≡ 0 = ground arith in
        ap (deserialize_level f json) (serialize_silent level silent)
        ∙ deserialize_silent
        ∙ rw (silent, none) refl
    | inr loud ↦
        let half = dlive_value_to_db-half f exact level.value (ground arith) (omega arith) in
        ap (deserialize_level f json)
          (serialize_loud level loud ∙ ap (λ x. number (json.of_f32 x)) half)
        ∙ deserialize_half level.value (omega arith)
        ∙ rw loud refl
  ]
