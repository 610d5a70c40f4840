-- ===== src/Levels/Steps.antt =====
-- Levels of lib/src/messages.rs are half decibels, counted in steps; LevelDelta of
-- mcp-server/src/handler.rs moves them by steps.
use mcp_server_allenheath_dl.Prelude.{
  ℕ, ◌+◌, ◌-◌, ◌*◌, ◌≤◌, ◌≡◌, refl, ap, ◌∙◌, false, Bool-cases, inl, inr, ltb, ◌==◌, if◌then◌else◌,
  arith,
}
use mcp_server_allenheath_dl.Messages.{Level}
use mcp_server_allenheath_dl.MidiStream.{IsU7}
use mcp_server_allenheath_dl.Levels.{
  F32, LevelDelta, decibels, dlive_value_to_db, db_to_dlive_value, to_db, add_assign,
}
use mcp_server_allenheath_dl.Levels.Exact.{IsExact, origin, clamp_number}

-- The value of the gain with a number: one for each half decibel from −53 on, within 0 and 127.
abbrev value_at : ℕ → ℕ
value_at n = clamp_number n 917 1044 - 917

value_at-le : (n : ℕ) → value_at n ≤ 127
value_at-le n = ground arith

clamp_doubled : (n : ℕ) → 844 ≤ n → clamp_number (2 * n - 810) 1024 1278 ≡ origin + 2 * value_at n
clamp_doubled n h = ground arith

module _ (f : F32) (exact : IsExact f) where
  pub dlive_value_to_db-half :
      (v : ℕ) → 1 ≤ v → v ≤ 255 → dlive_value_to_db f v ≡ exact.half (v + 917)
  unfolding dlive_value_to_db
  dlive_value_to_db-half v lo hi =
      let loud : (v == 0) ≡ false = ground arith in
      rw
        (
          loud,
          exact.of_lem v hi,
          exact.of_lem 107 (omega arith),
          exact.sub_lem (origin + 2 * v) (origin + 2 * 107) (omega arith) (omega arith),
        )
        (ap (λ n. f.div (exact.half n) (f.of 2)) (omega arith)
          ∙ exact.halve (v + 405) (omega arith)
          ∙ ap exact.half (omega arith))

  pub dlive_value_to_db-silent : dlive_value_to_db f 0 ≡ f.neg f.infinity
  unfolding dlive_value_to_db
  dlive_value_to_db-silent = refl

  heard_value :
      (n : ℕ)
      → 844 ≤ n
      → n ≤ 2000
      → f.as_u8
          (f.round (f.clamp (f.add (f.mul (f.of 2) (exact.half n)) (f.of 107)) (f.of 0) (f.of 127)))
        ≡ value_at n
  heard_value n lo hi =
      let gain : f.add (f.mul (f.of 2) (exact.half n)) (f.of 107) ≡ exact.half (2 * n - 810) =
        rw
          (
            exact.double n (omega arith) (omega arith),
            exact.of_lem 107 (omega arith),
            exact.add_lem (2 * n - origin) (origin + 2 * 107) (omega arith) (omega arith),
          )
          (ap exact.half (omega arith)) in
      rw
        (
          gain,
          exact.of_lem 0 (omega arith),
          exact.of_lem 127 (omega arith),
          exact.clamp_lem (2 * n - 810) (origin + 2 * 0) (origin + 2 * 127) (omega arith)
              (omega arith) (omega arith),
          clamp_doubled n lo,
          exact.round_lem (value_at n) (omega (arith, value_at-le n)),
          exact.as_u8_lem (value_at n) (omega (arith, value_at-le n)),
        )
        refl

  pub db_to_dlive_value-half : (n : ℕ) → n ≤ 2000 → db_to_dlive_value f (exact.half n) ≡ value_at n
  unfolding db_to_dlive_value
  db_to_dlive_value-half n hi =
      let test : f.lt (exact.half n) (f.neg (f.of 90)) ≡ ltb n 844 =
        rw
          (
            exact.neg_of 90 (omega arith),
            exact.lt_lem n (origin - 2 * 90) (omega arith) (omega arith),
          )
          refl in
      elim (Bool-cases (ltb n 844)) [
        | inl silent ↦ rw (exact.half-not_silent n, test, silent) (ground arith)
        | inr heard ↦ rw (exact.half-not_silent n, test, heard) (heard_value n (ground arith) hi)
      ]

  pub db_to_dlive_value-silent : db_to_dlive_value f (f.neg f.infinity) ≡ 0
  unfolding db_to_dlive_value
  db_to_dlive_value-silent = rw exact.eq_silent refl

  -- If f32 is exact on half decibels, then every level of the desk, turned into decibels and back, is
  -- the same level.
  db_to_dlive_value-dlive_value_to_db :
      (v : ℕ) → IsU7 v → db_to_dlive_value f (dlive_value_to_db f v) ≡ v
  db_to_dlive_value-dlive_value_to_db v low = elim (Bool-cases (v == 0)) [
    | inl silent ↦
        let none : v ≡ 0 = ground arith in
        rw (none, dlive_value_to_db-silent, db_to_dlive_value-silent) refl
    | inr loud ↦
        rw
          (
            dlive_value_to_db-half v (ground arith) (omega arith),
            db_to_dlive_value-half (v + 917) (omega arith),
          )
          (ground arith)
  ]

  -- A delta of so many half decibels more than −512 dB.
  abbrev pub half_decibels : ℕ → LevelDelta f
  half_decibels n = record { amount = exact.half n; unit = decibels }

  -- If f32 is exact on half decibels, then a delta in decibels moves a level by one step for each half
  -- decibel, up or down, and stops at 0 and at 127; a level of minus infinity stays. (A delta of k half
  -- decibels up has the number 1024 + k, and down 1024 − k; k is at most about 800.)
  pub add_assign-half_decibels :
      (level : Level) (n : ℕ)
      → IsU7 level.value
      → 200 ≤ n
      → n ≤ 1800
      → (add_assign f level (half_decibels n)).value ≡ (
          if level.value == 0
          then 0
          else clamp_number (level.value + n) origin (origin + 127) - origin)
  unfolding add_assign to_db
  add_assign-half_decibels level n low lo hi = elim (Bool-cases (level.value == 0)) [
    | inl silent ↦
        let none : level.value ≡ 0 = ground arith in
        rw (none, dlive_value_to_db-silent, exact.add_silent n, db_to_dlive_value-silent) refl
    | inr loud ↦
        let sum : exact.half (level.value + 917 + n - origin) ≡ exact.half (level.value + n - 107) =
          ap exact.half (omega arith) in
        rw
          (
            dlive_value_to_db-half level.value (ground arith) (omega arith),
            exact.add_lem (level.value + 917) n (omega arith) (omega arith),
            sum,
            db_to_dlive_value-half (level.value + n - 107) (omega arith),
          )
          (ground arith)
  ]
