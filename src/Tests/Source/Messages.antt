-- ===== src/Tests/Source/Messages.antt =====
-- The tests of lib/src/messages.rs, for any f32 that is exact on half decibels. A gain of k half
-- decibels has the number 1024 + k.
use mcp_server_allenheath_dl.Prelude.{◌≡◌, arith}
use mcp_server_allenheath_dl.Levels.{F32, dlive_value_to_db, db_to_dlive_value}
use mcp_server_allenheath_dl.Levels.Exact.{IsExact}
use mcp_server_allenheath_dl.Levels.Steps.{
  dlive_value_to_db-half, dlive_value_to_db-silent, db_to_dlive_value-half,
  db_to_dlive_value-silent,
}

module _ (f : F32) (exact : IsExact f) where
  abbrev TestDliveValueToDb : Type 0
  TestDliveValueToDb =
      (dlive_value_to_db f 0x7F ≡ exact.half 1044)
      × (dlive_value_to_db f 0x75 ≡ exact.half 1034)
      × (dlive_value_to_db f 0x6B ≡ exact.half 1024)
      × (dlive_value_to_db f 0x61 ≡ exact.half 1014)
      × (dlive_value_to_db f 0x57 ≡ exact.half 1004)
      × (dlive_value_to_db f 0x4D ≡ exact.half 994)
      × (dlive_value_to_db f 0x43 ≡ exact.half 984)
      × (dlive_value_to_db f 0x39 ≡ exact.half 974)
      × (dlive_value_to_db f 0x2F ≡ exact.half 964)
      × (dlive_value_to_db f 0x25 ≡ exact.half 954)
      × (dlive_value_to_db f 0x1B ≡ exact.half 944)
      × (dlive_value_to_db f 0x11 ≡ exact.half 934)
      × (dlive_value_to_db f 0x00 ≡ f.neg f.infinity)

  test_dlive_value_to_db : TestDliveValueToDb
  test_dlive_value_to_db = (
    dlive_value_to_db-half f exact 0x7F (omega arith) (omega arith),
    dlive_value_to_db-half f exact 0x75 (omega arith) (omega arith),
    dlive_value_to_db-half f exact 0x6B (omega arith) (omega arith),
    dlive_value_to_db-half f exact 0x61 (omega arith) (omega arith),
    dlive_value_to_db-half f exact 0x57 (omega arith) (omega arith),
    dlive_value_to_db-half f exact 0x4D (omega arith) (omega arith),
    dlive_value_to_db-half f exact 0x43 (omega arith) (omega arith),
    dlive_value_to_db-half f exact 0x39 (omega arith) (omega arith),
    dlive_value_to_db-half f exact 0x2F (omega arith) (omega arith),
    dlive_value_to_db-half f exact 0x25 (omega arith) (omega arith),
    dlive_value_to_db-half f exact 0x1B (omega arith) (omega arith),
    dlive_value_to_db-half f exact 0x11 (omega arith) (omega arith),
    dlive_value_to_db-silent f exact,
  )

  abbrev TestDbToDliveValue : Type 0
  TestDbToDliveValue =
      (db_to_dlive_value f (exact.half 1044) ≡ 0x7F)
      × (db_to_dlive_value f (exact.half 1034) ≡ 0x75)
      × (db_to_dlive_value f (exact.half 1024) ≡ 0x6B)
      × (db_to_dlive_value f (exact.half 1014) ≡ 0x61)
      × (db_to_dlive_value f (exact.half 1004) ≡ 0x57)
      × (db_to_dlive_value f (exact.half 994) ≡ 0x4D)
      × (db_to_dlive_value f (exact.half 984) ≡ 0x43)
      × (db_to_dlive_value f (exact.half 974) ≡ 0x39)
      × (db_to_dlive_value f (exact.half 964) ≡ 0x2F)
      × (db_to_dlive_value f (exact.half 954) ≡ 0x25)
      × (db_to_dlive_value f (exact.half 944) ≡ 0x1B)
      × (db_to_dlive_value f (exact.half 934) ≡ 0x11)
      × (db_to_dlive_value f (f.neg f.infinity) ≡ 0x00)

  test_db_to_dlive_value : TestDbToDliveValue
  test_db_to_dlive_value = (
    db_to_dlive_value-half f exact 1044 (omega arith),
    db_to_dlive_value-half f exact 1034 (omega arith),
    db_to_dlive_value-half f exact 1024 (omega arith),
    db_to_dlive_value-half f exact 1014 (omega arith),
    db_to_dlive_value-half f exact 1004 (omega arith),
    db_to_dlive_value-half f exact 994 (omega arith),
    db_to_dlive_value-half f exact 984 (omega arith),
    db_to_dlive_value-half f exact 974 (omega arith),
    db_to_dlive_value-half f exact 964 (omega arith),
    db_to_dlive_value-half f exact 954 (omega arith),
    db_to_dlive_value-half f exact 944 (omega arith),
    db_to_dlive_value-half f exact 934 (omega arith),
    db_to_dlive_value-silent f exact,
  )
