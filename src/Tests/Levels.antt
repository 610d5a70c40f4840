-- ===== src/Tests/Levels.antt =====
-- The tests of lib/src/messages.rs, and the theorems on levels at concrete ones, on whole and half
-- numbers in place of f32.
use mcp_server_allenheath_dl.Prelude.{
  ap, ℕ, ◌+◌, ◌-◌, ◌*◌, ◌/◌, ◌≡◌, refl, Bool, true, false, [], ◌∷◌, ok, err, ltb, leb, ◌==◌, arith,
  bad_level,
}
use mcp_server_allenheath_dl.Text.{codes}
use mcp_server_allenheath_dl.Channels.Names.{ChannelName, try_from}
use mcp_server_allenheath_dl.Messages.{Level}
use mcp_server_allenheath_dl.Levels.{F32, add_assign}
use mcp_server_allenheath_dl.Levels.Exact.{IsExact, origin, clamp_number}
use mcp_server_allenheath_dl.Levels.Steps.{half_decibels, add_assign-half_decibels}
use mcp_server_allenheath_dl.Json.{JsonNumbers, Utf8, number, serialize_level, deserialize_level}
use mcp_server_allenheath_dl.Json.Schema.{validates, level_schema}
use mcp_server_allenheath_dl.Json.Accepted.{IsRounding, is_ok, is_ok-deserialize_level}
use mcp_server_allenheath_dl.Json.Levels.{IsReadBack, deserialize_level-serialize_level}
use mcp_server_allenheath_dl.Json.Names.{IsUtf8}

-- Minus infinity, and the numbers (n − 1024) / 2; products are by 2, and quotients too.
data Half : Type 0 where
  silent infinite : Half
  at : ℕ → Half

abbrev neg : Half → Half
neg silent = infinite
neg infinite = silent
neg (at n) = at (2 * origin - n)

abbrev on_both : (ℕ → ℕ → ℕ) → Half → Half → Half
on_both op (at a) (at b) = at (op a b)
on_both op infinite y = infinite
on_both op (at a) infinite = infinite
on_both op _ _ = silent

abbrev same : Half → Half → Bool
same silent silent = true
same infinite infinite = true
same (at a) (at b) = a == b
same _ _ = false

abbrev below : (ℕ → ℕ → Bool) → Half → Half → Bool
below test (at a) (at b) = test a b
below test silent silent = test 0 0
below test infinite infinite = test 0 0
below test silent y = true
below test x infinite = true
below test _ _ = false

abbrev clamp : Half → Half → Half → Half
clamp (at a) (at b) (at c) = at (clamp_number a b c)
clamp silent low high = low
clamp infinite low high = high
clamp x low high = x

abbrev round : Half → Half
round (at n) = at (2 * ((n + 1) / 2))
round x = x

abbrev as_u8 : Half → ℕ
as_u8 (at n) = clamp_number ((n - origin) / 2) 0 255
as_u8 silent = 0
as_u8 infinite = 255

abbrev halves : F32
halves = record {
  Float = Half;
  of = λ n. at (origin + 2 * n);
  neg = neg;
  infinity = infinite;
  add = on_both (λ a b. a + b - origin);
  sub = on_both (λ a b. a + origin - b);
  mul = on_both (λ a b. 2 * b - origin);
  div = on_both (λ a b. a / 2 + 512);
  eq = same;
  lt = below ltb;
  le = below leb;
  clamp = clamp;
  round = round;
  log10 = λ x. x;
  as_u8 = as_u8;
}

abbrev halves-IsExact : IsExact halves
halves-IsExact = record {
  half = at;
  of_lem = λ n h. refl;
  neg_of = λ n h. ap at (omega arith);
  add_lem = λ a b lo hi. refl;
  sub_lem = λ a b lo hi. refl;
  double = λ a lo hi. refl;
  halve = λ a h. ap at (omega arith);
  eq_silent = refl;
  half-not_silent = λ a. refl;
  add_silent = λ a. refl;
  lt_lem = λ a b h k. refl;
  le_lem = λ a b h k. refl;
  clamp_lem = λ a b c h k l. refl;
  round_lem = λ n h. ap at (omega arith);
  as_u8_lem = λ n h. ground arith;
}

-- Ten half decibels up from 5 dB end at 10 dB.
abbrev five_db : Level
five_db = record { value = 0x75 }

add_assign-half_decibels_example :
    (add_assign halves five_db (half_decibels halves halves-IsExact 1044)).value ≡ 127
add_assign-half_decibels_example =
    add_assign-half_decibels halves halves-IsExact five_db 1044 (omega arith) (omega arith)
      (omega arith)

-- JSON with numbers in quarters, from −512 on; every other one is rounded down.
abbrev quarters : JsonNumbers halves
quarters = record {
  Number = ℕ;
  of = λ n. 2048 + 4 * n;
  neg = λ x. 4096 - x;
  le = leb;
  to_f32 = λ x. at (x / 2);
  of_f32 = λ y. elim y [ at n ↦ 2 * n | _ ↦ 0 ];
}

quarters-IsReadBack : IsReadBack halves-IsExact quarters
quarters-IsReadBack = record { to_f32-of_f32 = λ n h. ap at (omega arith) }

quarters-IsRounding : IsRounding quarters
quarters-IsRounding = record {
  to_f32-of = λ n h. ap at (omega arith);
  to_f32-neg = λ n h. ap at (omega arith);
  le-to_f32 = λ x y h. ground arith;
}

-- −51 dB is written and refused.
abbrev faint : Level
faint = record { value = 5 }

deserialize_level-serialize_level_example :
    deserialize_level halves quarters (serialize_level halves quarters faint) ≡ err bad_level
deserialize_level-serialize_level_example =
    deserialize_level-serialize_level halves halves-IsExact quarters quarters-IsReadBack faint
      (omega arith)

abbrev ascii : Utf8
ascii = record { lossy = λ bytes. bytes; as_bytes = λ s. s }

ascii-IsUtf8 : IsUtf8 ascii
ascii-IsUtf8 = record {
  length-as_bytes = λ s. omega arith;
  lossy_ascii = λ bytes h. refl;
  as_bytes_ascii = λ s h. refl;
}

abbrev kick : ChannelName
kick = record { bytes = 75 ∷ 105 ∷ 99 ∷ 107 ∷ 0 ∷ 0 ∷ 0 ∷ 0 ∷ [] }

kick_made : try_from (codes "Kick") ≡ ok kick
unfolding try_from
kick_made = refl

-- Ten decibels are not too much.
ten_allowed : validates halves quarters (level_schema halves quarters) (number 2088) ≡ true
unfolding validates
ten_allowed = refl

is_ok-deserialize_level_example : is_ok (deserialize_level halves quarters (number 2088)) ≡ true
is_ok-deserialize_level_example =
    is_ok-deserialize_level halves quarters quarters-IsRounding (number 2088) ten_allowed

-- A quarter more is too much for the schema, and is read as ten decibels.
rounded_first :
    (is_ok (deserialize_level halves quarters (number 2089)) ≡ true)
    × (validates halves quarters (level_schema halves quarters) (number 2089) ≡ false)
unfolding deserialize_level validates
rounded_first = (refl, refl)
