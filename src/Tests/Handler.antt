-- ===== src/Tests/Handler.antt =====
-- The theorems on mcp-server/src/handler.rs at concrete calls: the desk names each channel by its
-- number, and has one level for all.
use mcp_server_allenheath_dl.Prelude.{
  ℕ, ◌+◌, ◌-◌, ◌*◌, ◌/◌, ◌≡◌, refl, inl, inr, false, List, [], ◌∷◌, ok, map, length, leb, ltb,
  if◌then◌else◌, arith, Bool,
}
use mcp_server_allenheath_dl.Channels.{Channel, input, mono_aux}
use mcp_server_allenheath_dl.Channels.Names.{ChannelName}
use mcp_server_allenheath_dl.Messages.{Level}
use mcp_server_allenheath_dl.Levels.{F32, IsF32, LevelDelta, decibels}
use mcp_server_allenheath_dl.Args.Ranges.{iter_all}
use mcp_server_allenheath_dl.Args.Config.{ChannelConfig}
use mcp_server_allenheath_dl.Handler.{
  ChannelDetails, Watch, Calls, State, new, list_inputs, input_id,
}
use mcp_server_allenheath_dl.Handler.Kept.{IsWatch, Fresh}
use mcp_server_allenheath_dl.Handler.Tools.{adjust_input_level, adjust_mix_level}

-- Whether the configuration is new, and the configuration.
abbrev pub pair_watch : Watch
pair_watch = record {
  Receiver = Bool × ChannelConfig;
  has_changed = λ r. ok r.0;
  mark_unchanged = λ r. (false, r.1);
  borrow = λ r. r.1;
}

pub pair_watch-IsWatch : IsWatch pair_watch
pair_watch-IsWatch = record { marked = λ r. refl; borrow-marked = λ r. refl }

abbrev pub name_for : Channel → ChannelName
name_for c = record { bytes = c.number ∷ [] }

abbrev pub one_level : Calls Level
one_level = record {
  new = λ w. (ok tt, w);
  channel_names = λ cs w. (ok (map name_for cs), w);
  send_level = λ c d w. (ok w, w);
  set_send_level = λ c d level w. (ok tt, level);
  fader_level = λ c w. (ok w, w);
  set_fader_level = λ c level w. (ok tt, level);
}

pub length-names : (cs : List Channel) → length (map name_for cs) ≡ length cs
length-names [] = refl
length-names (c ∷ cs) = omega (arith, length-names cs)

pub one_level_full :
    (cs : List Channel) (ns : List ChannelName) (w : Level)
    → (one_level.channel_names cs w).0 ≡ ok ns
    → length ns ≡ length cs
one_level_full cs ns w e = let same : map name_for cs ≡ ns = cc in rw same at (length-names cs)

abbrev pub config : ChannelConfig
config = record {
  inputs = record { ty = input; start = 3; end = 5; step = 1 } ∷ [];
  mixes = record { ty = mono_aux; start = 1; end = 2; step = 1 } ∷ [];
}

abbrev pub first : State pair_watch
first = new pair_watch (false, config)

pub first-Fresh : Fresh pair_watch first
first-Fresh = inr (inl refl, inl refl)

abbrev pub at_zero : Level
at_zero = record { value = 107 }

abbrev inputs : List ChannelDetails
inputs =
    record { internal = record { ty = input; number = 3 }; name = record { bytes = 3 ∷ [] } }
    ∷ record { internal = record { ty = input; number = 4 }; name = record { bytes = 4 ∷ [] } }
    ∷ record { internal = record { ty = input; number = 5 }; name = record { bytes = 5 ∷ [] } }
    ∷ []

inputs_listed : (list_inputs pair_watch one_level (first, at_zero)).0 ≡ ok inputs
unfolding list_inputs iter_all
inputs_listed = refl

abbrev pub name4 : ChannelName
name4 = record { bytes = 4 ∷ [] }

name4_found :
    (input_id pair_watch one_level name4 (first, at_zero)).0
    ≡ ok (record { ty = input; number = 4 })
unfolding input_id iter_all
name4_found = refl

-- Numbers without a sign in place of f32, for the run.
abbrev pub whole : F32
whole = record {
  Float = ℕ;
  of = λ n. n;
  neg = λ x. 0;
  infinity = 0;
  add = λ x y. x + y;
  sub = λ x y. x - y;
  mul = λ x y. x * y;
  div = λ x y. x / y;
  eq = λ x y. false;
  lt = λ x y. ltb x y;
  le = λ x y. leb x y;
  clamp = λ x low high. if leb x high then x else high;
  round = λ x. x;
  log10 = λ x. 0;
  as_u8 = λ x. x;
}

whole-IsF32 : IsF32 whole
whole-IsF32 = record { clamped = λ x. ground arith }

abbrev pub louder : LevelDelta whole
louder = record { amount = 6; unit = decibels }

abbrev pub name2 : ChannelName
name2 = record { bytes = 2 ∷ [] }

input_adjusted :
    (adjust_input_level pair_watch one_level whole name4 name2 louder (first, at_zero)).0
    ≡ ok (record { input = name4; mix = name2; level = record { value = 119 } })
unfolding adjust_input_level iter_all
input_adjusted = refl

mix_adjusted :
    (adjust_mix_level pair_watch one_level whole name2 louder (first, at_zero)).0
    ≡ ok (record { mix = name2; level = record { value = 119 } })
unfolding adjust_mix_level iter_all
mix_adjusted = refl
