-- ===== src/Args/Reading.antt =====
-- Reading ranges, `FromStr` of `ChannelRange` and `ChannelRangeList` in mcp-server/src/args.rs: what
-- is read is in range, and what is shown is read back.
use mcp_server_allenheath_dl.Prelude.{
  ℕ, ◌<◌, ◌≡◌, refl, ◌⊎◌, inl, inr, true, List, [], ◌∷◌, ◌++◌, some, none, leb, ◌==◌, if◌then◌else◌,
  ok, arith, All, Bool-cases, Option-cases, Holds, Holds-bind, Holds-ok, Holds-chain, ◌&&◌, ok_or,
  no_number, ◌>>◌, append_assoc,
}
use mcp_server_allenheath_dl.Text.{
  codes, split_at_digit, split_once, strip_prefix, show_u8, parse_u8-show_u8,
}
use mcp_server_allenheath_dl.Channels.{ChannelType, input, IsValid, last_number, validate}
use mcp_server_allenheath_dl.Channels.Text.{show_type, type_from_str}
use mcp_server_allenheath_dl.Channels.Reading.{
  has_prefix, split_at_digit-show_type, split_at_digit-show_u8, type_from_str-show_type,
  validate-IsValid, last_number-lt,
}
use mcp_server_allenheath_dl.Args.Ranges.{
  ChannelRange, ChannelRangeList, at, iter_all, show_range, split_step, parse_ends, range_from_str,
  split_commas, collect, ranges_from_str,
}
use mcp_server_allenheath_dl.Args.Iter.{IsRange, iter_all-IsValid}

split_step-step : (s : List ℕ) → ((split_step s).0 ≡ 1) ⊎ ((split_step s).0 ≡ 2)
split_step-step s = elim (Option-cases (strip_prefix (codes "StIp") s)) [
  | inl whole ↦ inl (rw whole refl)
  | inr (rest, found) ↦ inr (rw found refl)
]

-- The end of the reader: both ends are checked.
checked :
    (t : ChannelType) (a b step : ℕ)
    → (step ≡ 1) ⊎ (step ≡ 2)
    → Holds IsRange (
        validate (at t a)
        >> (validate (at t b) >> ok (record { ty = t; start = a; end = b; step = step })))
unfolding validate
checked t a b step h = elim (Bool-cases (leb 1 a && leb a (last_number t))) [
  | inl first ↦ elim (Bool-cases (leb 1 b && leb b (last_number t))) [
    | inl second ↦ rw (first, second) (ground arith, ground arith, omega arith, omega arith)
    | inr out ↦ rw (first, out) tt
  ]
  | inr out ↦ rw out tt
]

range_from_str-Holds : (s : List ℕ) → Holds IsRange (range_from_str s)
unfolding range_from_str
range_from_str-Holds s =
    Holds-bind IsRange (ok_or (split_at_digit (split_step s).1) no_number) _ (λ p.
      Holds-bind IsRange (type_from_str p.0) _ (λ t.
        Holds-bind IsRange (parse_ends p.1) _
          (λ e. checked t e.0 e.1 (split_step s).0 (split_step-step s))))

collect-Holds : (parts : List (List ℕ)) → Holds (All IsRange) (collect parts)
unfolding collect
collect-Holds [] = tt
collect-Holds (part ∷ parts) =
    Holds-chain IsRange (All IsRange) (range_from_str part) _ (range_from_str-Holds part) (λ r hr.
      Holds-chain (All IsRange) (All IsRange) (collect parts) _ (collect-Holds parts)
        (λ rs hs. (hr, hs)))

-- Whatever is read as a list of ranges goes through valid channels only.
pub iter_all-ranges_from_str :
    (s : List ℕ) (rs : ChannelRangeList) → ranges_from_str s ≡ ok rs → All IsValid (iter_all rs)
unfolding ranges_from_str
iter_all-ranges_from_str s rs e =
    iter_all-IsValid rs (
      Holds-ok (All IsRange) (collect (split_commas [] s)) rs (collect-Holds (split_commas [] s)) e)

-- What `Display` writes without loss: a type with a prefix, and a step of 1, or of 2 for inputs.
abbrev pub IsShown : ChannelRange → Type 0
IsShown r = IsRange r × (has_prefix r.ty ≡ true) × (r.step ≡ 1 ⊎ (r.step ≡ 2 × r.ty ≡ input))

split_at_digit-ends :
    (n : ℕ) (rest : List ℕ)
    → n < 256
    → split_at_digit (show_u8 n ++ rest) ≡ some ([], show_u8 n ++ rest)
unfolding split_at_digit show_u8
split_at_digit-ends n rest h = ground arith

split_once-dash :
    (n : ℕ) (rest : List ℕ)
    → n < 256
    → split_once b'-' (show_u8 n ++ b'-' ∷ rest) ≡ some (show_u8 n, rest)
unfolding split_once show_u8
split_once-dash n rest h = ground arith

split_once-plain : (n : ℕ) → n < 256 → split_once b'-' (show_u8 n) ≡ none
unfolding split_once show_u8
split_once-plain n h = ground arith

-- The text of the two ends.
abbrev pub show_ends : ℕ → ℕ → List ℕ
show_ends a b = if a == b then show_u8 a else (show_u8 a ++ b'-' ∷ show_u8 b)

parse_ends-one : (n : ℕ) → n < 256 → parse_ends (show_u8 n) ≡ ok (n, n)
unfolding parse_ends
parse_ends-one n h = rw (parse_ends, split_once-plain n h, parse_u8-show_u8 n h)

parse_ends-two :
    (a b : ℕ) → a < 256 → b < 256 → parse_ends (show_u8 a ++ b'-' ∷ show_u8 b) ≡ ok (a, b)
unfolding parse_ends
parse_ends-two a b ha hb =
    rw (parse_ends, split_once-dash a (show_u8 b) ha, parse_u8-show_u8 a ha, parse_u8-show_u8 b hb)

parse_ends-show_ends : (a b : ℕ) → a < 256 → b < 256 → parse_ends (show_ends a b) ≡ ok (a, b)
parse_ends-show_ends a b ha hb = ground (arith, parse_ends-one a ha, parse_ends-two a b ha hb)

split_at_digit-show_ends :
    (a b : ℕ) → a < 256 → split_at_digit (show_ends a b) ≡ some ([], show_ends a b)
split_at_digit-show_ends a b h =
    ground (arith, split_at_digit-show_u8 a h, split_at_digit-ends a (b'-' ∷ show_u8 b) h)

-- A type's name does not start with the mark of a stereo range.
split_step-show_type :
    (t : ChannelType) (a b : ℕ)
    → split_step (show_type t ++ show_ends a b) ≡ (1, show_type t ++ show_ends a b)
unfolding show_type
split_step-show_type input a b = refl
split_step-show_type _ a b = refl

range_from_str-ends :
    (t : ChannelType) (a b step : ℕ) (s : List ℕ)
    → has_prefix t ≡ true
    → IsValid (at t a)
    → IsValid (at t b)
    → split_step s ≡ (step, show_type t ++ show_ends a b)
    → range_from_str s ≡ ok (record { ty = t; start = a; end = b; step = step })
unfolding range_from_str
range_from_str-ends t a b step s named v w e =
    let small_a : a < 256 = omega (arith, last_number-lt t) in
    let small_b : b < 256 = omega (arith, last_number-lt t) in
    rw (
      e,
      split_at_digit-show_type t (show_ends a b) (split_at_digit-show_ends a b small_a),
      type_from_str-show_type t,
      named,
      parse_ends-show_ends a b small_a small_b,
      validate-IsValid (at t a) v,
      validate-IsValid (at t b) w,
    )

pub show_range-ends :
    (r : ChannelRange)
    → show_range r
      ≡ (if r.step == 2 then codes "St" else []) ++ (show_type r.ty ++ show_ends r.start r.end)
unfolding show_range
show_range-ends r = elim (Bool-cases (r.start == r.end)) [
  | inl same ↦ rw same refl
  | inr other ↦ rw (other, append_assoc) refl
]

marked :
    (a b : ℕ)
    → split_step (codes "St" ++ (show_type input ++ show_ends a b))
      ≡ (2, show_type input ++ show_ends a b)
unfolding show_type
marked a b = refl

pub range_from_str-show_range :
    (r : ChannelRange) → IsShown r → range_from_str (show_range r) ≡ ok r
range_from_str-show_range r ((v, w, _, _), named, inl one) =
    range_from_str-ends r.ty r.start r.end r.step (show_range r) named v w
      (rw (show_range-ends r, one) (split_step-show_type r.ty r.start r.end))
range_from_str-show_range r ((v, w, _, _), named, inr (two, is_input)) =
    range_from_str-ends r.ty r.start r.end r.step (show_range r) named v w
      (rw (show_range-ends r, two, is_input) (marked r.start r.end))
