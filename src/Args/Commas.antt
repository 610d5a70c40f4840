-- ===== src/Args/Commas.antt =====
-- Lists of ranges in mcp-server/src/args.rs: what is shown with commas is split and read back.
use mcp_server_allenheath_dl.Prelude.{
  ℕ, ◌≡◌, ◌≢◌, refl, inl, inr, Bool, true, false, List, [], ◌∷◌, ◌++◌, map, ◌==◌, if◌then◌else◌, ok,
  arith, All, All-append, Bool-cases, append_assoc, append-nil,
}
use mcp_server_allenheath_dl.Text.{codes, show_u8}
use mcp_server_allenheath_dl.Channels.{ChannelType, input}
use mcp_server_allenheath_dl.Channels.Text.{show_type}
use mcp_server_allenheath_dl.Args.Ranges.{
  ChannelRange, ChannelRangeList, show_range, show_rest, show_ranges, split_commas, collect,
  ranges_from_str,
}
use mcp_server_allenheath_dl.Args.Reading.{
  IsShown, show_ends, show_range-ends, range_from_str-show_range,
}

abbrev NoComma : List ℕ → Type 0
NoComma = All (λ c. c ≢ b',')

split_commas-last : (s part : List ℕ) → NoComma s → split_commas part s ≡ (part ++ s) ∷ []
unfolding split_commas
split_commas-last [] part h = rw append-nil refl
split_commas-last (c ∷ s) part (hc, hs) = elim (Bool-cases (c == b',')) [
  | inl comma ↦ absurd (ground arith)
  | inr other ↦ rw (split_commas, other, split_commas-last s (part ++ c ∷ []) hs, append_assoc) refl
]

split_commas-more :
    (s part rest : List ℕ)
    → NoComma s
    → split_commas part (s ++ b',' ∷ rest) ≡ (part ++ s) ∷ split_commas [] rest
unfolding split_commas
split_commas-more [] part rest h = rw append-nil refl
split_commas-more (c ∷ s) part rest (hc, hs) = elim (Bool-cases (c == b',')) [
  | inl comma ↦ absurd (ground arith)
  | inr other ↦
      rw (split_commas, other, split_commas-more s (part ++ c ∷ []) rest hs, append_assoc) refl
]

show_u8-NoComma : (n : ℕ) → NoComma (show_u8 n)
unfolding show_u8
show_u8-NoComma n = ground arith

show_type-NoComma : (t : ChannelType) → NoComma (show_type t)
unfolding show_type
show_type-NoComma input = omega arith
show_type-NoComma _ = omega arith

show_ends-NoComma : (a b : ℕ) → NoComma (show_ends a b)
show_ends-NoComma a b = elim (Bool-cases (a == b)) [
  | inl same ↦ rw same (show_u8-NoComma a)
  | inr other ↦ rw other (
      All-append (λ c. c ≢ b',') (show_u8 a) (b'-' ∷ show_u8 b) (show_u8-NoComma a)
        (omega arith, show_u8-NoComma b))
]

mark-NoComma : (b : Bool) → NoComma (if b then codes "St" else [])
mark-NoComma true = omega arith
mark-NoComma false = tt

show_range-NoComma : (r : ChannelRange) → NoComma (show_range r)
show_range-NoComma r = rw (show_range-ends r) (
    All-append (λ c. c ≢ b',') (if r.step == 2 then codes "St" else [])
      (show_type r.ty ++ show_ends r.start r.end) (mark-NoComma (r.step == 2))
      (All-append (λ c. c ≢ b',') (show_type r.ty) (show_ends r.start r.end)
        (show_type-NoComma r.ty) (show_ends-NoComma r.start r.end)))

split_commas-show_rest :
    (rs : ChannelRangeList) (s : List ℕ)
    → NoComma s
    → split_commas [] (s ++ show_rest rs) ≡ s ∷ map show_range rs
unfolding show_rest
split_commas-show_rest [] s hs = rw (append-nil, split_commas-last s [] hs)
split_commas-show_rest (r ∷ rs) s hs = rw (
  split_commas-more s [] (show_range r ++ show_rest rs) hs,
  split_commas-show_rest rs (show_range r) (show_range-NoComma r),
)

collect-show_range : (rs : ChannelRangeList) → All IsShown rs → collect (map show_range rs) ≡ ok rs
unfolding collect
collect-show_range [] h = refl
collect-show_range (r ∷ rs) (hr, hs) = rw (range_from_str-show_range r hr, collect-show_range rs hs)

-- A list of ranges, one at least, is read back from its text, if each has valid ends, a type with a
-- prefix, and a step of 1, or of 2 for inputs.
pub ranges_from_str-show_ranges :
    (r : ChannelRange) (rs : ChannelRangeList)
    → All IsShown (r ∷ rs)
    → ranges_from_str (show_ranges (r ∷ rs)) ≡ ok (r ∷ rs)
unfolding ranges_from_str show_ranges
ranges_from_str-show_ranges r rs h =
    rw (split_commas-show_rest rs (show_range r) (show_range-NoComma r))
      (collect-show_range (r ∷ rs) h)
