-- ===== src/Args/Ranges.antt =====
-- `ChannelRange` and `ChannelRangeList` of mcp-server/src/args.rs.
use mcp_server_allenheath_dl.Prelude.{
  ℕ, zero, suc, ◌+◌, true, false, List, [], ◌∷◌, ◌++◌, map, none, some, leb, ◌==◌, if◌then◌else◌,
  Result, ok, ok_or, no_number, ◌>>=◌, ◌>>◌,
}
use mcp_server_allenheath_dl.Text.{
  codes, split_at_digit, split_once, strip_prefix, parse_u8, show_u8,
}
use mcp_server_allenheath_dl.Channels.{ChannelType, Channel, validate}
use mcp_server_allenheath_dl.Channels.Text.{show_type, type_from_str}

pub record ChannelRange : Type 0 where
  pub ty : ChannelType
  pub start : ℕ
  pub end : ℕ
  pub step : ℕ

-- The list of ranges is the record's one field.
abbrev pub ChannelRangeList : Type 0
ChannelRangeList = List ChannelRange

-- `(start..=end).step_by(step)`; the fuel bounds the number of items.
unfoldable pub step_by : ℕ → ℕ → ℕ → ℕ → List ℕ
step_by zero start end step = []
step_by (suc fuel) start end step =
    let rest = step_by fuel (start + step) end step in if leb start end then start ∷ rest else []

abbrev pub at : ChannelType → ℕ → Channel
at t n = record { ty = t; number = n }

-- `ChannelRange::iter`. A step of 0, which `step_by` panics on, is never read from a text.
unfoldable pub iter : ChannelRange → List Channel
unfolding step_by
iter r = map (at r.ty) (step_by (suc r.end) r.start r.end r.step)

-- `ChannelRangeList::iter`
unfoldable pub iter_all : ChannelRangeList → List Channel
unfolding iter
iter_all [] = []
iter_all (r ∷ rs) = iter r ++ iter_all rs

unfoldable pub show_range : ChannelRange → List ℕ
unfolding show_type show_u8
show_range r =
    (if r.step == 2 then codes "St" else [])
    ++ (if r.start == r.end
        then show_type r.ty ++ show_u8 r.start
        else show_type r.ty ++ show_u8 r.start ++ (b'-' ∷ show_u8 r.end))

-- The loop of `Display for ChannelRangeList`, behind the first range.
unfoldable pub show_rest : ChannelRangeList → List ℕ
show_rest [] = []
show_rest (r ∷ rs) = b',' ∷ (show_range r ++ show_rest rs)

unfoldable pub show_ranges : ChannelRangeList → List ℕ
unfolding show_rest show_range
show_ranges [] = []
show_ranges (r ∷ rs) = show_range r ++ show_rest rs

-- The step, and the text behind a stripped "St".
abbrev pub split_step : List ℕ → ℕ × List ℕ
split_step s = elim (strip_prefix (codes "StIp") s) [
  | some rest ↦ (2, codes "Ip" ++ rest)
  | none ↦ (1, s)
]

-- `a-b`, or one number for both.
unfoldable pub parse_ends : List ℕ → Result (ℕ × ℕ)
unfolding split_once parse_u8
parse_ends rest = elim (split_once b'-' rest) [
  | some (a, b) ↦ parse_u8 a >>= λ x. parse_u8 b >>= λ y. ok (x, y)
  | none ↦ parse_u8 rest >>= λ n. ok (n, n)
]

unfoldable pub range_from_str : List ℕ → Result ChannelRange
unfolding split_at_digit type_from_str parse_ends validate
range_from_str s = do
  let (step, s) = split_step s
  (ty_str, rest) ← ok_or (split_at_digit s) no_number
  ty ← type_from_str ty_str
  (start, end) ← parse_ends rest
  validate (at ty start)
  validate (at ty end)
  ok (record { ty = ty; start = start; end = end; step = step })

-- `s.split(',')`, with the part that is being read.
unfoldable pub split_commas : List ℕ → List ℕ → List (List ℕ)
split_commas part [] = part ∷ []
split_commas part (c ∷ s) = elim (c == b',') [
  | true ↦ part ∷ split_commas [] s
  | false ↦ split_commas (part ++ c ∷ []) s
]

-- `map(parse).collect::<Result<Vec<_>, _>>()`
unfoldable pub collect : List (List ℕ) → Result ChannelRangeList
unfolding range_from_str
collect [] = ok []
collect (part ∷ parts) = do r ← range_from_str part; rs ← collect parts; ok (r ∷ rs)

unfoldable pub ranges_from_str : List ℕ → Result ChannelRangeList
unfolding split_commas collect
ranges_from_str s = collect (split_commas [] s)
