-- ===== src/Args/Iter.antt =====
-- Which channels `ChannelRange::iter` of mcp-server/src/args.rs goes through.
use mcp_server_allenheath_dl.Prelude.{
  ℕ, zero, suc, ◌+◌, ◌*◌, ◌≤◌, ◌<◌, ◌≡◌, refl, inl, inr, List, [], ◌∷◌, map, some, none, leb,
  if◌then◌else◌, arith, All, All-append, get_elem?, Bool-cases,
}
use mcp_server_allenheath_dl.Channels.{ChannelType, IsValid, last_number}
use mcp_server_allenheath_dl.Args.Ranges.{
  ChannelRange, ChannelRangeList, step_by, at, iter, iter_all,
}

-- The fuel `end + 1` is enough, since each step of at least 1 brings the end nearer.
step_by_lem :
    (fuel start end step k : ℕ)
    → 1 ≤ step
    → end < start + fuel
    → get_elem? (step_by fuel start end step) k
      ≡ (if leb (start + k * step) end then some (start + k * step) else none)
unfolding step_by
step_by_lem zero start end step k h lt = ground arith
step_by_lem (suc fuel) start end step zero h lt = ground arith
step_by_lem (suc fuel) start end step (suc k) h lt =
    ground (arith, step_by_lem fuel (start + step) end step k h (omega arith))

get_elem?-map :
    (t : ChannelType) (ns : List ℕ) (k : ℕ)
    → get_elem? (map (at t) ns) k ≡ elim (get_elem? ns k) [ none ↦ none | some n ↦ some (at t n) ]
get_elem?-map t [] k = refl
get_elem?-map t (n ∷ ns) zero = refl
get_elem?-map t (n ∷ ns) (suc k) = get_elem?-map t ns k

-- The item at place `k` has the number `start + k * step`, as long as that is at most `end`, and then
-- no item follows; the step is not 0.
pub iter_lem :
    (r : ChannelRange) (k : ℕ)
    → 1 ≤ r.step
    → get_elem? (iter r) k
      ≡ (if leb (r.start + k * r.step) r.end then some (at r.ty (r.start + k * r.step)) else none)
unfolding iter
iter_lem r k h =
    rw
      (
        get_elem?-map r.ty (step_by (suc r.end) r.start r.end r.step) k,
        step_by_lem (suc r.end) r.start r.end r.step k h (omega arith),
      )
      (ground arith)

-- What a range that was read holds: both ends are valid channels of its type, and the step is 1 or 2.
abbrev pub IsRange : ChannelRange → Type 0
IsRange r = IsValid (at r.ty r.start) × IsValid (at r.ty r.end) × (1 ≤ r.step) × (r.step ≤ 2)

step_by-IsValid :
    (t : ChannelType) (fuel start end step : ℕ)
    → 1 ≤ start
    → end ≤ last_number t
    → All IsValid (map (at t) (step_by fuel start end step))
unfolding step_by
step_by-IsValid t zero start end step lo hi = tt
step_by-IsValid t (suc fuel) start end step lo hi =
    let rest = step_by-IsValid t fuel (start + step) end step (omega arith) hi in
    elim (Bool-cases (leb start end)) [
      | inl inside ↦ rw inside ((lo, ground arith), rest)
      | inr past ↦ rw past tt
    ]

iter-IsValid : (r : ChannelRange) → IsRange r → All IsValid (iter r)
unfolding iter
iter-IsValid r (a, b, _, _) = step_by-IsValid r.ty (suc r.end) r.start r.end r.step a.0 b.1

pub iter_all-IsValid : (rs : ChannelRangeList) → All IsRange rs → All IsValid (iter_all rs)
unfolding iter_all
iter_all-IsValid [] h = tt
iter_all-IsValid (r ∷ rs) (hr, hs) =
    All-append IsValid (iter r) (iter_all rs) (iter-IsValid r hr) (iter_all-IsValid rs hs)
