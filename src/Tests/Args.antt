-- ===== src/Tests/Args.antt =====
-- The tests of mcp-server/src/args.rs, and the theorems on ranges at concrete inputs.
use mcp_server_allenheath_dl.Prelude.{
  ℕ, ◌+◌, ◌*◌, ◌≡◌, refl, inl, inr, List, [], ◌∷◌, some, none, ok, arith, All, get_elem?, leb,
  if◌then◌else◌,
}
use mcp_server_allenheath_dl.Text.{codes}
use mcp_server_allenheath_dl.Channels.{ChannelType, input, mono_aux, dca, IsValid}
use mcp_server_allenheath_dl.Args.Ranges.{
  ChannelRange, ChannelRangeList, at, iter, iter_all, ranges_from_str, show_ranges,
}
use mcp_server_allenheath_dl.Args.Config.{ChannelConfig, Item, load}
use mcp_server_allenheath_dl.Args.Loading.{inputs_key, mixes_key, last_value, load-last_value}
use mcp_server_allenheath_dl.Args.Iter.{iter_lem}
use mcp_server_allenheath_dl.Args.Reading.{IsShown, iter_all-ranges_from_str}
use mcp_server_allenheath_dl.Args.Commas.{ranges_from_str-show_ranges}

abbrev range : ChannelType → ℕ → ℕ → ℕ → ChannelRange
range t a b step = record { ty = t; start = a; end = b; step = step }

abbrev listed : ChannelRangeList
listed = range input 49 68 1 ∷ range input 69 85 2 ∷ range input 123 123 1 ∷ []

abbrev text : List ℕ
text = codes "DCA16-20,Ip49-68,StIp69-85,Ip123"

parse_channel_range_list : ranges_from_str text ≡ ok (range dca 16 20 1 ∷ listed)
unfolding ranges_from_str
parse_channel_range_list = refl

iter_lem_example :
    get_elem? (iter (range input 69 85 2)) 8
    ≡ (if leb (69 + 8 * 2) 85 then some (at input (69 + 8 * 2)) else none)
iter_lem_example = iter_lem (range input 69 85 2) 8 (omega arith)

iter_all-ranges_from_str_example : All IsValid (iter_all (range dca 16 20 1 ∷ listed))
iter_all-ranges_from_str_example =
    iter_all-ranges_from_str text (range dca 16 20 1 ∷ listed) parse_channel_range_list

dca-IsShown : IsShown (range dca 16 20 1)
dca-IsShown = (omega arith, refl, inl refl)

first-IsShown : IsShown (range input 49 68 1)
first-IsShown = (omega arith, refl, inl refl)

second-IsShown : IsShown (range input 69 85 2)
second-IsShown = (omega arith, refl, inr (refl, refl))

third-IsShown : IsShown (range input 123 123 1)
third-IsShown = (omega arith, refl, inl refl)

ranges_from_str-show_ranges_example :
    ranges_from_str (show_ranges (range dca 16 20 1 ∷ listed)) ≡ ok (range dca 16 20 1 ∷ listed)
ranges_from_str-show_ranges_example =
    ranges_from_str-show_ranges (range dca 16 20 1) listed
      (dca-IsShown, (first-IsShown, (second-IsShown, (third-IsShown, tt))))

-- An entry that is set twice, and one that is not for the program.
abbrev entries : List Item
entries =
    ok (codes "DLIVE_INPUTS", codes "Ip1-2")
    ∷ ok (codes "DLIVE_IP", codes "10.0.0.1")
    ∷ ok (codes "DLIVE_MIXES", codes "Aux3-7")
    ∷ ok (codes "DLIVE_INPUTS", codes "Ip3-7")
    ∷ []

abbrev loaded : ChannelConfig
loaded = record { inputs = range input 3 7 1 ∷ []; mixes = range mono_aux 3 7 1 ∷ [] }

entries-loaded : load (ok entries) ≡ ok loaded
unfolding load
entries-loaded = refl

load-last_value_example :
    ((v : List ℕ) × (last_value inputs_key entries ≡ some v)
      × (ranges_from_str v ≡ ok loaded.inputs))
    × ((v : List ℕ) × (last_value mixes_key entries ≡ some v)
        × (ranges_from_str v ≡ ok loaded.mixes))
load-last_value_example = load-last_value entries loaded entries-loaded
