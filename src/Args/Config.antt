-- ===== src/Args/Config.antt =====
-- `ChannelConfig` of mcp-server/src/args.rs. The entries of the .env file come from the dotenvy crate.
use mcp_server_allenheath_dl.Prelude.{
  ℕ, List, [], ◌∷◌, Option, none, some, Result, ok, ok_or, inputs_not_set, mixes_not_set, ◌>>=◌,
  if◌then◌else◌,
}
use mcp_server_allenheath_dl.Text.{codes, text_eq}
use mcp_server_allenheath_dl.Args.Ranges.{ChannelRangeList, ranges_from_str}

pub record ChannelConfig : Type 0 where
  pub inputs : ChannelRangeList
  pub mixes : ChannelRangeList

-- An entry of the file, a key and a value, or an entry that is not one.
abbrev pub Item : Type 0
Item = Result (List ℕ × List ℕ)

-- `inputs = Some(value.parse()?)`, and the same of the mixes.
abbrev pub keep_inputs :
    Result ChannelRangeList
    → Option ChannelRangeList
    → Result (Option ChannelRangeList × Option ChannelRangeList)
keep_inputs parsed mixes = parsed >>= λ rs. ok (some rs, mixes)

abbrev pub keep_mixes :
    Result ChannelRangeList
    → Option ChannelRangeList
    → Result (Option ChannelRangeList × Option ChannelRangeList)
keep_mixes parsed inputs = parsed >>= λ rs. ok (inputs, some rs)

-- `match key.as_str()`: the two lists that `load` has so far.
unfoldable pub set_entry :
    List ℕ
    → List ℕ
    → Option ChannelRangeList × Option ChannelRangeList
    → Result (Option ChannelRangeList × Option ChannelRangeList)
unfolding ranges_from_str
set_entry key value (inputs, mixes) =
    if text_eq key (codes "DLIVE_INPUTS")
    then keep_inputs (ranges_from_str value) mixes
    else if text_eq key (codes "DLIVE_MIXES")
    then keep_mixes (ranges_from_str value) inputs
    else ok (inputs, mixes)

unfoldable pub load_items :
    List Item → Option ChannelRangeList × Option ChannelRangeList → Result ChannelConfig
unfolding set_entry
load_items [] (inputs, mixes) = do
  inputs ← ok_or inputs inputs_not_set
  mixes ← ok_or mixes mixes_not_set
  ok (record { inputs = inputs; mixes = mixes })
load_items (item ∷ items) so_far = do
  (key, value) ← item
  so_far ← set_entry key value so_far
  load_items items so_far

-- `ChannelConfig::load`, on what `dotenv_iter` gives.
unfoldable pub load : Result (List Item) → Result ChannelConfig
unfolding load_items
load entries = entries >>= λ items. load_items items (none, none)
