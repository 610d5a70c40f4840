-- ===== src/Args/Loading.antt =====
-- What `ChannelConfig::load` of mcp-server/src/args.rs takes from the .env file.
use mcp_server_allenheath_dl.Prelude.{
  ℕ, ◌≡◌, refl, sym, ap, ◌∙◌, ◌⊎◌, inl, inr, Bool, true, false, List, [], ◌∷◌, Option, none, some,
  Result, ok, err, panic, stuck, Bool-cases, ◌>>=◌,
}
use mcp_server_allenheath_dl.Text.{codes, text_eq, text_eq_sound}
use mcp_server_allenheath_dl.Args.Ranges.{ChannelRangeList, ranges_from_str}
use mcp_server_allenheath_dl.Args.Config.{
  ChannelConfig, Item, keep_inputs, keep_mixes, set_entry, load_items, load,
}

abbrev pub inputs_key : List ℕ
inputs_key = codes "DLIVE_INPUTS"

abbrev pub mixes_key : List ℕ
mixes_key = codes "DLIVE_MIXES"

-- A later value, or else the value of this entry if it has the key.
abbrev later_or : Option (List ℕ) → Bool → List ℕ → Option (List ℕ)
later_or (some later) has_key value = some later
later_or none true value = some value
later_or none false value = none

-- The value of the last entry with a key.
abbrev pub last_value : List ℕ → List Item → Option (List ℕ)
last_value key [] = none
last_value key (ok (k, v) ∷ items) = later_or (last_value key items) (text_eq k key) v
last_value key (_ ∷ items) = last_value key items

-- The list is read from the last value of the key, or was there before and no entry has the key.
abbrev Settles : List ℕ → List Item → Option ChannelRangeList → ChannelRangeList → Type 0
Settles key items before rs =
    ((v : List ℕ) × (last_value key items ≡ some v) × (ranges_from_str v ≡ ok rs))
    ⊎ ((last_value key items ≡ none) × (before ≡ some rs))

-- What one entry does to the list of a key.
abbrev Moves : List ℕ → List ℕ → List ℕ → Option ChannelRangeList → Option ChannelRangeList → Type 0
Moves key k v before after =
    ((text_eq k key ≡ true)
      × ((rs : ChannelRangeList) × (ranges_from_str v ≡ ok rs) × (after ≡ some rs)))
    ⊎ ((text_eq k key ≡ false) × (after ≡ before))

Settles-cons :
    (key k v : List ℕ) (items : List Item) (before after : Option ChannelRangeList)
    (rs : ChannelRangeList)
    → Moves key k v before after
    → Settles key items after rs
    → Settles key (ok (k, v) ∷ items) before rs
Settles-cons key k v items before after rs moves (inl (w, later, read)) =
    inl (w, ap (λ o. later_or o (text_eq k key) v) later, read)
Settles-cons key k v items before after rs (inl (has, (qs, read, now))) (inr (no_later, held)) =
    let same : qs ≡ rs = cc in inl (v, rw (no_later, has) refl, read ∙ ap ok same)
Settles-cons key k v items before after rs (inr (other, kept)) (inr (no_later, held)) =
    inr (rw (no_later, other) refl, sym kept ∙ held)

other_key : (k : List ℕ) → text_eq k inputs_key ≡ true → text_eq k mixes_key ≡ false
other_key k e = rw (text_eq_sound k inputs_key e) refl

pair_injective :
    {a b c d : Option ChannelRangeList}
    → ◌≡◌ {A = Result (Option ChannelRangeList × Option ChannelRangeList)} (ok (a, b)) (ok (c, d))
    → (c ≡ a) × (d ≡ b)
pair_injective e = (cc, cc)

keep_inputs_lem :
    (r : Result ChannelRangeList) (m i' m' : Option ChannelRangeList)
    → keep_inputs r m ≡ ok (i', m')
    → ((rs : ChannelRangeList) × (r ≡ ok rs) × (i' ≡ some rs)) × (m' ≡ m)
keep_inputs_lem (ok rs) m i' m' e =
    let (same_i, same_m) = pair_injective e in ((rs, refl, same_i), same_m)
keep_inputs_lem (err x) m i' m' e = cc
keep_inputs_lem panic m i' m' e = cc
keep_inputs_lem stuck m i' m' e = cc

keep_mixes_lem :
    (r : Result ChannelRangeList) (i i' m' : Option ChannelRangeList)
    → keep_mixes r i ≡ ok (i', m')
    → ((rs : ChannelRangeList) × (r ≡ ok rs) × (m' ≡ some rs)) × (i' ≡ i)
keep_mixes_lem (ok rs) i i' m' e =
    let (same_i, same_m) = pair_injective e in ((rs, refl, same_m), same_i)
keep_mixes_lem (err x) i i' m' e = cc
keep_mixes_lem panic i i' m' e = cc
keep_mixes_lem stuck i i' m' e = cc

set_entry-Moves :
    (k v : List ℕ) (i m i' m' : Option ChannelRangeList)
    → set_entry k v (i, m) ≡ ok (i', m')
    → Moves inputs_key k v i i' × Moves mixes_key k v m m'
unfolding set_entry
set_entry-Moves k v i m i' m' e = elim (Bool-cases (text_eq k inputs_key)) [
  | inl is_inputs ↦
      let (found, same) =
        keep_inputs_lem (ranges_from_str v) m i' m' (rw (set_entry, is_inputs) at e) in
      (inl (is_inputs, found), inr (other_key k is_inputs, same))
  | inr not_inputs ↦ elim (Bool-cases (text_eq k mixes_key)) [
    | inl is_mixes ↦
        let (found, same) =
          keep_mixes_lem (ranges_from_str v) i i' m' (rw (set_entry, not_inputs, is_mixes) at e) in
        (inr (not_inputs, same), inl (is_mixes, found))
    | inr not_mixes ↦
        let (same_i, same_m) = pair_injective (rw (set_entry, not_inputs, not_mixes) at e) in
        (inr (not_inputs, same_i), inr (not_mixes, same_m))
  ]
]

config_injective : (c d : ChannelConfig) → ◌≡◌ {A = Result ChannelConfig} (ok c) (ok d) → c ≡ d
config_injective c d e = cc

settled :
    (key : List ℕ) (items : List Item) (rs : ChannelRangeList)
    → Settles key items none rs
    → (v : List ℕ) × (last_value key items ≡ some v) × (ranges_from_str v ≡ ok rs)
settled key items rs (inl found) = found
settled key items rs (inr (_, held)) = cc

after_entry :
    (k v : List ℕ) (items : List Item) (i m : Option ChannelRangeList) (config : ChannelConfig)
    (r : Result (Option ChannelRangeList × Option ChannelRangeList))
    → set_entry k v (i, m) ≡ r
    → ((i' m' : Option ChannelRangeList)
        → load_items items (i', m') ≡ ok config
        → Settles inputs_key items i' config.inputs × Settles mixes_key items m' config.mixes)
    → (r >>= λ so_far. load_items items so_far) ≡ ok config
    → Settles inputs_key (ok (k, v) ∷ items) i config.inputs
      × Settles mixes_key (ok (k, v) ∷ items) m config.mixes
after_entry k v items i m config (ok (i', m')) set rest e =
    let (moves_i, moves_m) = set_entry-Moves k v i m i' m' set in
    let (settles_i, settles_m) = rest i' m' e in
    (
      Settles-cons inputs_key k v items i i' config.inputs moves_i settles_i,
      Settles-cons mixes_key k v items m m' config.mixes moves_m settles_m,
    )
after_entry k v items i m config (err x) set rest e = cc
after_entry k v items i m config panic set rest e = cc
after_entry k v items i m config stuck set rest e = cc

load_items-Settles :
    (items : List Item) (i m : Option ChannelRangeList) (config : ChannelConfig)
    → load_items items (i, m) ≡ ok config
    → Settles inputs_key items i config.inputs × Settles mixes_key items m config.mixes
unfolding load_items
load_items-Settles [] none m config e = cc
load_items-Settles [] (some i) none config e = cc
load_items-Settles [] (some i) (some m) config e =
    let same = config_injective (record { inputs = i; mixes = m }) config e in
    (
      inr (refl, ap (λ (c : ChannelConfig). some c.inputs) same),
      inr (refl, ap (λ (c : ChannelConfig). some c.mixes) same),
    )
load_items-Settles (err x ∷ items) i m config e = cc
load_items-Settles (panic ∷ items) i m config e = cc
load_items-Settles (stuck ∷ items) i m config e = cc
load_items-Settles (ok (k, v) ∷ items) i m config e =
    after_entry k v items i m config (set_entry k v (i, m)) refl
      (λ i' m'. load_items-Settles items i' m' config) e

-- If the configuration is loaded, each of its two lists is read from the value of the last entry of the
-- file that has its key.
pub load-last_value :
    (items : List Item) (config : ChannelConfig)
    → load (ok items) ≡ ok config
    → ((v : List ℕ) × (last_value inputs_key items ≡ some v)
        × (ranges_from_str v ≡ ok config.inputs))
      × ((v : List ℕ) × (last_value mixes_key items ≡ some v)
          × (ranges_from_str v ≡ ok config.mixes))
unfolding load
load-last_value items config e =
    let (inputs, mixes) = load_items-Settles items none none config e in
    (settled inputs_key items config.inputs inputs, settled mixes_key items config.mixes mixes)
