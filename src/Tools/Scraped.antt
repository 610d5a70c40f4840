-- ===== src/Tools/Scraped.antt =====
-- The names that scrape-channel-names.rs writes make the same desk again.
use mcp_server_allenheath_dl.Prelude.{
  ◌≡◌, refl, sym, ap, ◌∙◌, Bool-cases, inl, inr, List, [], ◌∷◌, map, All, some, ok,
}
use mathlib.Core.Path.{subst}
use mcp_server_allenheath_dl.Prelude.Hoare.{resume-ok}
use mcp_server_allenheath_dl.Channels.{Channel, channel_eq}
use mcp_server_allenheath_dl.Channels.Equality.{channel_eq_refl, channel_eq_sound}
use mcp_server_allenheath_dl.Channels.Names.{ChannelName}
use mcp_server_allenheath_dl.FakeDlive.{Map, get, initial, name_of}
use mcp_server_allenheath_dl.Handler.{Calls}
use mcp_server_allenheath_dl.Tools.{
  scraped_channels, zip_names, scrape_channels, scrape_channel_names,
}

-- What the tool needs of the client: where a connection to a desk with these names is, a call of
-- `channel_names` that succeeds gives one name for each channel, in their order, which is the desk's.
-- That the call succeeds is not asked.
pub record TellsNames {W : Type 0} (calls : Calls W) (names : Channel → ChannelName)
    (IsConnected : W → Type 0) : Type 0 where
  pub new_kept : (w : W) → IsConnected w → IsConnected (calls.new w).1
  pub told :
      (cs : List Channel) (ns : List ChannelName) (w : W)
      → IsConnected w
      → (calls.channel_names cs w).0 ≡ ok ns
      → ns ≡ map names cs

module _ (names : Channel → ChannelName) where
  -- The entries hold the channel's name.
  abbrev HasName : Map Channel ChannelName → Channel → Type 0
  HasName m c = get channel_eq c m ≡ some (names c)

  HasName-cons :
      (m : Map Channel ChannelName) (c x : Channel) → HasName m x → HasName ((c, names c) ∷ m) x
  HasName-cons m c x found = elim (Bool-cases (channel_eq c x)) [
    | inl same ↦ rw same (ap (λ d. some (names d)) (channel_eq_sound c x same))
    | inr other ↦ rw other found
  ]

  All-HasName-cons :
      (m : Map Channel ChannelName) (c : Channel) (cs : List Channel)
      → All (HasName m) cs
      → All (HasName ((c, names c) ∷ m)) cs
  All-HasName-cons m c [] h = tt
  All-HasName-cons m c (x ∷ cs) (hx, h) = (HasName-cons m c x hx, All-HasName-cons m c cs h)

  zip_names-HasName : (cs : List Channel) → All (HasName (zip_names cs (map names cs))) cs
  zip_names-HasName [] = tt
  zip_names-HasName (c ∷ cs) = (
    rw (channel_eq_refl c) refl,
    All-HasName-cons (zip_names cs (map names cs)) c cs (zip_names-HasName cs),
  )

  initial-HasName :
      (m : Map Channel ChannelName) (cs : List Channel)
      → All (HasName m) cs
      → All (λ c. name_of c (initial m) ≡ ok (names c)) cs
  initial-HasName m [] h = tt
  initial-HasName m (c ∷ cs) (found, h) = (rw (name_of, found) refl, initial-HasName m cs h)

  -- The table of any names is of use if they are the channels' names.
  pub initial-zip_names :
      (cs : List Channel) (ns : List ChannelName) (m : Map Channel ChannelName)
      → ns ≡ map names cs
      → zip_names cs ns ≡ m
      → All (λ c. name_of c (initial m) ≡ ok (names c)) cs
  initial-zip_names cs ns m are_names written =
      let same : zip_names cs (map names cs) ≡ m = ap (zip_names cs) (sym are_names) ∙ written in
      initial-HasName m cs (subst (λ t. All (HasName t) cs) same (zip_names-HasName cs))

-- What has gone well has the names.
scrape_channels-initial :
    {W : Type 0} (calls : Calls W) (names : Channel → ChannelName) (IsConnected : W → Type 0)
    (tells : TellsNames calls names IsConnected) (cs : List Channel) (w : W)
    (m : Map Channel ChannelName)
    → IsConnected w
    → (scrape_channels calls cs w).0 ≡ ok m
    → All (λ c. name_of c (initial m) ≡ ok (names c)) cs
unfolding scrape_channels
scrape_channels-initial calls names IsConnected tells cs w m connected e =
    let (u, w1, opened, e1) = resume-ok _ (calls.new w) m e in
    let (ns, w2, asked, e2) = resume-ok _ (calls.channel_names cs w1) m e1 in
    let there = subst (λ o. IsConnected o.1) opened (tells.new_kept w connected) in
    let are_names = tells.told cs ns w1 there (ap (λ o. o.0) asked) in
    let written : zip_names cs ns ≡ m = cc in initial-zip_names names cs ns m are_names written

-- If a call of `channel_names` that succeeds gives the desk's names in the channels' order, then where
-- the scraper succeeds, a fake desk that is started on the names that it collected has the name of the
-- scraped desk for every channel that the scraper asks about.
pub scrape_channel_names-initial :
    {W : Type 0} (calls : Calls W) (names : Channel → ChannelName) (IsConnected : W → Type 0)
    (tells : TellsNames calls names IsConnected) (w : W) (m : Map Channel ChannelName)
    → IsConnected w
    → (scrape_channel_names calls w).0 ≡ ok m
    → All (λ c. name_of c (initial m) ≡ ok (names c)) scraped_channels
unfolding scrape_channel_names
scrape_channel_names-initial calls names IsConnected tells w m connected e =
    scrape_channels-initial calls names IsConnected tells scraped_channels w m connected e
