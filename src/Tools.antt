-- ===== src/Tools.antt =====
-- The command line tools: fake-dlive/src/bin/scrape-channel-names.rs, which writes the names of a desk
-- to the file that fake-dlive starts on, and lib/src/bin/inspect-dlive.rs, which asks a desk for the
-- names and colours of its inputs. Files and the screen are left out.
pub mod Scraped
pub mod Inspected
pub mod Inspector
use mcp_server_allenheath_dl.Prelude.{ℕ, zero, suc, ◌+◌, List, [], ◌∷◌, ◌++◌, map, ok}
use mcp_server_allenheath_dl.Prelude.Exec.{Exec, lift, ◌>>=◌, ◌>>◌}
use mcp_server_allenheath_dl.Channels.{ChannelType, Channel, input, mono_aux, stereo_aux}
use mcp_server_allenheath_dl.Channels.Names.{ChannelName}
use mcp_server_allenheath_dl.Messages.{Message, get_channel_name, get_channel_colour}
use mcp_server_allenheath_dl.FakeDlive.{Map}
use mcp_server_allenheath_dl.Handler.{Calls}

-- `first..=last` of the items that are left.
abbrev pub count_from : ℕ → ℕ → List ℕ
count_from zero first = []
count_from (suc n) first = first ∷ count_from n (first + 1)

-- `ns.map(move |n| Channel(t, n))`
abbrev pub numbers_of : ChannelType → ℕ → List Channel
numbers_of t last = map (λ n. record { ty = t; number = n }) (count_from last 1)

abbrev pub scraped_channels : List Channel
scraped_channels = numbers_of input 128 ++ numbers_of mono_aux 10 ++ numbers_of stereo_aux 12

-- `channels.into_iter().zip(names)`
abbrev pub zip_names : List Channel → List ChannelName → Map Channel ChannelName
zip_names [] names = []
zip_names (c ∷ channels) [] = []
zip_names (c ∷ channels) (n ∷ names) = (c, n) ∷ zip_names channels names

unfoldable scrape_channels :
    {W : Type 0} → Calls W → List Channel → Exec W (Map Channel ChannelName)
scrape_channels calls channels = do
  calls.new
  names ← calls.channel_names channels
  lift (ok (zip_names channels names))

-- `main` of scrape-channel-names.rs
unfoldable pub scrape_channel_names : {W : Type 0} → Calls W → Exec W (Map Channel ChannelName)
unfolding scrape_channels
scrape_channel_names calls = scrape_channels calls scraped_channels

-- The requests of inspect-dlive.rs for the inputs.
abbrev pub inspect_input : List Channel → List Message
inspect_input [] = []
inspect_input (c ∷ channels) = get_channel_name c ∷ get_channel_colour c ∷ inspect_input channels

abbrev pub inspect_requests : List Message
inspect_requests = inspect_input (numbers_of input 128)
