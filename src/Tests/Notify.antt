-- ===== src/Tests/Notify.antt =====
-- The theorems on the notifications of mcp-server/src/handler.rs and on the signals of
-- mcp-server/src/main.rs at concrete configurations.
use mcp_server_allenheath_dl.Prelude.{
  ℕ, ◌≡◌, refl, Bool, List, [], ◌∷◌, none, ok, err, mixes_not_set, length, ltb,
}
use mcp_server_allenheath_dl.Text.{codes}
use mcp_server_allenheath_dl.Channels.{input, mono_aux}
use mcp_server_allenheath_dl.Args.Ranges.{iter_all}
use mcp_server_allenheath_dl.Args.Config.{ChannelConfig, Item, load}
use mcp_server_allenheath_dl.Notify.{sets_of, changes, message, no_changes}
use mcp_server_allenheath_dl.Server.{Args, WatchSender, IsWatchSender}

-- The inputs 1 to 4, in one range and in two; and 3 to 6.
abbrev pub one_range : ChannelConfig
one_range = record {
  inputs = record { ty = input; start = 1; end = 4; step = 1 } ∷ [];
  mixes = record { ty = mono_aux; start = 1; end = 2; step = 1 } ∷ [];
}

abbrev two_ranges : ChannelConfig
two_ranges = record {
  inputs =
      record { ty = input; start = 2; end = 4; step = 1 }
      ∷ record { ty = input; start = 1; end = 2; step = 1 }
      ∷ [];
  mixes = record { ty = mono_aux; start = 1; end = 2; step = 1 } ∷ [];
}

abbrev pub moved : ChannelConfig
moved = record {
  inputs = record { ty = input; start = 3; end = 6; step = 1 } ∷ [];
  mixes = record { ty = mono_aux; start = 1; end = 2; step = 1 } ∷ [];
}

same_told : message (changes (sets_of one_range) (sets_of two_ranges)) ≡ no_changes
unfolding message iter_all sets_of changes
same_told = refl

moved_told :
    message (changes (sets_of one_range) (sets_of moved))
    ≡ codes "Channel config reloaded: inputs added: Ip5, Ip6; inputs removed: Ip1, Ip2"
unfolding message iter_all sets_of changes
moved_told = refl

-- A peer that is gone after one message.
abbrev one_message : List (List ℕ) → Bool
one_message log = ltb (length log) 1

-- The sender is its value.
abbrev plain_sender : WatchSender
plain_sender = record {
  Sender = ChannelConfig;
  channel = λ c. c;
  send_replace = λ c s. c;
  value = λ s. s;
}

plain_sender-IsWatchSender : IsWatchSender plain_sender
plain_sender-IsWatchSender = record { value-channel = λ c. refl; value-send_replace = λ c s. refl }

abbrev some_args : Args
some_args = record { token = none; ip = 0; inputs = one_range.inputs; mixes = one_range.mixes }

abbrev pub file_of_moved : List Item
file_of_moved =
    ok (codes "DLIVE_INPUTS", codes "Ip3-6") ∷ ok (codes "DLIVE_MIXES", codes "Aux1-2") ∷ []

moved-loaded : load (ok file_of_moved) ≡ ok moved
unfolding load
moved-loaded = refl

-- A file without mixes, and one that is gone.
without_mixes : load (ok (ok (codes "DLIVE_INPUTS", codes "Ip3-6") ∷ [])) ≡ err mixes_not_set
unfolding load
without_mixes = refl
