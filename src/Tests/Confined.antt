-- ===== src/Tests/Confined.antt =====
-- What the tools of mcp-server/src/handler.rs keep, at concrete calls.
use mcp_server_allenheath_dl.Prelude.{
  Holds, ◌≡◌, ◌⊎◌, All, refl, inl, inr, true, false, List, [], ◌∷◌, ok, map, length,
}
use mcp_server_allenheath_dl.Channels.{Channel, input, mono_aux}
use mcp_server_allenheath_dl.Channels.Names.{ChannelName}
use mcp_server_allenheath_dl.Args.Ranges.{iter_all}
use mcp_server_allenheath_dl.Args.Config.{ChannelConfig}
use mcp_server_allenheath_dl.Handler.{Calls, State, list_inputs, list_mixes}
use mcp_server_allenheath_dl.Handler.Kept.{Settled}
use mcp_server_allenheath_dl.Handler.Lists.{IsOneOf, IsConfined}
use mcp_server_allenheath_dl.Handler.Confined.{run_tool-Settled}
use mcp_server_allenheath_dl.Handler.History.{
  Reached, started, onward, tool, reload, ListsAll, Reached-iter_all,
}
use mcp_server_allenheath_dl.Handler.Tools.{
  run_tool, adjust_input_level_request, get_mix_level_request,
}
use mcp_server_allenheath_dl.Tests.Handler.{
  name_for, length-names, config, first, first-Fresh, at_zero, whole, louder, name4, name2,
  pair_watch, pair_watch-IsWatch, one_level, one_level_full,
}

-- A client that keeps the channels it has asked about.
abbrev asking : Calls (List Channel)
asking = record {
  new = λ w. (ok tt, w);
  channel_names = λ cs w. (ok (map name_for cs), w);
  send_level = λ c d w. (ok at_zero, c ∷ d ∷ w);
  set_send_level = λ c d level w. (ok tt, c ∷ d ∷ w);
  fader_level = λ c w. (ok at_zero, c ∷ w);
  set_fader_level = λ c level w. (ok tt, c ∷ w);
}

abbrev IsConfigured : Channel → Type 0
IsConfigured c = IsOneOf (iter_all config.inputs) c ⊎ IsOneOf (iter_all config.mixes) c

asking_full :
    (cs : List Channel) (ns : List ChannelName) (w : List Channel)
    → (asking.channel_names cs w).0 ≡ ok ns
    → length ns ≡ length cs
asking_full cs ns w e = let same : map name_for cs ≡ ns = cc in rw same at (length-names cs)

asking-IsConfined : IsConfined asking config (λ asked. All IsConfigured asked)
asking-IsConfined = record {
  new_keeps = λ w v. v;
  names_keep = λ cs w h v. v;
  names_full = asking_full;
  send_level_keeps = λ c d w h k v. (inl h, (inr k, v));
  set_send_level_keeps = λ c d l w h k v. (inl h, (inr k, v));
  fader_level_keeps = λ d w h v. (inr h, v);
  set_fader_level_keeps = λ d l w h v. (inr h, v);
}

asked_twice :
    (run_tool pair_watch asking whole
      (adjust_input_level_request name4 name2 louder)
      (first, [])).1.1
    ≡ record { ty = input; number = 4 }
      ∷ record { ty = mono_aux; number = 2 }
      ∷ record { ty = input; number = 4 }
      ∷ record { ty = mono_aux; number = 2 }
      ∷ []
unfolding run_tool iter_all
asked_twice = refl

run_tool-Settled_example :
    let after =
      (run_tool pair_watch asking whole
        (adjust_input_level_request name4 name2 louder)
        (first, [])).1 in
    (pair_watch.borrow after.0.config_rx ≡ config)
    × Settled pair_watch after.0
    × All IsConfigured after.1
run_tool-Settled_example =
    run_tool-Settled pair_watch pair_watch-IsWatch asking config (λ asked. All IsConfigured asked)
      asking-IsConfined whole (adjust_input_level_request name4 name2 louder) first [] refl
      first-Fresh tt

-- A tool fills the lists, and then another configuration is loaded.
abbrev other_config : ChannelConfig
other_config = record {
  inputs = record { ty = input; start = 8; end = 9; step = 1 } ∷ [];
  mixes = [];
}

abbrev later : State pair_watch
later = record {
  config_rx = (true, other_config);
  client = true;
  inputs = [];
  mixes =
      record { internal = record { ty = mono_aux; number = 1 }; name = record { bytes = 1 ∷ [] } }
      ∷ record { internal = record { ty = mono_aux; number = 2 }; name = name2 }
      ∷ [];
}

later-Reached : Reached pair_watch one_level whole (later, at_zero)
unfolding run_tool iter_all
later-Reached =
    onward
      (onward (started (false, config) at_zero) (tool (get_mix_level_request name2) first at_zero))
      (reload (record later { config_rx = (false, config) }) at_zero (true, other_config) refl)

Reached-iter_all_example :
    Holds
      (ListsAll (iter_all other_config.inputs))
      (list_inputs pair_watch one_level (later, at_zero)).0
    × Holds
        (ListsAll (iter_all other_config.mixes))
        (list_mixes pair_watch one_level (later, at_zero)).0
Reached-iter_all_example =
    Reached-iter_all pair_watch pair_watch-IsWatch one_level whole one_level_full later at_zero
      later-Reached
