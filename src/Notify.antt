-- ===== src/Notify.antt =====
-- `notify_on_config_change` of mcp-server/src/handler.rs: a task that tells a peer what a new
-- configuration adds and removes. The peer is the rmcp crate's, so `notify` is a parameter, with a
-- state of its own; a task runs on the configurations that `changed` makes it see, up to the end of
-- the watch channel.
pub mod Parts
pub mod Tracked
use mcp_server_allenheath_dl.Prelude.{ℕ, Bool, List, [], ◌∷◌, ◌++◌, map, Result, ok, err}
use mcp_server_allenheath_dl.Prelude.Exec.{Exec, ◌>>=◌, ◌>>◌}
use mcp_server_allenheath_dl.Text.{codes}
use mcp_server_allenheath_dl.Channels.{Channel}
use mcp_server_allenheath_dl.Channels.Text.{show_channel}
use mcp_server_allenheath_dl.ChannelSet.{ChannelSet, to_set, difference}
use mcp_server_allenheath_dl.Args.Ranges.{iter_all}
use mcp_server_allenheath_dl.Args.Config.{ChannelConfig}

-- `prev_inputs` and `prev_mixes`, or the new ones.
pub record Sets : Type 0 where
  pub inputs : ChannelSet
  pub mixes : ChannelSet

-- `config.inputs.iter().collect()`, and the same of the mixes.
unfoldable pub sets_of : ChannelConfig → Sets
unfolding to_set iter_all
sets_of config = record {
  inputs = to_set (iter_all config.inputs);
  mixes = to_set (iter_all config.mixes);
}

-- The four lists, before they are turned to text.
pub record Changes : Type 0 where
  pub added_inputs : List Channel
  pub removed_inputs : List Channel
  pub added_mixes : List Channel
  pub removed_mixes : List Channel

unfoldable pub changes : Sets → Sets → Changes
unfolding difference
changes prev next = record {
  added_inputs = difference next.inputs prev.inputs;
  removed_inputs = difference prev.inputs next.inputs;
  added_mixes = difference next.mixes prev.mixes;
  removed_mixes = difference prev.mixes next.mixes;
}

-- `join`
abbrev join_rest : List ℕ → List (List ℕ) → List ℕ
join_rest sep [] = []
join_rest sep (t ∷ ts) = sep ++ t ++ join_rest sep ts

abbrev join : List ℕ → List (List ℕ) → List ℕ
join sep [] = []
join sep (t ∷ ts) = t ++ join_rest sep ts

-- `if !list.is_empty() { parts.push(..) }`
abbrev pub part : List ℕ → List Channel → List (List ℕ)
part label [] = []
part label (c ∷ cs) = (label ++ join (codes ", ") (map show_channel (c ∷ cs))) ∷ []

unfoldable pub parts : Changes → List (List ℕ)
unfolding show_channel
parts d =
    part (codes "inputs added: ") d.added_inputs
    ++ part (codes "inputs removed: ") d.removed_inputs
    ++ part (codes "mixes added: ") d.added_mixes
    ++ part (codes "mixes removed: ") d.removed_mixes

abbrev pub no_changes : List ℕ
no_changes = codes "Channel config reloaded (no changes to channel lists)"

-- `parts.is_empty()`
abbrev pub message_of : List (List ℕ) → List ℕ
message_of [] = no_changes
message_of (p ∷ ps) = codes "Channel config reloaded: " ++ join (codes "; ") (p ∷ ps)

unfoldable pub message : Changes → List ℕ
unfolding parts
message d = message_of (parts d)

module _ {W : Type 0} (notify : List ℕ → Exec W (Unit {0})) where
  -- A round of the loop; an error of the peer leaves the loop before the sets are replaced.
  unfoldable pub notify_round : ChannelConfig → Exec (Sets × W) (Unit {0})
  unfolding sets_of changes message
  notify_round config (prev, w) =
      let next = sets_of config in
      ((λ (p, v). let (r, v') = notify (message (changes prev next)) v in (r, (p, v'))) >> λ (p, v).
      (ok tt, (next, v)))
        (prev, w)

  unfoldable pub notify_loop : List ChannelConfig → Exec (Sets × W) (Unit {0})
  unfolding notify_round
  notify_loop [] s = (ok tt, s)
  notify_loop (config ∷ configs) s = (notify_round config >> notify_loop configs) s

  -- The task ends with the watch channel, or (an `err`) with a peer that cannot be told.
  unfoldable pub notify_on_config_change :
      ChannelConfig → List ChannelConfig → W → Result (Unit {0}) × (Sets × W)
  unfolding sets_of notify_loop
  notify_on_config_change initial configs w = notify_loop configs (sets_of initial, w)
