-- ===== src/Handler/Fresh.antt =====
-- `list_inputs` of mcp-server/src/handler.rs gives the channels of the present configuration.
use mcp_server_allenheath_dl.Prelude.{◌≡◌, refl, List, ok, length}
use mcp_server_allenheath_dl.Prelude.Hoare.{Post-ok}
use mcp_server_allenheath_dl.Channels.{Channel}
use mcp_server_allenheath_dl.Channels.Names.{ChannelName}
use mcp_server_allenheath_dl.Args.Ranges.{iter_all}
use mcp_server_allenheath_dl.Args.Config.{ChannelConfig}
use mcp_server_allenheath_dl.Handler.{ChannelDetails, Watch, Calls, State, list_inputs}
use mcp_server_allenheath_dl.Handler.Kept.{IsWatch, internals, Fresh}
use mcp_server_allenheath_dl.Handler.Lists.{IsConfined, Inv, Runs-list_inputs}

module _ {W : Type 0} (calls : Calls W)
    (full : (cs : List Channel) (ns : List ChannelName) (w : W)
      → (calls.channel_names cs w).0 ≡ ok ns
      → length ns ≡ length cs) where
  -- Nothing is asked of the client's world.
  pub anywhere : (config : ChannelConfig) → IsConfined calls config (λ w. Unit)
  anywhere config = record {
    new_keeps = λ w v. tt;
    names_keep = λ cs w h v. tt;
    names_full = full;
    send_level_keeps = λ c d w h k v. tt;
    set_send_level_keeps = λ c d l w h k v. tt;
    fader_level_keeps = λ d w h v. tt;
    set_fader_level_keeps = λ d l w h v. tt;
  }

  module _ (watch : Watch) (laws : IsWatch watch) where
    -- If the kept lists are fresh, and a call of `channel_names` that succeeds has one name for each
    -- channel, then the inputs that `list_inputs` returns are the channels of the configuration that
    -- its receiver holds, in their order.
    list_inputs-iter_all :
        (st : State watch) (w : W) (ds : List ChannelDetails)
        → Fresh watch st
        → (list_inputs watch calls (st, w)).0 ≡ ok ds
        → internals ds ≡ iter_all (watch.borrow st.config_rx).inputs
    list_inputs-iter_all st w ds h e =
        let config = watch.borrow st.config_rx in
        (Post-ok
          (λ ds' s'.
            Inv watch calls config (λ w'. Unit) s' × (internals ds' ≡ iter_all config.inputs))
          (Inv watch calls config (λ w'. Unit)) (list_inputs watch calls (st, w)) ds
          (Runs-list_inputs watch laws calls config (λ w'. Unit) (anywhere config) (st, w)
            (refl, h, tt))
          e).1
