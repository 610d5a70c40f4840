-- ===== src/Handler/History.antt =====
-- What the handler of mcp-server/src/handler.rs has been through: tools that ran, one after the other
-- since the state is locked, and configurations that were loaded in between.
use mcp_server_allenheath_dl.Prelude.{◌≡◌, refl, inl, inr, true, List, ok, length, Holds}
use mcp_server_allenheath_dl.Prelude.Hoare.{Post-Holds}
use mcp_server_allenheath_dl.Channels.{Channel}
use mcp_server_allenheath_dl.Channels.Names.{ChannelName}
use mcp_server_allenheath_dl.Levels.{F32}
use mcp_server_allenheath_dl.Args.Ranges.{iter_all}
use mcp_server_allenheath_dl.Handler.{
  ChannelDetails, Watch, Calls, State, new, list_inputs, list_mixes,
}
use mcp_server_allenheath_dl.Handler.Kept.{IsWatch, internals, Fresh}
use mcp_server_allenheath_dl.Handler.Lists.{Inv, Pre, Runs-list_inputs, Runs-list_mixes}
use mcp_server_allenheath_dl.Handler.Fresh.{anywhere}
use mcp_server_allenheath_dl.Handler.Tools.{ToolRequest, run_tool}
use mcp_server_allenheath_dl.Handler.Confined.{run_tool-Settled}

module _ (watch : Watch) {W : Type 0} (calls : Calls W) (f : F32) where
  -- A tool runs, whether it answers or fails; a configuration is loaded, which the receiver has not
  -- seen; or something happens in the client's world.
  pub data Step : State watch × W → State watch × W → Type 0 where
    tool :
        (r : ToolRequest f) (st : State watch) (w : W)
        → Step (st, w) (run_tool watch calls f r (st, w)).1
    reload :
        (st : State watch) (w : W) (rx : watch.Receiver)
        → watch.has_changed rx ≡ ok true
        → Step (st, w) (record st { config_rx = rx }, w)
    elsewhere : (st : State watch) (w w' : W) → Step (st, w) (st, w')

  pub data Reached : State watch × W → Type 0 where
    started : (rx : watch.Receiver) (w : W) → Reached (new watch rx, w)
    onward : {s s' : State watch × W} → Reached s → Step s s' → Reached s'

-- The channels of a list of details, in their order.
abbrev pub ListsAll : List Channel → List ChannelDetails → Type 0
ListsAll cs ds = internals ds ≡ cs

module _ (watch : Watch) (laws : IsWatch watch) {W : Type 0} (calls : Calls W) (f : F32)
    (full : (cs : List Channel) (ns : List ChannelName) (w : W)
      → (calls.channel_names cs w).0 ≡ ok ns
      → length ns ≡ length cs) where
  Step-Fresh :
      (s s' : State watch × W) → Step watch calls f s s' → Fresh watch s.0 → Fresh watch s'.0
  Step-Fresh s s' (tool r st w) h =
      inr
        (run_tool-Settled watch laws calls (watch.borrow st.config_rx) (λ w. Unit)
          (anywhere calls full (watch.borrow st.config_rx)) f r st w refl h tt).1
  Step-Fresh s s' (reload st w rx seen) h = inl (rw seen refl)
  Step-Fresh s s' (elsewhere st w w') h = h

  Reached-Fresh : (s : State watch × W) → Reached watch calls f s → Fresh watch s.0
  Reached-Fresh s (started rx w) = inr (inl refl, inl refl)
  Reached-Fresh s (onward {s = t} before last) = Step-Fresh t s last (Reached-Fresh t before)

  -- Both lists, in a state where what is kept is fresh.
  pub lists-Fresh :
      (st : State watch) (w : W)
      → Fresh watch st
      → Holds
          (ListsAll (iter_all (watch.borrow st.config_rx).inputs))
          (list_inputs watch calls (st, w)).0
        × Holds
            (ListsAll (iter_all (watch.borrow st.config_rx).mixes))
            (list_mixes watch calls (st, w)).0
  lists-Fresh st w h =
      let config = watch.borrow st.config_rx in
      let I = Inv watch calls config (λ w'. Unit) in
      let start : Pre watch calls config (λ w'. Unit) (st, w) = (refl, h, tt) in
      let none = anywhere calls full config in
      (
        Post-Holds (λ ds s'. I s' × ListsAll (iter_all config.inputs) ds) I
            (ListsAll (iter_all config.inputs)) (list_inputs watch calls (st, w)) (λ ds s p. p.1)
            (Runs-list_inputs watch laws calls config (λ w'. Unit) none (st, w) start),
        Post-Holds (λ ds s'. I s' × ListsAll (iter_all config.mixes) ds) I
            (ListsAll (iter_all config.mixes)) (list_mixes watch calls (st, w)) (λ ds s p. p.1)
            (Runs-list_mixes watch laws calls config (λ w'. Unit) none (st, w) start),
      )

  -- If a call of `channel_names` that succeeds has one name for each channel, then in every state that
  -- a new handler reaches by tools that run, answering or failing, and by configurations that are
  -- loaded, a list of inputs that `list_inputs` returns, and a list of mixes that `list_mixes`
  -- returns, is that of the configuration that the receiver holds then.
  pub Reached-iter_all :
      (st : State watch) (w : W)
      → Reached watch calls f (st, w)
      → Holds
          (ListsAll (iter_all (watch.borrow st.config_rx).inputs))
          (list_inputs watch calls (st, w)).0
        × Holds
            (ListsAll (iter_all (watch.borrow st.config_rx).mixes))
            (list_mixes watch calls (st, w)).0
  Reached-iter_all st w h = lists-Fresh st w (Reached-Fresh (st, w) h)
