-- ===== src/Handler/Confined.antt =====
-- What the tools of mcp-server/src/handler.rs do to the client's world and to the kept lists.
use mcp_server_allenheath_dl.Prelude.{◌≡◌, ok}
use mcp_server_allenheath_dl.Prelude.Exec.{Exec, lift, ◌>>=◌, ◌>>◌}
use mcp_server_allenheath_dl.Prelude.Hoare.{Runs, Runs-bind, Post-state}
use mcp_server_allenheath_dl.Channels.{Channel}
use mcp_server_allenheath_dl.Channels.Names.{ChannelName}
use mcp_server_allenheath_dl.Args.Ranges.{iter_all}
use mcp_server_allenheath_dl.Args.Config.{ChannelConfig}
use mcp_server_allenheath_dl.Messages.{Level}
use mcp_server_allenheath_dl.Levels.{F32, LevelDelta, add_assign}
use mcp_server_allenheath_dl.Handler.{
  Watch, Calls, State, Tool, call, get_client, input_id, mix_id, list_inputs, list_mixes,
}
use mcp_server_allenheath_dl.Handler.Kept.{IsWatch, Fresh, Settled, internals}
use mcp_server_allenheath_dl.Handler.Lists.{
  IsOneOf, IsConfined, Inv, Pre, Inv-Pre, Runs-call, Runs-get_client, Runs-list_inputs,
  Runs-list_mixes,
}
use mcp_server_allenheath_dl.Handler.Lookup.{Runs-input_id, Runs-mix_id}
use mcp_server_allenheath_dl.Handler.Tools.{
  list_inputs_tool, list_mixes_tool, get_input_level, set_input_level, adjust_input_level,
  get_mix_level, set_mix_level, adjust_mix_level, ToolRequest, list_inputs_request,
  list_mixes_request, get_input_level_request, set_input_level_request, adjust_input_level_request,
  get_mix_level_request, set_mix_level_request, adjust_mix_level_request, run_tool,
  input_level_response, mix_level_response,
}

module _ (watch : Watch) (laws : IsWatch watch) {W : Type 0} (calls : Calls W)
    (config : ChannelConfig) (V : W → Type 0) (confined : IsConfined calls config V) where
  abbrev I : State watch × W → Type 0
  I = Inv watch calls config V

  -- From where the lists may be out of date to where they are right.
  abbrev Keeps : {A : Type 0} → Tool watch calls A → Type 0
  Keeps m = Runs (Pre watch calls config V) m (λ a s. I s) I

  -- The tools look the names up, see to the client, and go on with the channels.
  Keeps-on_mix :
      {A : Type 0} (mix : ChannelName) (rest : Channel → Tool watch calls A)
      → ((d : Channel) → IsOneOf (iter_all config.mixes) d → Runs I (rest d) (λ a s. I s) I)
      → Keeps (mix_id watch calls mix >>= λ d. get_client watch calls >> rest d)
  Keeps-on_mix mix rest h =
      Runs-bind (Pre watch calls config V) (λ d s. I s × IsOneOf (iter_all config.mixes) d)
        (λ a s. I s) I (mix_id watch calls mix) _
        (Runs-mix_id watch laws calls config V confined mix)
        (λ d s (inv, one).
          Runs-bind I (λ u s'. I s') (λ a s'. I s') I (get_client watch calls) _
            (Runs-get_client watch laws calls config V confined) (λ u. h d one) s inv)

  Keeps-on_pair :
      {A : Type 0} (input mix : ChannelName) (rest : Channel → Channel → Tool watch calls A)
      → ((c d : Channel)
          → IsOneOf (iter_all config.inputs) c
          → IsOneOf (iter_all config.mixes) d
          → Runs I (rest c d) (λ a s. I s) I)
      → Keeps (
          input_id watch calls input >>= λ c.
          mix_id watch calls mix >>= λ d. get_client watch calls >> rest c d)
  Keeps-on_pair input mix rest h =
      Runs-bind (Pre watch calls config V) (λ c s. I s × IsOneOf (iter_all config.inputs) c)
        (λ a s. I s) I (input_id watch calls input) _
        (Runs-input_id watch laws calls config V confined input)
        (λ c s (inv, one).
          Keeps-on_mix mix (rest c) (λ d other. h c d one other) s
            (Inv-Pre watch calls config V s inv))

  -- A call, and what is done with its answer.
  Runs-then :
      {A B : Type 0} (f : Exec W A) (rest : A → Tool watch calls B)
      → ((w : W) → V w → V (f w).1)
      → ((a : A) → Runs I (rest a) (λ b s. I s) I)
      → Runs I (call watch calls f >>= rest) (λ b s. I s) I
  Runs-then f rest keeps h =
      Runs-bind I (λ a s. I s) (λ b s. I s) I (call watch calls f) rest
        (Runs-call watch calls config V f keeps) h

  -- The answer is put into a response.
  Keeps-answered :
      {A B : Type 0} (m : Tool watch calls A) (g : A → B)
      → Keeps m
      → Keeps (m >>= λ a. lift (ok (g a)))
  Keeps-answered m g h =
      Runs-bind (Pre watch calls config V) (λ a s. I s) (λ b s. I s) I m _ h (λ a s inv. inv)

  module _ (f : F32) where
    Keeps-get_input_level :
        (input mix : ChannelName) → Keeps (get_input_level watch calls input mix)
    unfolding get_input_level
    Keeps-get_input_level input mix = Keeps-on_pair input mix _ (λ c d one other.
        Runs-then (calls.send_level c d) _ (λ w. confined.send_level_keeps c d w one other)
          (λ level s inv. inv))

    Keeps-set_input_level :
        (input mix : ChannelName) (level : Level)
        → Keeps (set_input_level watch calls input mix level)
    unfolding set_input_level
    Keeps-set_input_level input mix level = Keeps-on_pair input mix _ (λ c d one other.
        Runs-then (calls.set_send_level c d level) _
          (λ w. confined.set_send_level_keeps c d level w one other) (λ u s inv. inv))

    Keeps-adjust_input_level :
        (input mix : ChannelName) (delta : LevelDelta f)
        → Keeps (adjust_input_level watch calls f input mix delta)
    unfolding adjust_input_level
    Keeps-adjust_input_level input mix delta = Keeps-on_pair input mix _ (λ c d one other.
        Runs-then (calls.send_level c d) _ (λ w. confined.send_level_keeps c d w one other)
          (λ level.
            let new_level = add_assign f level delta in
            Runs-then (calls.set_send_level c d new_level) _
              (λ w. confined.set_send_level_keeps c d new_level w one other) (λ u s inv. inv)))

    Keeps-get_mix_level : (mix : ChannelName) → Keeps (get_mix_level watch calls mix)
    unfolding get_mix_level
    Keeps-get_mix_level mix = Keeps-on_mix mix _ (λ d one.
        Runs-then (calls.fader_level d) _ (λ w. confined.fader_level_keeps d w one)
          (λ level s inv. inv))

    Keeps-set_mix_level :
        (mix : ChannelName) (level : Level) → Keeps (set_mix_level watch calls mix level)
    unfolding set_mix_level
    Keeps-set_mix_level mix level = Keeps-on_mix mix _ (λ d one.
        Runs-then (calls.set_fader_level d level) _
          (λ w. confined.set_fader_level_keeps d level w one) (λ u s inv. inv))

    Keeps-adjust_mix_level :
        (mix : ChannelName) (delta : LevelDelta f)
        → Keeps (adjust_mix_level watch calls f mix delta)
    unfolding adjust_mix_level
    Keeps-adjust_mix_level mix delta = Keeps-on_mix mix _ (λ d one.
        Runs-then (calls.fader_level d) _ (λ w. confined.fader_level_keeps d w one)
          (λ level.
            let new_level = add_assign f level delta in
            Runs-then (calls.set_fader_level d new_level) _
              (λ w. confined.set_fader_level_keeps d new_level w one) (λ u s inv. inv)))

    Keeps-run_tool : (r : ToolRequest f) → Keeps (run_tool watch calls f r)
    unfolding run_tool list_inputs_tool list_mixes_tool
    Keeps-run_tool list_inputs_request =
        Runs-bind (Pre watch calls config V) (λ ds s. I s × (internals ds ≡ iter_all config.inputs))
          (λ a s. I s) I (list_inputs watch calls) _
          (Runs-list_inputs watch laws calls config V confined) (λ ds s (inv, told). inv)
    Keeps-run_tool list_mixes_request =
        Runs-bind (Pre watch calls config V) (λ ds s. I s × (internals ds ≡ iter_all config.mixes))
          (λ a s. I s) I (list_mixes watch calls) _
          (Runs-list_mixes watch laws calls config V confined) (λ ds s (inv, told). inv)
    Keeps-run_tool (get_input_level_request input mix) =
        Keeps-answered (get_input_level watch calls input mix) input_level_response
          (Keeps-get_input_level input mix)
    Keeps-run_tool (set_input_level_request input mix level) =
        Keeps-answered (set_input_level watch calls input mix level) input_level_response
          (Keeps-set_input_level input mix level)
    Keeps-run_tool (adjust_input_level_request input mix delta) =
        Keeps-answered (adjust_input_level watch calls f input mix delta) input_level_response
          (Keeps-adjust_input_level input mix delta)
    Keeps-run_tool (get_mix_level_request mix) =
        Keeps-answered (get_mix_level watch calls mix) mix_level_response (Keeps-get_mix_level mix)
    Keeps-run_tool (set_mix_level_request mix level) =
        Keeps-answered (set_mix_level watch calls mix level) mix_level_response
          (Keeps-set_mix_level mix level)
    Keeps-run_tool (adjust_mix_level_request mix delta) =
        Keeps-answered (adjust_mix_level watch calls f mix delta) mix_level_response
          (Keeps-adjust_mix_level mix delta)

    -- If the kept lists are fresh, and a property of the client's world holds that every call about
    -- channels of the configuration keeps, then after a tool, whether it answers or fails, the
    -- receiver holds that configuration, the kept lists are for it, and the property holds still.
    pub run_tool-Settled :
        (r : ToolRequest f) (st : State watch) (w : W)
        → watch.borrow st.config_rx ≡ config
        → Fresh watch st
        → V w
        → (watch.borrow (run_tool watch calls f r (st, w)).1.0.config_rx ≡ config)
          × Settled watch (run_tool watch calls f r (st, w)).1.0
          × V (run_tool watch calls f r (st, w)).1.1
    run_tool-Settled r st w holds fresh v =
        Post-state (λ a s. I s) I (run_tool watch calls f r (st, w)) (λ a s inv. inv)
          (Keeps-run_tool r (st, w) (holds, fresh, v))
