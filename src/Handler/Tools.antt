-- ===== src/Handler/Tools.antt =====
-- The tools of mcp-server/src/handler.rs. `map_err(internal_error)` keeps an error an error.
use mcp_server_allenheath_dl.Prelude.{List, ok}
use mcp_server_allenheath_dl.Prelude.Exec.{lift, ◌>>=◌, ◌>>◌}
use mcp_server_allenheath_dl.Channels.Names.{ChannelName}
use mcp_server_allenheath_dl.Messages.{Level}
use mcp_server_allenheath_dl.Levels.{F32, LevelDelta, add_assign}
use mcp_server_allenheath_dl.Handler.{
  ChannelDetails, Watch, Calls, Tool, call, get_client, list_inputs, list_mixes, input_id, mix_id,
}

pub record InputLevelResponse : Type 0 where
  pub input : ChannelName
  pub mix : ChannelName
  pub level : Level

pub record MixLevelResponse : Type 0 where
  pub mix : ChannelName
  pub level : Level

module _ (watch : Watch) {W : Type 0} (calls : Calls W) where
  abbrev Asked : Type 0 → Type 0
  Asked A = Tool watch calls A

  unfoldable pub list_inputs_tool : Asked (List ChannelDetails)
  unfolding list_inputs
  list_inputs_tool = list_inputs watch calls

  unfoldable pub list_mixes_tool : Asked (List ChannelDetails)
  unfolding list_mixes
  list_mixes_tool = list_mixes watch calls

  unfoldable pub get_input_level : ChannelName → ChannelName → Asked InputLevelResponse
  unfolding input_id mix_id get_client
  get_input_level input mix = do
    input_id' ← input_id watch calls input
    mix_id' ← mix_id watch calls mix
    get_client watch calls
    level ← call watch calls (calls.send_level input_id' mix_id')
    lift (ok (record { input = input; mix = mix; level = level }))

  unfoldable pub set_input_level : ChannelName → ChannelName → Level → Asked InputLevelResponse
  unfolding input_id mix_id get_client
  set_input_level input mix level = do
    input_id' ← input_id watch calls input
    mix_id' ← mix_id watch calls mix
    get_client watch calls
    call watch calls (calls.set_send_level input_id' mix_id' level)
    lift (ok (record { input = input; mix = mix; level = level }))

  unfoldable pub adjust_input_level :
      (f : F32) → ChannelName → ChannelName → LevelDelta f → Asked InputLevelResponse
  unfolding input_id mix_id get_client add_assign
  adjust_input_level f input mix delta = do
    input_id' ← input_id watch calls input
    mix_id' ← mix_id watch calls mix
    get_client watch calls
    level ← call watch calls (calls.send_level input_id' mix_id')
    let level = add_assign f level delta
    call watch calls (calls.set_send_level input_id' mix_id' level)
    lift (ok (record { input = input; mix = mix; level = level }))

  unfoldable pub get_mix_level : ChannelName → Asked MixLevelResponse
  unfolding mix_id get_client
  get_mix_level mix = do
    mix_id' ← mix_id watch calls mix
    get_client watch calls
    level ← call watch calls (calls.fader_level mix_id')
    lift (ok (record { mix = mix; level = level }))

  unfoldable pub set_mix_level : ChannelName → Level → Asked MixLevelResponse
  unfolding mix_id get_client
  set_mix_level mix level = do
    mix_id' ← mix_id watch calls mix
    get_client watch calls
    call watch calls (calls.set_fader_level mix_id' level)
    lift (ok (record { mix = mix; level = level }))

  unfoldable pub adjust_mix_level : (f : F32) → ChannelName → LevelDelta f → Asked MixLevelResponse
  unfolding mix_id get_client add_assign
  adjust_mix_level f mix delta = do
    mix_id' ← mix_id watch calls mix
    get_client watch calls
    level ← call watch calls (calls.fader_level mix_id')
    let level = add_assign f level delta
    call watch calls (calls.set_fader_level mix_id' level)
    lift (ok (record { mix = mix; level = level }))

-- The tools by name, with their parameters, and what they answer.
pub data ToolRequest (f : F32) : Type 0 where
  list_inputs_request list_mixes_request : ToolRequest f
  get_input_level_request : (input mix : ChannelName) → ToolRequest f
  set_input_level_request : (input mix : ChannelName) → Level → ToolRequest f
  adjust_input_level_request : (input mix : ChannelName) → LevelDelta f → ToolRequest f
  get_mix_level_request : ChannelName → ToolRequest f
  set_mix_level_request : ChannelName → Level → ToolRequest f
  adjust_mix_level_request : ChannelName → LevelDelta f → ToolRequest f

pub data ToolResponse : Type 0 where
  list_channels_response : List ChannelDetails → ToolResponse
  input_level_response : InputLevelResponse → ToolResponse
  mix_level_response : MixLevelResponse → ToolResponse

-- The router that `tool_router` makes.
unfoldable pub run_tool :
    (watch : Watch) {W : Type 0} (calls : Calls W) (f : F32)
    → ToolRequest f
    → Tool watch calls ToolResponse
unfolding list_inputs_tool list_mixes_tool get_input_level set_input_level adjust_input_level
    get_mix_level set_mix_level adjust_mix_level
run_tool watch calls f list_inputs_request =
    list_inputs_tool watch calls >>= λ ds. lift (ok (list_channels_response ds))
run_tool watch calls f list_mixes_request =
    list_mixes_tool watch calls >>= λ ds. lift (ok (list_channels_response ds))
run_tool watch calls f (get_input_level_request input mix) =
    get_input_level watch calls input mix >>= λ r. lift (ok (input_level_response r))
run_tool watch calls f (set_input_level_request input mix level) =
    set_input_level watch calls input mix level >>= λ r. lift (ok (input_level_response r))
run_tool watch calls f (adjust_input_level_request input mix delta) =
    adjust_input_level watch calls f input mix delta >>= λ r. lift (ok (input_level_response r))
run_tool watch calls f (get_mix_level_request mix) =
    get_mix_level watch calls mix >>= λ r. lift (ok (mix_level_response r))
run_tool watch calls f (set_mix_level_request mix level) =
    set_mix_level watch calls mix level >>= λ r. lift (ok (mix_level_response r))
run_tool watch calls f (adjust_mix_level_request mix delta) =
    adjust_mix_level watch calls f mix delta >>= λ r. lift (ok (mix_level_response r))
