-- ===== src/Messages.antt =====
-- lib/src/messages.rs: the messages between a client and the desk.
use mcp_server_allenheath_dl.Prelude.{ℕ, Bool}
use mcp_server_allenheath_dl.Channels.{Channel}
use mcp_server_allenheath_dl.Channels.Names.{ChannelName}
use mcp_server_allenheath_dl.Channels.Colours.{ChannelColour}

-- A fader position, a `u8`.
pub record Level : Type 0 where
  pub value : ℕ

abbrev pub zero_db : Level
zero_db = record { value = 0x6B }

abbrev pub neg_infinity : Level
neg_infinity = record { value = 0 }

pub data Message : Type 0 where
  mute_status : Channel → Bool → Message
  get_mute_status : Channel → Message
  fader_level : Channel → Level → Message
  get_fader_level : Channel → Message
  main_mix_assignment : Channel → Bool → Message
  get_main_mix_assignment : Channel → Message
  send_level : (channel send : Channel) → Level → Message
  get_send_level : (channel send : Channel) → Message
  send_assign : (channel send : Channel) → Bool → Message
  get_send_assign : (channel send : Channel) → Message
  dca_assign : Channel → ℕ → Bool → Message
  mute_group_assign : Channel → ℕ → Bool → Message
  set_channel_name : Channel → ChannelName → Message
  get_channel_name : Channel → Message
  channel_name : Channel → ChannelName → Message
  set_channel_colour : Channel → ChannelColour → Message
  get_channel_colour : Channel → Message
  channel_colour : Channel → ChannelColour → Message
