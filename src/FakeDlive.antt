-- ===== src/FakeDlive.antt =====
-- fake-dlive/src/main.rs: a desk that keeps names and levels, and answers the messages of a client.
-- The framed stream is the tokio crates', so `send` is a parameter, with a state of its own.
pub mod Levels
pub mod Panics
pub mod Connections
pub mod Shared
use mcp_server_allenheath_dl.Prelude.{
  ℕ, Bool, ◌&&◌, List, [], ◌∷◌, ◌++◌, Option, none, some, if◌then◌else◌, Result, ok, err, panic,
  stuck,
}
use mcp_server_allenheath_dl.Prelude.Exec.{Exec, lift, ◌>>=◌, ◌>>◌}
use mcp_server_allenheath_dl.Channels.{Channel, channel_eq}
use mcp_server_allenheath_dl.Channels.Names.{ChannelName, try_from}
use mcp_server_allenheath_dl.Channels.Text.{show_channel}
use mcp_server_allenheath_dl.Messages.{
  Level, zero_db, Message, get_channel_name, channel_name, get_send_level, send_level,
  get_fader_level, fader_level,
}

-- A `BTreeMap` as its entries, the newest first.
abbrev pub Map : Type 0 → Type 0 → Type 0
Map K V = List (K × V)

abbrev pub get : {K V : Type 0} → (K → K → Bool) → K → Map K V → Option V
get eq k [] = none
get eq k ((j, v) ∷ m) = if eq j k then some v else get eq k m

abbrev pub insert : {K V : Type 0} → K → V → Map K V → Map K V
insert k v m = (k, v) ∷ m

abbrev pub pair_eq : Channel × Channel → Channel × Channel → Bool
pair_eq (a, b) (c, d) = channel_eq a c && channel_eq b d

pub record State : Type 0 where
  pub channel_names : Map Channel ChannelName
  pub send_levels : Map (Channel × Channel) Level
  pub fader_levels : Map Channel Level

-- What `main` starts with, on the names of its file.
abbrev pub initial : Map Channel ChannelName → State
initial channel_names = record {
  channel_names = channel_names;
  send_levels = [];
  fader_levels = [];
}

abbrev unwrap_or {ℓ} : {A : Type ℓ} → A → Option A → A
unwrap_or a none = a
unwrap_or a (some b) = b

-- `unwrap` of a result.
abbrev pub unwrap {ℓ} : {A : Type ℓ} → Result A → Result A
unwrap (err e) = panic
unwrap r = r

-- `format!("@{channel}").parse().unwrap()`
unfoldable pub default_name : Channel → Result ChannelName
unfolding show_channel try_from
default_name channel = unwrap (try_from (b'@' ∷ show_channel channel))

abbrev pub name_of : Channel → State → Result ChannelName
name_of channel state = elim (get channel_eq channel state.channel_names) [
  | some name ↦ ok name
  | none ↦ default_name channel
]

abbrev pub send_level_of : Channel → Channel → State → Level
send_level_of channel send state = unwrap_or zero_db (get pair_eq (channel, send) state.send_levels)

abbrev pub fader_level_of : Channel → State → Level
fader_level_of channel state = unwrap_or zero_db (get channel_eq channel state.fader_levels)

module _ {W : Type 0} (send : Message → Exec W (Unit {0})) where
  abbrev Handle : Type 0
  Handle = Exec (State × W) (Unit {0})

  -- `stream.send(m).await?`, with the lock on the state held.
  abbrev pub send_message : Message → Handle
  send_message m (state, w) = let (r, w') = send m w in (r, (state, w'))

  -- The body of the loop: `unimplemented!` panics.
  unfoldable pub handle : Message → Handle
  unfolding default_name
  handle (get_channel_name channel) (state, w) =
      (lift (name_of channel state) >>= λ name. send_message (channel_name channel name)) (state, w)
  handle (channel_name channel name) s = (ok tt, s)
  handle (get_send_level channel send') (state, w) =
      send_message (send_level channel send' (send_level_of channel send' state)) (state, w)
  handle (send_level channel send' level) (state, w) =
      (ok tt, (record state { send_levels = insert (channel, send') level state.send_levels }, w))
  handle (get_fader_level channel) (state, w) =
      send_message (fader_level channel (fader_level_of channel state)) (state, w)
  handle (fader_level channel level) (state, w) =
      (ok tt, (record state { fader_levels = insert channel level state.fader_levels }, w))
  handle _ s = (panic, s)

  -- The items that `try_next` gives, up to the end of the stream.
  unfoldable pub handle_connection : List (Result Message) → Handle
  unfolding handle
  handle_connection [] s = (ok tt, s)
  handle_connection (item ∷ items) s = (lift item >>= λ m. handle m >> handle_connection items) s
