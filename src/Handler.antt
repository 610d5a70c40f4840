-- ===== src/Handler.antt =====
-- mcp-server/src/handler.rs: the tools of the server, over a client that is connected when it is first
-- used, and lists of channels that are kept until the configuration changes.
pub mod Kept
pub mod Lists
pub mod Fresh
pub mod Tools
pub mod Lookup
pub mod Adjust
pub mod Confined
pub mod History
pub mod Seen
pub mod Ready
pub mod SetGet
pub mod SetGetMix
use mcp_server_allenheath_dl.Prelude.{
  ℕ, Bool, true, false, List, [], ◌∷◌, Option, none, some, find, if◌then◌else◌, Result, ok, err,
  panic, stuck, ok_or, unknown_name,
}
use mcp_server_allenheath_dl.Prelude.Exec.{Exec, lift, ◌>>=◌, ◌>>◌}
use mcp_server_allenheath_dl.Channels.{Channel}
use mcp_server_allenheath_dl.Channels.Names.{ChannelName, name_eq}
use mcp_server_allenheath_dl.Messages.{Level}
use mcp_server_allenheath_dl.Args.Ranges.{iter_all}
use mcp_server_allenheath_dl.Args.Config.{ChannelConfig}

pub record ChannelDetails : Type 0 where
  pub internal : Channel
  pub name : ChannelName

-- `watch::Receiver<ChannelConfig>` of the tokio crate; `has_changed` fails once its sender is gone.
pub record Watch : Type 1 where
  pub Receiver : Type 0
  pub has_changed : Receiver → Result Bool
  pub mark_unchanged : Receiver → Receiver
  pub borrow : Receiver → ChannelConfig

-- The calls of the client that the tools make, on a state `W` of the client and the world.
pub record Calls (W : Type 0) : Type 0 where
  pub new : Exec W (Unit {0})
  pub channel_names : List Channel → Exec W (List ChannelName)
  pub send_level : Channel → Channel → Exec W Level
  pub set_send_level : Channel → Channel → Level → Exec W (Unit {0})
  pub fader_level : Channel → Exec W Level
  pub set_fader_level : Channel → Level → Exec W (Unit {0})

-- `into_iter().zip(names).map(..)`
abbrev pub details : List Channel → List ChannelName → List ChannelDetails
details [] names = []
details (c ∷ channels) [] = []
details (c ∷ channels) (n ∷ names) = record { internal = c; name = n } ∷ details channels names

-- `iter().find(|d| d.name == name)`
abbrev pub named : ChannelName → List ChannelDetails → Result Channel
named name ds = elim (find (λ (d : ChannelDetails). name_eq d.name name) ds) [
  | some d ↦ ok d.internal
  | none ↦ err unknown_name
]

abbrev pub unwrap_or_false : Result Bool → Bool
unwrap_or_false (ok changed) = changed
unwrap_or_false _ = false

module _ (watch : Watch) where
  -- `client` says whether there is one; what it is lies in `W`.
  pub record State : Type 0 where
    pub config_rx : watch.Receiver
    pub client : Bool
    pub inputs : List ChannelDetails
    pub mixes : List ChannelDetails

  abbrev pub new : watch.Receiver → State
  new config_rx = record { config_rx = config_rx; client = false; inputs = []; mixes = [] }

  unfoldable pub invalidate_if_changed : State → State
  invalidate_if_changed state =
      if unwrap_or_false (watch.has_changed state.config_rx)
      then record state {
        config_rx = watch.mark_unchanged state.config_rx;
        inputs = [];
        mixes = [];
      }
      else state

module _ (watch : Watch) {W : Type 0} (calls : Calls W) where
  abbrev pub Tool : Type 0 → Type 0
  Tool A = Exec (State watch × W) A

  abbrev pub call : {A : Type 0} → Exec W A → Tool A
  call f (state, w) = let (r, w') = f w in (r, (state, w'))

  abbrev update : (State watch → State watch) → Tool (Unit {0})
  update f (state, w) = (ok tt, (f state, w))

  -- `client.is_none()`
  abbrev pub connect_unless : Bool → Tool (Unit {0})
  connect_unless true = lift (ok tt)
  connect_unless false = call calls.new >> update (λ st. record st { client = true })

  unfoldable pub get_client : Tool (Unit {0})
  get_client (state, w) = connect_unless state.client (state, w)

  -- The branch of `list_inputs` that asks the desk.
  unfoldable pub fetch_inputs : List Channel → Tool (Unit {0})
  unfolding get_client
  fetch_inputs inputs = do
    get_client
    names ← call (calls.channel_names inputs)
    update (λ st. record st { inputs = details inputs names })

  unfoldable pub fetch_mixes : List Channel → Tool (Unit {0})
  unfolding get_client
  fetch_mixes mixes = do
    get_client
    names ← call (calls.channel_names mixes)
    update (λ st. record st { mixes = details mixes names })

  -- `inputs.is_empty()`
  abbrev pub filled_inputs : List ChannelDetails → List Channel → Tool (Unit {0})
  filled_inputs [] inputs = fetch_inputs inputs
  filled_inputs (d ∷ ds) inputs = lift (ok tt)

  abbrev pub filled_mixes : List ChannelDetails → List Channel → Tool (Unit {0})
  filled_mixes [] mixes = fetch_mixes mixes
  filled_mixes (d ∷ ds) mixes = lift (ok tt)

  unfoldable pub list_inputs : Tool (List ChannelDetails)
  unfolding invalidate_if_changed fetch_inputs
  list_inputs (state, w) =
      let state' = invalidate_if_changed watch state in
      (filled_inputs state'.inputs (iter_all (watch.borrow state'.config_rx).inputs) >> λ (st, w').
      (ok st.inputs, (st, w')))
        (state', w)

  unfoldable pub list_mixes : Tool (List ChannelDetails)
  unfolding invalidate_if_changed fetch_mixes
  list_mixes (state, w) =
      let state' = invalidate_if_changed watch state in
      (filled_mixes state'.mixes (iter_all (watch.borrow state'.config_rx).mixes) >> λ (st, w').
      (ok st.mixes, (st, w')))
        (state', w)

  unfoldable pub input_id : ChannelName → Tool Channel
  unfolding list_inputs
  input_id name = list_inputs >>= λ inputs. lift (named name inputs)

  unfoldable pub mix_id : ChannelName → Tool Channel
  unfolding list_mixes
  mix_id name = list_mixes >>= λ mixes. lift (named name mixes)
