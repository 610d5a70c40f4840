-- ===== src/Server/Sessions.antt =====
-- mcp-server/src/main.rs: the service that `main` puts together. Each session has a handler of its own,
-- made by the factory, with a clone of the one receiver; the token is looked at before anything else;
-- and a SIGHUP may replace the configuration that all the receivers see. Sessions are the rmcp crate's,
-- and numbered here in the order in which they were opened.
use mcp_server_allenheath_dl.Prelude.{
  ℕ, Bool, true, false, List, [], ◌∷◌, ◌++◌, map, update_at, Result, ok,
}
use mcp_server_allenheath_dl.Args.Config.{ChannelConfig, Item, load}
use mcp_server_allenheath_dl.Auth.{Http, Parts, Response, unauthorized, served, guard}
use mcp_server_allenheath_dl.Levels.{F32}
use mcp_server_allenheath_dl.Handler.{Watch, Calls, State, new}
use mcp_server_allenheath_dl.Handler.Tools.{ToolRequest, run_tool}
use mcp_server_allenheath_dl.Server.{Args, channel_config, WatchSender}

-- The receivers of a watch channel, which share its value with the sender: a receiver belongs to what
-- the sender has come to, and stays one of the channel when the sender sends, or is dropped.
pub record WatchReceivers (w : WatchSender) : Type 1 where
  pub Receiver : w.Sender → Type 0
  -- The one that `watch::channel` returns.
  pub receiver : (c : ChannelConfig) → Receiver (w.channel c)
  pub carried : (c : ChannelConfig) (tx : w.Sender) → Receiver tx → Receiver (w.send_replace c tx)
  pub dropped : w.Sender → w.Sender
  pub outliving : (tx : w.Sender) → Receiver tx → Receiver (dropped tx)
  pub has_changed : (tx : w.Sender) → Receiver tx → Result Bool
  pub mark_unchanged : (tx : w.Sender) → Receiver tx → Receiver tx

-- What the handlers see of it.
abbrev pub watch_at : {w : WatchSender} → WatchReceivers w → w.Sender → Watch
watch_at {w} rs tx = record {
  Receiver = rs.Receiver tx;
  has_changed = rs.has_changed tx;
  mark_unchanged = rs.mark_unchanged tx;
  borrow = λ rx. w.value tx;
}

module _ {w : WatchSender} (rs : WatchReceivers w) (http : Http) {W : Type 0} (calls : Calls W)
    (f : F32) where
  -- A handler's state, and what its client talks to.
  abbrev pub Session : w.Sender → Type 0
  Session tx = State (watch_at rs tx) × W

  -- `listening` says whether the task waits for signals.
  pub record Server : Type 0 where
    pub tx : w.Sender
    pub listening : Bool
    pub config_rx : rs.Receiver tx
    pub sessions : List (Session tx)

  -- A request opens a session, or calls a tool in one; what a client talks to changes meanwhile; or
  -- the process gets a SIGHUP, with what dotenvy reads of the .env file then. Where the task does not
  -- listen, such a signal ends the process.
  pub data Event : Type 0 where
    opened : Parts http → W → Event
    called : Parts http → ℕ → ToolRequest f → Event
    elsewhere : ℕ → W → Event
    hangup : Result (List Item) → Event

  -- `DLiveHandler::new(args.clone(), config_rx.clone())`
  abbrev pub open_session : W → Server → Server
  open_session world s = record s {
    sessions = s.sessions ++ (new (watch_at rs s.tx) s.config_rx, world) ∷ [];
  }

  abbrev pub call_tool : ℕ → ToolRequest f → Server → Server
  call_tool k r s = record s {
    sessions =
        update_at k (λ session. (run_tool (watch_at rs s.tx) calls f r session).1) s.sessions;
  }

  abbrev pub move_on : ℕ → W → Server → Server
  move_on k world s = record s { sessions = update_at k (λ session. (session.0, world)) s.sessions }

  -- A session when a configuration is sent: nothing of it changes, but for what its receiver sees.
  abbrev pub carry :
      (c : ChannelConfig) (tx : w.Sender) → Session tx → Session (w.send_replace c tx)
  carry c tx (st, world) = (
    record {
      config_rx = rs.carried c tx st.config_rx;
      client = st.client;
      inputs = st.inputs;
      mixes = st.mixes;
    },
    world,
  )

  -- `tx.send_replace(config)`
  abbrev replace_config : ChannelConfig → Server → Server
  replace_config c s = record {
    tx = w.send_replace c s.tx;
    listening = s.listening;
    config_rx = rs.carried c s.tx s.config_rx;
    sessions = map (carry c s.tx) s.sessions;
  }

  -- A round of the loop in `sighup_task`.
  abbrev pub on_hangup : Bool → Result ChannelConfig → Server → Server
  on_hangup true (ok config) s = replace_config config s
  on_hangup _ _ s = s

  -- What a request leaves behind.
  abbrev pub admit : Response Server → Server → Server
  admit unauthorized s = s
  admit (served s') s = s'

  module _ (args : Args) where
    unfoldable pub step : Event → Server → Server
    unfolding guard load
    step (opened parts world) s = admit (guard http args.token parts (open_session world s)) s
    step (called parts k r) s = admit (guard http args.token parts (call_tool k r s)) s
    step (elsewhere k world) s = move_on k world s
    step (hangup file) s = on_hangup s.listening (load file) s

    unfoldable pub serve : List Event → Server → Server
    unfolding step
    serve [] s = s
    serve (e ∷ es) s = serve es (step e s)

    -- What `main` starts with; the task drops its sender if it cannot register for the signal.
    abbrev pub main : Result (Unit {0}) → Server
    main (ok done) = record {
      tx = w.channel (channel_config args);
      listening = true;
      config_rx = rs.receiver (channel_config args);
      sessions = [];
    }
    main _ = record {
      tx = rs.dropped (w.channel (channel_config args));
      listening = false;
      config_rx =
          rs.outliving (w.channel (channel_config args)) (rs.receiver (channel_config args));
      sessions = [];
    }
