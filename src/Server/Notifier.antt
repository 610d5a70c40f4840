-- ===== src/Server/Notifier.antt =====
-- The task that `on_initialized` of mcp-server/src/handler.rs spawns for a session, on the watch channel
-- of mcp-server/src/main.rs: it sleeps until the value has changed, and sees the last value only.
use mcp_server_allenheath_dl.Prelude.{ℕ, Bool, true, false, List, [], ◌∷◌, Result, ok}
use mcp_server_allenheath_dl.Prelude.Exec.{Exec}
use mcp_server_allenheath_dl.Args.Config.{ChannelConfig}
use mcp_server_allenheath_dl.Notify.{Sets, sets_of, notify_round}
use mcp_server_allenheath_dl.Server.{WatchSender}
use mcp_server_allenheath_dl.Server.Sessions.{WatchReceivers}

-- A configuration is sent, or the task is polled.
pub data Event : Type 0 where
  sent : ChannelConfig → Event
  polled : Event

module _ {w : WatchSender} (rs : WatchReceivers w) {W : Type 0}
    (notify : List ℕ → Exec W (Unit {0})) where
  -- The sender, and the task's receiver, sets and peer; `running` until the task leaves its loop.
  pub record Notifier : Type 0 where
    pub tx : w.Sender
    pub config_rx : rs.Receiver tx
    pub running : Bool
    pub prev : Sets
    pub peer : W

  -- `config_rx.clone()`, and `borrow_and_update` before the loop.
  abbrev pub on_initialized : (tx : w.Sender) → rs.Receiver tx → W → Notifier
  on_initialized tx config_rx peer = record {
    tx = tx;
    config_rx = rs.mark_unchanged tx config_rx;
    running = true;
    prev = sets_of (w.value tx);
    peer = peer;
  }

  -- What a round of the loop leaves.
  abbrev pub after_round : Result (Unit {0}) × (Sets × W) → Notifier → Notifier
  after_round (ok u, (prev, peer)) n = record {
    tx = n.tx;
    config_rx = rs.mark_unchanged n.tx n.config_rx;
    running = true;
    prev = prev;
    peer = peer;
  }
  after_round (r, (prev, peer)) n = record {
    tx = n.tx;
    config_rx = rs.mark_unchanged n.tx n.config_rx;
    running = false;
    prev = prev;
    peer = peer;
  }

  -- `config_rx.changed().await`
  abbrev pub on_changed : Result Bool → Notifier → Notifier
  on_changed (ok true) n = after_round (notify_round notify (w.value n.tx) (n.prev, n.peer)) n
  on_changed (ok false) n = n
  on_changed _ n = record n { running = false }

  abbrev pub poll_if : Bool → Notifier → Notifier
  poll_if true n = on_changed (rs.has_changed n.tx n.config_rx) n
  poll_if false n = n

  unfoldable pub step : Event → Notifier → Notifier
  unfolding notify_round
  step (sent c) n = record {
    tx = w.send_replace c n.tx;
    config_rx = rs.carried c n.tx n.config_rx;
    running = n.running;
    prev = n.prev;
    peer = n.peer;
  }
  step polled n = poll_if n.running n

  unfoldable pub run : List Event → Notifier → Notifier
  unfolding step
  run [] n = n
  run (e ∷ es) n = run es (step e n)
