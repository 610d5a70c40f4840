-- ===== src/Server/Told.antt =====
-- What a session is told of the configuration of mcp-server/src/main.rs by the task of
-- mcp-server/src/handler.rs, however often that is loaded before the task runs again.
use mcp_server_allenheath_dl.Prelude.{
  ℕ, ◌≡◌, ◌∙◌, refl, sym, ap, ◌⊎◌, inl, inr, Bool, true, false, Bool-cases, List, [], ◌∷◌, ◌++◌,
  map, map-append, ok,
}
use mcp_server_allenheath_dl.Args.Config.{ChannelConfig}
use mcp_server_allenheath_dl.Notify.{Sets, sets_of, Changes, changes, message, notify_round}
use mcp_server_allenheath_dl.Notify.Tracked.{apply_changes, apply_all, apply_changes_lem, peer}
use mcp_server_allenheath_dl.Server.{WatchSender, IsWatchSender}
use mcp_server_allenheath_dl.Server.Sessions.{WatchReceivers}
use mcp_server_allenheath_dl.Server.InForce.{AreReceivers}
use mcp_server_allenheath_dl.Server.Notifier.{
  Event, sent, polled, Notifier, on_initialized, on_changed, poll_if, step, run,
}

-- The configuration that was sent last, or the one before.
abbrev last_sent : ChannelConfig → List Event → ChannelConfig
last_sent c [] = c
last_sent c (sent c' ∷ es) = last_sent c' es
last_sent c (polled ∷ es) = last_sent c es

apply_all-append :
    (s : Sets) (ds : List Changes) (d : Changes)
    → apply_all s (ds ++ d ∷ []) ≡ apply_changes (apply_all s ds) d
apply_all-append s [] d = refl
apply_all-append s (x ∷ ds) d = apply_all-append (apply_changes s x) ds d

-- What the documentation says of an open channel: its receivers get no error, and it is open until the
-- sender is dropped.
pub record StaysOpen {w : WatchSender} (rs : WatchReceivers w) (IsOpen : w.Sender → Type 0)
    : Type 0 where
  pub has_changed :
      (tx : w.Sender) (rx : rs.Receiver tx) → IsOpen tx → (b : Bool) × (rs.has_changed tx rx ≡ ok b)
  pub send_replace : (c : ChannelConfig) (tx : w.Sender) → IsOpen tx → IsOpen (w.send_replace c tx)

module _ {w : WatchSender} (sender : IsWatchSender w) (rs : WatchReceivers w)
    (receivers : AreReceivers rs) (IsOpen : w.Sender → Type 0) (opens : StaysOpen rs IsOpen)
    (accept : List (List ℕ) → Bool) where
  abbrev N : Type 0
  N = Notifier rs (peer accept)

  -- The peer was told changes that lead from the first sets to those that the task keeps.
  abbrev pub Told : Sets → N → Type 0
  Told first n = (ds : List Changes) × (n.peer ≡ map message ds) × (n.prev ≡ apply_all first ds)

  -- The peer is gone, or the task will see a change, or its sets are those of the channel's value.
  abbrev Knows : N → Type 0
  Knows n =
      (accept n.peer ≡ false)
      ⊎ (rs.has_changed n.tx n.config_rx ≡ ok true)
      ⊎ (n.prev ≡ sets_of (w.value n.tx))

  -- The task only leaves its loop at a peer that is gone.
  abbrev Stays : N → Type 0
  Stays n = (n.running ≡ true) ⊎ (accept n.peer ≡ false)

  abbrev Inv : Sets → ChannelConfig → N → Type 0
  Inv first c n = Told first n × Knows n × (w.value n.tx ≡ c) × IsOpen n.tx × Stays n

  Told-next :
      (first : Sets) (c : ChannelConfig) (n : N)
      → Told first n
      → (ds : List Changes) × (n.peer ++ message (changes n.prev (sets_of c)) ∷ [] ≡ map message ds)
        × (sets_of c ≡ apply_all first ds)
  Told-next first c n (ds, logged, kept) =
      let d = changes n.prev (sets_of c) in
      (
        ds ++ d ∷ [],
        ap (λ l. l ++ message d ∷ []) logged ∙ sym (map-append message ds (d ∷ [])),
        sym (apply_changes_lem n.prev c)
            ∙ ap (λ s. apply_changes s d) kept
            ∙ sym (apply_all-append first ds d),
      )

  Inv-changed :
      (first : Sets) (c : ChannelConfig) (n : N)
      → Inv first c n
      → Inv first c (on_changed rs (peer accept) (ok true) n)
  unfolding notify_round
  Inv-changed first c n (told, knows, value, is_open, stays) = elim (Bool-cases (accept n.peer)) [
    | inl here ↦
        rw here (Told-next first (w.value n.tx) n told, inr (inr refl), value, is_open, inl refl)
    | inr gone ↦ rw gone (told, inl gone, value, is_open, inr gone)
  ]

  Inv-on_changed :
      (first : Sets) (c : ChannelConfig) (b : Bool) (n : N)
      → Inv first c n
      → Inv first c (on_changed rs (peer accept) (ok b) n)
  Inv-on_changed first c true n h = Inv-changed first c n h
  Inv-on_changed first c false n h = h

  Inv-poll_if :
      (first : Sets) (c : ChannelConfig) (running : Bool) (n : N)
      → Inv first c n
      → Inv first c (poll_if rs (peer accept) running n)
  Inv-poll_if first c true n h =
      let (b, e) = opens.has_changed n.tx n.config_rx (h.3) in rw e (Inv-on_changed first c b n h)
  Inv-poll_if first c false n h = h

  Inv-run :
      (es : List Event) (first : Sets) (c : ChannelConfig) (n : N)
      → Inv first c n
      → Inv first (last_sent c es) (run rs (peer accept) es n)
  unfolding run step
  Inv-run [] first c n h = h
  Inv-run (sent c' ∷ es) first c n (told, knows, value, is_open, stays) =
      Inv-run es first c' (step rs (peer accept) (sent c') n) (
        told,
        inr (inl (receivers.sent c' n.tx n.config_rx)),
        sender.value-send_replace c' n.tx,
        opens.send_replace c' n.tx is_open,
        stays,
      )
  Inv-run (polled ∷ es) first c n h =
      Inv-run es first c (step rs (peer accept) polled n) (Inv-poll_if first c n.running n h)

  -- The peer is gone, or the task's sets are up to date.
  abbrev pub IsUpToDate : ChannelConfig → N → Type 0
  IsUpToDate c n = (accept n.peer ≡ false) ⊎ (n.prev ≡ sets_of c)

  IsUpToDate-changed :
      (c : ChannelConfig) (n : N)
      → w.value n.tx ≡ c
      → IsUpToDate c (on_changed rs (peer accept) (ok true) n)
  unfolding notify_round
  IsUpToDate-changed c n value = elim (Bool-cases (accept n.peer)) [
    | inl here ↦ rw here (inr (ap sets_of value))
    | inr gone ↦ rw gone (inl gone)
  ]

  IsUpToDate-on_changed :
      (c : ChannelConfig) (b : Bool) (n : N)
      → w.value n.tx ≡ c
      → rs.has_changed n.tx n.config_rx ≡ ok b
      → Knows n
      → IsUpToDate c (on_changed rs (peer accept) (ok b) n)
  IsUpToDate-on_changed c true n value e knows = IsUpToDate-changed c n value
  IsUpToDate-on_changed c false n value e (inl gone) = inl gone
  IsUpToDate-on_changed c false n value e (inr (inl changed)) = cc
  IsUpToDate-on_changed c false n value e (inr (inr known)) = inr (known ∙ ap sets_of value)

  IsUpToDate-poll_if :
      (c : ChannelConfig) (running : Bool) (n : N)
      → w.value n.tx ≡ c
      → IsOpen n.tx
      → Knows n
      → (running ≡ true) ⊎ (accept n.peer ≡ false)
      → IsUpToDate c (poll_if rs (peer accept) running n)
  IsUpToDate-poll_if c false n value is_open knows (inl goes_on) = cc
  IsUpToDate-poll_if c false n value is_open knows (inr gone) = inl gone
  IsUpToDate-poll_if c true n value is_open knows stays =
      let (b, e) = opens.has_changed n.tx n.config_rx is_open in
      rw e (IsUpToDate-on_changed c b n value e knows)

  -- A session's task is spawned while the channel is open, then configurations are sent and the task
  -- is polled, in any order, and at last it is polled once more. Then the peer was told messages of
  -- changes that lead from the sets of the first configuration to those that the task keeps; and these
  -- are the sets of the configuration that was sent last, or the peer takes no more messages.
  -- Configurations that were replaced before the task ran again are passed over.
  pub run-Told :
      (tx : w.Sender) (config_rx : rs.Receiver tx) (es : List Event)
      → IsOpen tx
      → Told (sets_of (w.value tx)) (
          step rs
            (peer accept)
            polled
            (run rs (peer accept) es (on_initialized rs (peer accept) tx config_rx [])))
        × IsUpToDate (last_sent (w.value tx) es) (
            step rs
              (peer accept)
              polled
              (run rs (peer accept) es (on_initialized rs (peer accept) tx config_rx [])))
  unfolding step
  run-Told tx config_rx es is_open =
      let first = sets_of (w.value tx) in
      let n = run rs (peer accept) es (on_initialized rs (peer accept) tx config_rx []) in
      let inv =
        Inv-run es first (w.value tx) (on_initialized rs (peer accept) tx config_rx [])
          (([], refl, refl), inr (inr refl), refl, is_open, inl refl) in
      (
        (Inv-poll_if first (last_sent (w.value tx) es) n.running n inv).0,
        IsUpToDate-poll_if (last_sent (w.value tx) es) n.running n inv.2 inv.3 inv.1 inv.4,
      )
