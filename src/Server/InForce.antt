-- ===== src/Server/InForce.antt =====
-- Which configuration the handlers work with in the service of mcp-server/src/main.rs.
use mcp_server_allenheath_dl.Prelude.{
  ℕ, if◌then◌else◌, sym, ◌≡◌, ◌∙◌, refl, inl, inr, Bool, true, false, List, [], ◌∷◌, map, All,
  All-append, All-update_at, Result, ok, err, panic, stuck, length, Holds,
}
use mathlib.Core.Path.{subst}
use mcp_server_allenheath_dl.Channels.{Channel}
use mcp_server_allenheath_dl.Channels.Names.{ChannelName}
use mcp_server_allenheath_dl.Args.Ranges.{iter_all}
use mcp_server_allenheath_dl.Args.Config.{ChannelConfig, load}
use mcp_server_allenheath_dl.Auth.{Http, Parts, guard}
use mcp_server_allenheath_dl.Levels.{F32}
use mcp_server_allenheath_dl.Handler.{Calls, list_inputs, list_mixes}
use mcp_server_allenheath_dl.Handler.Kept.{IsWatch, Fresh}
use mcp_server_allenheath_dl.Handler.Tools.{ToolRequest, run_tool}
use mcp_server_allenheath_dl.Handler.Fresh.{anywhere}
use mcp_server_allenheath_dl.Handler.Confined.{run_tool-Settled}
use mcp_server_allenheath_dl.Handler.History.{ListsAll, lists-Fresh}
use mcp_server_allenheath_dl.Server.{Args, channel_config, WatchSender, IsWatchSender}
use mcp_server_allenheath_dl.Server.Sessions.{
  WatchReceivers, watch_at, Session, Server, Event, opened, called, elsewhere, hangup, carry,
  open_session, call_tool, move_on, on_hangup, admit, step, serve, main,
}
use mcp_server_allenheath_dl.Server.Guarded.{guard-cases}

-- What the documentation of the watch channel says of its receivers: one that the sender has sent to
-- sees that the value has changed, until it marks it as seen; and the value stays when the sender is
-- dropped.
pub record AreReceivers {w : WatchSender} (rs : WatchReceivers w) : Type 0 where
  pub sent :
      (c : ChannelConfig) (tx : w.Sender) (rx : rs.Receiver tx)
      → rs.has_changed (w.send_replace c tx) (rs.carried c tx rx) ≡ ok true
  pub marked : (tx : w.Sender) → IsWatch (watch_at rs tx)
  pub value-dropped : (tx : w.Sender) → w.value (rs.dropped tx) ≡ w.value tx

-- The configuration that a file replaces another by, if one is loaded from it.
abbrev loaded_or : ChannelConfig → Result ChannelConfig → ChannelConfig
loaded_or c (ok config) = config
loaded_or c _ = c

-- Whether the task could register for the signal.
abbrev listens : Result (Unit {0}) → Bool
listens (ok done) = true
listens _ = false

module _ {w : WatchSender} (rs : WatchReceivers w) (http : Http) {W : Type 0} (calls : Calls W)
    (f : F32) where
  -- What an event makes of the configuration, if the task listens or if it does not.
  abbrev after_event : Bool → ChannelConfig → Event rs http calls f → ChannelConfig
  after_event l c (hangup file) = if l then loaded_or c (load file) else c
  after_event l c _ = c

  -- With a task that listens, the last configuration that was loaded at a signal, or else the first.
  abbrev pub in_force : Bool → ChannelConfig → List (Event rs http calls f) → ChannelConfig
  in_force listening c [] = c
  in_force listening c (e ∷ es) = in_force listening (after_event listening c e) es

  -- What `list_inputs` and `list_mixes` return in a session are the channels of the configuration.
  abbrev pub Lists : ChannelConfig → (tx : w.Sender) → Session rs http calls f tx → Type 0
  Lists c tx session =
      Holds (ListsAll (iter_all c.inputs)) (list_inputs (watch_at rs tx) calls session).0
      × Holds (ListsAll (iter_all c.mixes)) (list_mixes (watch_at rs tx) calls session).0

module _ {w : WatchSender} (sender : IsWatchSender w) (rs : WatchReceivers w)
    (receivers : AreReceivers rs) (http : Http) {W : Type 0} (calls : Calls W) (f : F32)
    (full : (cs : List Channel) (ns : List ChannelName) (w : W)
      → (calls.channel_names cs w).0 ≡ ok ns
      → length ns ≡ length cs) where
  abbrev S : Type 0
  S = Server rs http calls f

  abbrev AllFresh : (tx : w.Sender) → List (Session rs http calls f tx) → Type 0
  AllFresh tx sessions = All (λ session. Fresh (watch_at rs tx) session.0) sessions

  -- The channel has the configuration, and no session has lists of another that it would not drop.
  abbrev Serves : ChannelConfig → Bool → S → Type 0
  Serves c listening s = (w.value s.tx ≡ c) × (s.listening ≡ listening) × AllFresh s.tx s.sessions

  Serves-open_session :
      (c : ChannelConfig) (l : Bool) (world : W) (s : S)
      → Serves c l s
      → Serves c l (open_session rs http calls f world s)
  Serves-open_session c l world s (value, listens, fresh) = (
    value,
    listens,
    All-append (λ session. Fresh (watch_at rs s.tx) session.0) s.sessions _ fresh
        (inr (inl refl, inl refl), tt),
  )

  Fresh-run_tool :
      (r : ToolRequest f) (tx : w.Sender) (session : Session rs http calls f tx)
      → Fresh (watch_at rs tx) session.0
      → Fresh (watch_at rs tx) (run_tool (watch_at rs tx) calls f r session).1.0
  Fresh-run_tool r tx (st, world) h =
      let config = w.value tx in
      inr
        (run_tool-Settled (watch_at rs tx) (receivers.marked tx) calls config (λ w. Unit)
          (anywhere calls full config) f r st world refl h tt).1

  Serves-call_tool :
      (c : ChannelConfig) (l : Bool) (k : ℕ) (r : ToolRequest f) (s : S)
      → Serves c l s
      → Serves c l (call_tool rs http calls f k r s)
  Serves-call_tool c l k r s (value, listens, fresh) = (
    value,
    listens,
    All-update_at (λ session. Fresh (watch_at rs s.tx) session.0) k _ s.sessions
        (Fresh-run_tool r s.tx) fresh,
  )

  Serves-move_on :
      (c : ChannelConfig) (l : Bool) (k : ℕ) (world : W) (s : S)
      → Serves c l s
      → Serves c l (move_on rs http calls f k world s)
  Serves-move_on c l k world s (value, listens, fresh) = (
    value,
    listens,
    All-update_at (λ session. Fresh (watch_at rs s.tx) session.0) k _ s.sessions (λ session h. h)
        fresh,
  )

  AllFresh-carry :
      (c : ChannelConfig) (tx : w.Sender) (sessions : List (Session rs http calls f tx))
      → AllFresh (w.send_replace c tx) (map (carry rs http calls f c tx) sessions)
  AllFresh-carry c tx [] = tt
  AllFresh-carry c tx ((st, world) ∷ sessions) =
      (inl (rw (receivers.sent c tx st.config_rx) refl), AllFresh-carry c tx sessions)

  Serves-on_hangup :
      (c : ChannelConfig) (l : Bool) (r : Result ChannelConfig) (s : S)
      → Serves c l s
      → Serves (if l then loaded_or c r else c) l (on_hangup rs http calls f l r s)
  Serves-on_hangup c true (ok config) s (value, listens, fresh) =
      (sender.value-send_replace config s.tx, listens, AllFresh-carry config s.tx s.sessions)
  Serves-on_hangup c true (err e) s h = h
  Serves-on_hangup c true panic s h = h
  Serves-on_hangup c true stuck s h = h
  Serves-on_hangup c false r s h = h

  module _ (args : Args) where
    Serves-admit :
        (c : ChannelConfig) (l : Bool) (parts : Parts http) (s s' : S)
        → Serves c l s
        → Serves c l s'
        → Serves c l (admit rs http calls f (guard http args.token parts s') s)
    Serves-admit c l parts s s' h h' = elim (guard-cases http args.token parts s') [
      | inl let_in ↦ rw let_in h'
      | inr refused ↦ rw refused h
    ]

    Serves-step :
        (e : Event rs http calls f) (c : ChannelConfig) (l : Bool) (s : S)
        → Serves c l s
        → Serves (after_event rs http calls f l c e) l (step rs http calls f args e s)
    unfolding step
    Serves-step (opened parts world) c l s h =
        Serves-admit c l parts s _ h (Serves-open_session c l world s h)
    Serves-step (called parts k r) c l s h =
        Serves-admit c l parts s _ h (Serves-call_tool c l k r s h)
    Serves-step (elsewhere k world) c l s h = Serves-move_on c l k world s h
    Serves-step (hangup file) c l s h =
        subst
          (λ b.
            Serves (if l then loaded_or c (load file) else c) l
              (on_hangup rs http calls f b (load file) s))
          (sym (h.1)) (Serves-on_hangup c l (load file) s h)

    Serves-serve :
        (es : List (Event rs http calls f)) (c : ChannelConfig) (l : Bool) (s : S)
        → Serves c l s
        → Serves (in_force rs http calls f l c es) l (serve rs http calls f args es s)
    unfolding serve
    Serves-serve [] c l s h = h
    Serves-serve (e ∷ es) c l s h = Serves-serve es _ l _ (Serves-step e c l s h)

    not_registered : Serves (channel_config args) false (main rs http calls f args stuck)
    not_registered =
        let tx = w.channel (channel_config args) in
        (receivers.value-dropped tx ∙ sender.value-channel (channel_config args), refl, tt)

    Serves-main :
        (registered : Result (Unit {0}))
        → Serves (channel_config args) (listens registered) (main rs http calls f args registered)
    Serves-main (ok done) = (sender.value-channel (channel_config args), refl, tt)
    Serves-main (err e) = not_registered
    Serves-main panic = not_registered
    Serves-main stuck = not_registered

    AllLists :
        (c : ChannelConfig) (tx : w.Sender) (sessions : List (Session rs http calls f tx))
        → w.value tx ≡ c
        → AllFresh tx sessions
        → All (Lists rs http calls f c tx) sessions
    AllLists c tx [] value h = tt
    AllLists c tx ((st, world) ∷ sessions) value (fresh, h) = (
      subst (λ c'. Lists rs http calls f c' tx (st, world)) value
          (lists-Fresh (watch_at rs tx) (receivers.marked tx) calls f full st world fresh),
      AllLists c tx sessions value h,
    )

    -- If a call of `channel_names` that succeeds has one name for each channel, then after any
    -- requests, with or without the token, in any sessions, and any SIGHUPs between them, what
    -- `list_inputs` and `list_mixes` return in any session are the channels of the configuration in
    -- force: the one of the last file that one was loaded from, or else that of the arguments; and
    -- that of the arguments always, if the process could not register for the signal.
    pub serve-Lists :
        (registered : Result (Unit {0})) (es : List (Event rs http calls f))
        → All
            (Lists rs http calls f
              (in_force rs http calls f (listens registered) (channel_config args) es)
              (serve rs http calls f args es (main rs http calls f args registered)).tx)
            (serve rs http calls f args es (main rs http calls f args registered)).sessions
    serve-Lists registered es =
        let (value, _, fresh) =
          Serves-serve es (channel_config args) (listens registered)
            (main rs http calls f args registered) (Serves-main registered) in
        AllLists _ _ _ value fresh
