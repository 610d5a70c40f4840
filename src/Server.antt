-- ===== src/Server.antt =====
-- mcp-server/src/main.rs: the task that loads the configuration again at a SIGHUP, and where its first
-- value comes from. The sender of the watch channel is the tokio crate's, and a parameter; each signal
-- comes with what dotenvy reads of the .env file then.
pub mod Sessions
pub mod Guarded
pub mod InForce
pub mod Notifier
pub mod Told
use mcp_server_allenheath_dl.Prelude.{
  ℕ, ◌≡◌, ◌≢◌, refl, ap, ◌∙◌, List, [], ◌∷◌, ◌++◌, Option, All, Result, ok,
}
use mcp_server_allenheath_dl.Args.Ranges.{ChannelRangeList}
use mcp_server_allenheath_dl.Args.Config.{ChannelConfig, Item, load}

-- `Args` of mcp-server/src/args.rs; an address is a number.
pub record Args : Type 0 where
  pub token : Option (List ℕ)
  pub ip : ℕ
  pub inputs : ChannelRangeList
  pub mixes : ChannelRangeList

abbrev pub channel_config : Args → ChannelConfig
channel_config args = record { inputs = args.inputs; mixes = args.mixes }

-- `watch::Sender<ChannelConfig>`
pub record WatchSender : Type 1 where
  pub Sender : Type 0
  pub channel : ChannelConfig → Sender
  pub send_replace : ChannelConfig → Sender → Sender
  -- What a receiver borrows.
  pub value : Sender → ChannelConfig

-- What the documentation of the watch channel says of its value.
pub record IsWatchSender (w : WatchSender) : Type 0 where
  pub value-channel : (c : ChannelConfig) → w.value (w.channel c) ≡ c
  pub value-send_replace : (c : ChannelConfig) (s : w.Sender) → w.value (w.send_replace c s) ≡ c

module _ (w : WatchSender) where
  -- `match ChannelConfig::load()`
  abbrev replace_loaded : Result ChannelConfig → w.Sender → w.Sender
  replace_loaded (ok config) tx = w.send_replace config tx
  replace_loaded _ tx = tx

  -- The loop, on the signals that have come so far.
  unfoldable reload_loop : List (Result (List Item)) → w.Sender → w.Sender
  unfolding load
  reload_loop [] tx = tx
  reload_loop (file ∷ files) tx = reload_loop files (replace_loaded (load file) tx)

  -- `signal` may fail, and then the task ends.
  unfoldable pub sighup_task : Result (Unit {0}) → List (Result (List Item)) → w.Sender → w.Sender
  unfolding reload_loop
  sighup_task (ok _) files tx = reload_loop files tx
  sighup_task _ files tx = tx

  -- What `main` sets up, and the signals that have come since.
  abbrev pub configured : Args → Result (Unit {0}) → List (Result (List Item)) → w.Sender
  configured args registered files = sighup_task registered files (w.channel (channel_config args))

  -- A file that no configuration is loaded from.
  abbrev IsRefused : Result (List Item) → Type 0
  IsRefused file = (config : ChannelConfig) → load file ≢ ok config

  replace_refused :
      (r : Result ChannelConfig) (tx : w.Sender)
      → ((config : ChannelConfig) → r ≢ ok config)
      → replace_loaded r tx ≡ tx
  replace_refused (ok config) tx h = absurd (h config refl)
  replace_refused _ tx h = refl

  reload_loop-refused :
      (files : List (Result (List Item))) (tx : w.Sender)
      → All IsRefused files
      → reload_loop files tx ≡ tx
  unfolding reload_loop
  reload_loop-refused [] tx h = refl
  reload_loop-refused (file ∷ files) tx (hf, h) =
      rw (replace_refused (load file) tx hf) (reload_loop-refused files tx h)

  reload_loop-append :
      (xs ys : List (Result (List Item))) (tx : w.Sender)
      → reload_loop (xs ++ ys) tx ≡ reload_loop ys (reload_loop xs tx)
  unfolding reload_loop
  reload_loop-append [] ys tx = refl
  reload_loop-append (x ∷ xs) ys tx = reload_loop-append xs ys (replace_loaded (load x) tx)

  -- If the task runs, a configuration is loaded at some signal and none at the signals after it, then
  -- this is the configuration that the watch channel holds; with those signals alone it would hold the
  -- configuration of the arguments.
  configured-value :
      IsWatchSender w
      → (args : Args) (before after : List (Result (List Item))) (file : Result (List Item))
        (config : ChannelConfig)
      → load file ≡ ok config
      → All IsRefused after
      → (w.value (configured args (ok tt) (before ++ file ∷ after)) ≡ config)
        × (w.value (configured args (ok tt) after) ≡ channel_config args)
  unfolding sighup_task reload_loop
  configured-value laws args before after file config e h =
      let tx = w.channel (channel_config args) in
      let tx' = reload_loop before tx in
      (
        ap w.value (
              reload_loop-append before (file ∷ after) tx
              ∙ ap (λ r. reload_loop after (replace_loaded r tx')) e
              ∙ reload_loop-refused after (w.send_replace config tx') h)
            ∙ laws.value-send_replace config tx',
        ap w.value (reload_loop-refused after tx h) ∙ laws.value-channel (channel_config args),
      )
