-- ===== src/Notify/Tracked.antt =====
-- What a peer of mcp-server/src/handler.rs learns from its notifications.
use mcp_server_allenheath_dl.Prelude.{
  ◌↔◌, arith, ℕ, suc, ◌≡◌, refl, sym, ap, ◌∙◌, Bool, Bool-cases, inl, inr, List, [], ◌∷◌, ◌++◌, map,
  append_assoc, append-nil, length, take, if◌then◌else◌, Result, ok, err, send_failed,
}
use mcp_server_allenheath_dl.Prelude.Exec.{Exec}
use mcp_server_allenheath_dl.ChannelSet.{to_set}
use mcp_server_allenheath_dl.ChannelSet.Canonical.{to_set-IsSorted}
use mcp_server_allenheath_dl.Args.Ranges.{iter_all}
use mcp_server_allenheath_dl.Args.Config.{ChannelConfig}
use mcp_server_allenheath_dl.Notify.{
  Sets, sets_of, Changes, changes, message, notify_round, notify_loop, notify_on_config_change,
}
use mcp_server_allenheath_dl.Notify.Parts.{applied, applied-difference}

-- The sets of one who takes out and puts in what a notification lists.
abbrev pub apply_changes : Sets → Changes → Sets
apply_changes s d = record {
  inputs = applied s.inputs d.added_inputs d.removed_inputs;
  mixes = applied s.mixes d.added_mixes d.removed_mixes;
}

abbrev pub apply_all : Sets → List Changes → Sets
apply_all s [] = s
apply_all s (d ∷ ds) = apply_all (apply_changes s d) ds

pub apply_changes_lem :
    (prev : Sets) (config : ChannelConfig)
    → apply_changes prev (changes prev (sets_of config)) ≡ sets_of config
unfolding changes sets_of
apply_changes_lem prev config =
    let inputs = to_set (iter_all config.inputs) in
    let mixes = to_set (iter_all config.mixes) in
    rw
      (
        applied-difference prev.inputs inputs (to_set-IsSorted (iter_all config.inputs)),
        applied-difference prev.mixes mixes (to_set-IsSorted (iter_all config.mixes)),
      )
      refl

-- The sets of the last of some configurations, or those before them.
abbrev last_sets : Sets → List ChannelConfig → Sets
last_sets s [] = s
last_sets s (config ∷ configs) = last_sets (sets_of config) configs

suc_injective : {m n : ℕ} → suc m ≡ suc n → m ≡ n
suc_injective e = omega (arith, e)

module _ (accept : List (List ℕ) → Bool) where
  -- A peer that keeps what it is told, and that may be gone at any time.
  abbrev pub peer : List ℕ → Exec (List (List ℕ)) (Unit {0})
  peer text log = if accept log then (ok tt, log ++ text ∷ []) else (err send_failed, log)

  -- The peer was told some changes, which lead to the sets of as many configurations; if none was
  -- refused then of all.
  abbrev Tracks :
      Sets
      → List (List ℕ)
      → List ChannelConfig
      → Result (Unit {0}) × (Sets × List (List ℕ))
      → Type 0
  Tracks prev log configs out =
      (ds : List Changes) × (out.1.1 ≡ log ++ map message ds)
      × (out.1.0 ≡ apply_all prev ds)
      × (out.1.0 ≡ last_sets prev (take (length ds) configs))
      × ((out.0 ≡ ok tt) ↔ (length ds ≡ length configs))

  notify_loop-Tracks :
      (configs : List ChannelConfig) (prev : Sets) (log : List (List ℕ))
      → Tracks prev log configs (notify_loop peer configs (prev, log))
  unfolding notify_loop notify_round
  notify_loop-Tracks [] prev log = ([], sym (append-nil log), refl, refl, (λ e. refl, λ e. refl))
  notify_loop-Tracks (config ∷ configs) prev log = elim (Bool-cases (accept log)) [
    | inl here ↦
        let next = sets_of config in
        let d = changes prev next in
        let (ds, logged, followed, last, all) =
          notify_loop-Tracks configs next (log ++ message d ∷ []) in
        rw here (
          d ∷ ds,
          logged ∙ append_assoc log (message d ∷ []) (map message ds),
          followed ∙ ap (λ s. apply_all s ds) (sym (apply_changes_lem prev config)),
          last,
          (λ e. ap suc (all.0 e), λ e. all.1 (suc_injective e)),
        )
    | inr gone ↦
        rw gone ([], sym (append-nil log), refl, refl, (λ e. cc, λ e. absurd (omega (arith, e))))
  ]

  -- When the task has run on any configurations, its peer was told the messages of some changes; who
  -- applies these to the sets of the first configuration has the sets that the task keeps, which are
  -- those of the configuration that was told last; and all were told exactly if the peer never refused.
  notify_on_config_change-Tracks :
      (initial : ChannelConfig) (configs : List ChannelConfig)
      → Tracks (sets_of initial) [] configs (notify_on_config_change peer initial configs [])
  unfolding notify_on_config_change
  notify_on_config_change-Tracks initial configs = notify_loop-Tracks configs (sets_of initial) []
