-- ===== src/Handler/Lookup.antt =====
-- Looking a name up in mcp-server/src/handler.rs.
use mcp_server_allenheath_dl.Prelude.{
  zero, suc, ◌≡◌, refl, ap, inl, inr, List, [], ◌∷◌, some, Result, ok, length, Bool-cases,
}
use mathlib.Core.Path.{subst}
use mcp_server_allenheath_dl.Channels.{Channel}
use mcp_server_allenheath_dl.Channels.Names.{ChannelName, name_eq}
use mcp_server_allenheath_dl.Args.Ranges.{iter_all}
use mcp_server_allenheath_dl.Handler.{
  ChannelDetails, Watch, Calls, State, list_inputs, list_mixes, named, input_id, mix_id,
}
use mcp_server_allenheath_dl.Handler.Kept.{IsWatch, Fresh, internals}
use mcp_server_allenheath_dl.Handler.Lists.{
  IsOneOf, IsConfined, Inv, Pre, Runs-list_inputs, Runs-list_mixes,
}
use mcp_server_allenheath_dl.Handler.Fresh.{anywhere}
use mcp_server_allenheath_dl.Prelude.Hoare.{Runs, Runs-bind, Post-of, Post-ok}
use mcp_server_allenheath_dl.Args.Config.{ChannelConfig}

ok_injective : {c d : Channel} → ◌≡◌ {A = Result Channel} (ok c) (ok d) → c ≡ d
ok_injective e = cc

named_sound :
    (name : ChannelName) (ds : List ChannelDetails) (c : Channel)
    → named name ds ≡ ok c
    → IsOneOf (internals ds) c
named_sound name [] c e = cc
named_sound name (d ∷ ds) c e = elim (Bool-cases (name_eq d.name name)) [
  | inl same ↦ (zero, ap some (ok_injective (rw (named, same) at e)))
  | inr other ↦ let (i, h) = named_sound name ds c (rw (named, other) at e) in (suc i, h)
]

module _ (watch : Watch) (laws : IsWatch watch) {W : Type 0} (calls : Calls W)
    (config : ChannelConfig) (V : W → Type 0) (confined : IsConfined calls config V) where
  abbrev I : State watch × W → Type 0
  I = Inv watch calls config V

  pub Runs-input_id :
      (name : ChannelName)
      → Runs
          (Pre watch calls config V)
          (input_id watch calls name)
          (λ c s. I s × IsOneOf (iter_all config.inputs) c)
          I
  unfolding input_id
  Runs-input_id name =
      Runs-bind (Pre watch calls config V) (λ ds s. I s × (internals ds ≡ iter_all config.inputs)) _
        I (list_inputs watch calls) _ (Runs-list_inputs watch laws calls config V confined)
        (λ ds s (inv, told).
          Post-of (λ c s'. I s' × IsOneOf (iter_all config.inputs) c) I (named name ds, s) inv
            (λ c e. (inv, subst (λ l. IsOneOf l c) told (named_sound name ds c e))))

  pub Runs-mix_id :
      (name : ChannelName)
      → Runs
          (Pre watch calls config V)
          (mix_id watch calls name)
          (λ c s. I s × IsOneOf (iter_all config.mixes) c)
          I
  unfolding mix_id
  Runs-mix_id name =
      Runs-bind (Pre watch calls config V) (λ ds s. I s × (internals ds ≡ iter_all config.mixes)) _
        I (list_mixes watch calls) _ (Runs-list_mixes watch laws calls config V confined)
        (λ ds s (inv, told).
          Post-of (λ c s'. I s' × IsOneOf (iter_all config.mixes) c) I (named name ds, s) inv
            (λ c e. (inv, subst (λ l. IsOneOf l c) told (named_sound name ds c e))))

module _ (watch : Watch) (laws : IsWatch watch) {W : Type 0} (calls : Calls W)
    (full : (cs : List Channel) (ns : List ChannelName) (w : W)
      → (calls.channel_names cs w).0 ≡ ok ns
      → length ns ≡ length cs) where
  -- If the kept lists are fresh, and a call of `channel_names` that succeeds has one name for each
  -- channel, then the channel that a name is resolved to is an input of the configuration that the
  -- receiver holds.
  input_id-IsOneOf :
      (name : ChannelName) (st : State watch) (w : W) (c : Channel)
      → Fresh watch st
      → (input_id watch calls name (st, w)).0 ≡ ok c
      → IsOneOf (iter_all (watch.borrow st.config_rx).inputs) c
  input_id-IsOneOf name st w c h e =
      let config = watch.borrow st.config_rx in
      (Post-ok
        (λ c' s'. Inv watch calls config (λ w'. Unit) s' × IsOneOf (iter_all config.inputs) c')
        (Inv watch calls config (λ w'. Unit)) (input_id watch calls name (st, w)) c
        (Runs-input_id watch laws calls config (λ w'. Unit) (anywhere calls full config) name
          (st, w) (refl, h, tt))
        e).1
