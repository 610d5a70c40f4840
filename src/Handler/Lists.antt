-- ===== src/Handler/Lists.antt =====
-- `list_inputs` and `list_mixes` of mcp-server/src/handler.rs, as actions on the kept lists, the client
-- and what the client has done so far.
use mcp_server_allenheath_dl.Prelude.{
  ℕ, ◌≡◌, refl, sym, ap, ◌∙◌, inl, inr, Bool, true, false, List, [], ◌∷◌, ◌⊎◌, get_elem?, some, ok,
  length,
}
use mcp_server_allenheath_dl.Prelude.Exec.{Exec}
use mcp_server_allenheath_dl.Prelude.Hoare.{Post, Runs, Runs-bind, Post-of, Post-resume}
use mcp_server_allenheath_dl.Channels.{Channel}
use mcp_server_allenheath_dl.Channels.Names.{ChannelName}
use mcp_server_allenheath_dl.Messages.{Level}
use mcp_server_allenheath_dl.Args.Ranges.{iter_all}
use mcp_server_allenheath_dl.Args.Config.{ChannelConfig}
use mcp_server_allenheath_dl.Handler.{
  ChannelDetails, Watch, Calls, State, invalidate_if_changed, call, connect_unless, get_client,
  fetch_inputs, fetch_mixes, filled_inputs, filled_mixes, list_inputs, list_mixes,
}
use mcp_server_allenheath_dl.Handler.Kept.{
  IsWatch, internals, internals-details, Settled, Fresh, Settled-invalidate, borrow-invalidate,
}

-- A channel is one of a list.
abbrev pub IsOneOf : List Channel → Channel → Type 0
IsOneOf cs c = (i : ℕ) × (get_elem? cs i ≡ some c)

-- A property `V` of the client's world is kept by every call that is about channels of the
-- configuration, and names come one for each channel.
pub record IsConfined {W : Type 0} (calls : Calls W) (config : ChannelConfig) (V : W → Type 0)
    : Type 0 where
  pub new_keeps : (w : W) → V w → V (calls.new w).1
  pub names_keep :
      (cs : List Channel) (w : W)
      → (cs ≡ iter_all config.inputs) ⊎ (cs ≡ iter_all config.mixes)
      → V w
      → V (calls.channel_names cs w).1
  pub names_full :
      (cs : List Channel) (ns : List ChannelName) (w : W)
      → (calls.channel_names cs w).0 ≡ ok ns
      → length ns ≡ length cs
  pub send_level_keeps :
      (c d : Channel) (w : W)
      → IsOneOf (iter_all config.inputs) c
      → IsOneOf (iter_all config.mixes) d
      → V w
      → V (calls.send_level c d w).1
  pub set_send_level_keeps :
      (c d : Channel) (l : Level) (w : W)
      → IsOneOf (iter_all config.inputs) c
      → IsOneOf (iter_all config.mixes) d
      → V w
      → V (calls.set_send_level c d l w).1
  pub fader_level_keeps :
      (d : Channel) (w : W) → IsOneOf (iter_all config.mixes) d → V w → V (calls.fader_level d w).1
  pub set_fader_level_keeps :
      (d : Channel) (l : Level) (w : W)
      → IsOneOf (iter_all config.mixes) d
      → V w
      → V (calls.set_fader_level d l w).1

module _ (watch : Watch) {W : Type 0} (calls : Calls W) (config : ChannelConfig)
    (V : W → Type 0) where
  -- The receiver holds the configuration, the lists are right for it, and the world has the property.
  abbrev pub Inv : State watch × W → Type 0
  Inv (st, w) = (watch.borrow st.config_rx ≡ config) × Settled watch st × V w

  -- The same, but that the lists may be for an earlier configuration.
  abbrev pub Pre : State watch × W → Type 0
  Pre (st, w) = (watch.borrow st.config_rx ≡ config) × Fresh watch st × V w

  pub Inv-Pre : (s : State watch × W) → Inv s → Pre s
  Inv-Pre (st, w) (holds, settled, v) = (holds, inr settled, v)

  -- A call that keeps the property.
  pub Runs-call :
      {A : Type 0} (f : Exec W A)
      → ((w : W) → V w → V (f w).1)
      → Runs Inv (call watch calls f) (λ a s. Inv s) Inv
  Runs-call f keeps (st, w) (holds, settled, v) =
      Post-of (λ a s. Inv s) Inv (call watch calls f (st, w)) (holds, settled, keeps w v)
        (λ a e. (holds, settled, keeps w v))

module _ (watch : Watch) (laws : IsWatch watch) {W : Type 0} (calls : Calls W)
    (config : ChannelConfig) (V : W → Type 0) (confined : IsConfined calls config V) where
  abbrev I : State watch × W → Type 0
  I = Inv watch calls config V

  Runs-connect_unless : (client : Bool) → Runs I (connect_unless watch calls client) (λ u s. I s) I
  Runs-connect_unless true s inv = inv
  Runs-connect_unless false s inv =
      Runs-bind I (λ u s. I s) (λ u s. I s) I (call watch calls calls.new) _
        (Runs-call watch calls config V calls.new confined.new_keeps) (λ u s inv. inv) s inv

  pub Runs-get_client : Runs I (get_client watch calls) (λ u s. I s) I
  unfolding get_client
  Runs-get_client (st, w) inv = Runs-connect_unless st.client (st, w) inv

  -- The names that come back, one for each channel.
  Runs-names :
      (cs : List Channel)
      → (cs ≡ iter_all config.inputs) ⊎ (cs ≡ iter_all config.mixes)
      → Runs I (call watch calls (calls.channel_names cs)) (λ ns s. I s × (length ns ≡ length cs)) I
  Runs-names cs about (st, w) (holds, settled, v) =
      let after : I (st, (calls.channel_names cs w).1) =
        (holds, settled, confined.names_keep cs w about v) in
      Post-of (λ ns s. I s × (length ns ≡ length cs)) I
        (call watch calls (calls.channel_names cs) (st, w)) after
        (λ ns e. (after, confined.names_full cs ns w e))

  Runs-fetch_inputs :
      Runs I
        (fetch_inputs watch calls (iter_all config.inputs))
        (λ u s. I s × (internals s.0.inputs ≡ iter_all config.inputs))
        I
  unfolding fetch_inputs
  Runs-fetch_inputs =
      let cs = iter_all config.inputs in
      Runs-bind I (λ u s. I s) _ I (get_client watch calls) _ Runs-get_client
        (λ u.
          Runs-bind I (λ ns s. I s × (length ns ≡ length cs)) _ I
            (call watch calls (calls.channel_names cs)) _ (Runs-names cs (inl refl))
            (λ ns s ((holds, settled, v), full).
              let told = internals-details cs ns full in
              let right = ap (λ (c : ChannelConfig). iter_all c.inputs) holds in
              ((holds, (inr (told ∙ sym right), settled.1), v), told)))

  Runs-fetch_mixes :
      Runs I
        (fetch_mixes watch calls (iter_all config.mixes))
        (λ u s. I s × (internals s.0.mixes ≡ iter_all config.mixes))
        I
  unfolding fetch_mixes
  Runs-fetch_mixes =
      let cs = iter_all config.mixes in
      Runs-bind I (λ u s. I s) _ I (get_client watch calls) _ Runs-get_client
        (λ u.
          Runs-bind I (λ ns s. I s × (length ns ≡ length cs)) _ I
            (call watch calls (calls.channel_names cs)) _ (Runs-names cs (inr refl))
            (λ ns s ((holds, settled, v), full).
              let told = internals-details cs ns full in
              let right = ap (λ (c : ChannelConfig). iter_all c.mixes) holds in
              ((holds, (settled.0, inr (told ∙ sym right)), v), told)))

  Runs-filled_inputs :
      (ds : List ChannelDetails) (cs : List Channel) (s : State watch × W)
      → cs ≡ iter_all config.inputs
      → s.0.inputs ≡ ds
      → I s
      → Post
          (λ u s'. I s' × (internals s'.0.inputs ≡ iter_all config.inputs))
          I
          (filled_inputs watch calls ds cs s)
  Runs-filled_inputs [] cs s c e inv = rw c (Runs-fetch_inputs s inv)
  Runs-filled_inputs (d ∷ ds) cs s c e inv = elim inv.1.0 [
    | inl none_kept ↦ cc
    | inr same ↦ (inv, same ∙ ap (λ (c : ChannelConfig). iter_all c.inputs) inv.0)
  ]

  Runs-filled_mixes :
      (ds : List ChannelDetails) (cs : List Channel) (s : State watch × W)
      → cs ≡ iter_all config.mixes
      → s.0.mixes ≡ ds
      → I s
      → Post
          (λ u s'. I s' × (internals s'.0.mixes ≡ iter_all config.mixes))
          I
          (filled_mixes watch calls ds cs s)
  Runs-filled_mixes [] cs s c e inv = rw c (Runs-fetch_mixes s inv)
  Runs-filled_mixes (d ∷ ds) cs s c e inv = elim inv.1.1 [
    | inl none_kept ↦ cc
    | inr same ↦ (inv, same ∙ ap (λ (c : ChannelConfig). iter_all c.mixes) inv.0)
  ]

  invalidated :
      (s : State watch × W) → Pre watch calls config V s → I (invalidate_if_changed watch s.0, s.1)
  invalidated (st, w) (holds, fresh, v) =
      (borrow-invalidate watch laws st ∙ holds, Settled-invalidate watch st fresh, v)

  pub Runs-list_inputs :
      Runs
        (Pre watch calls config V)
        (list_inputs watch calls)
        (λ ds s. I s × (internals ds ≡ iter_all config.inputs))
        I
  unfolding list_inputs
  Runs-list_inputs s pre =
      let st = invalidate_if_changed watch s.0 in
      let inv = invalidated s pre in
      let cs = iter_all (watch.borrow st.config_rx).inputs in
      let right = ap (λ (c : ChannelConfig). iter_all c.inputs) inv.0 in
      Post-resume (λ u s'. I s' × (internals s'.0.inputs ≡ iter_all config.inputs))
        (λ ds s'. I s' × (internals ds ≡ iter_all config.inputs)) I (λ u s'. (ok s'.0.inputs, s'))
        (filled_inputs watch calls st.inputs cs (st, s.1)) (λ u s' p. p)
        (Runs-filled_inputs st.inputs cs (st, s.1) right refl inv)

  pub Runs-list_mixes :
      Runs
        (Pre watch calls config V)
        (list_mixes watch calls)
        (λ ds s. I s × (internals ds ≡ iter_all config.mixes))
        I
  unfolding list_mixes
  Runs-list_mixes s pre =
      let st = invalidate_if_changed watch s.0 in
      let inv = invalidated s pre in
      let cs = iter_all (watch.borrow st.config_rx).mixes in
      let right = ap (λ (c : ChannelConfig). iter_all c.mixes) inv.0 in
      Post-resume (λ u s'. I s' × (internals s'.0.mixes ≡ iter_all config.mixes))
        (λ ds s'. I s' × (internals ds ≡ iter_all config.mixes)) I (λ u s'. (ok s'.0.mixes, s'))
        (filled_mixes watch calls st.mixes cs (st, s.1)) (λ u s' p. p)
        (Runs-filled_mixes st.mixes cs (st, s.1) right refl inv)
