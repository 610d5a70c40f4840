-- ===== src/Handler/Ready.antt =====
-- When the tools of mcp-server/src/handler.rs have nothing left to look up, and how they get there.
use mcp_server_allenheath_dl.Prelude.{◌≡◌, refl, sym, ap, ◌∙◌, true, List, [], ◌∷◌, ok}
use mathlib.Core.Path.{subst}
use mcp_server_allenheath_dl.Prelude.Exec.{Exec, ◌>>=◌, ◌>>◌}
use mcp_server_allenheath_dl.Prelude.Hoare.{Runs, Runs-bind, Post-mono}
use mcp_server_allenheath_dl.Channels.{Channel}
use mcp_server_allenheath_dl.Channels.Names.{ChannelName}
use mcp_server_allenheath_dl.Args.Ranges.{iter_all}
use mcp_server_allenheath_dl.Handler.{
  ChannelDetails, Watch, Calls, State, Tool, call, invalidate_if_changed, get_client, filled_inputs,
  filled_mixes, list_inputs, list_mixes, named, input_id, mix_id,
}
use mcp_server_allenheath_dl.Handler.Kept.{IsWatch}
use mcp_server_allenheath_dl.Handler.Seen.{
  S, IsSeen, Any, Holding, Runs-call_kept, invalidate_seen, invalidate-IsSeen, Runs-get_client_kept,
  Runs-input_id-IsSeen, Runs-mix_id_kept,
}

module _ (watch : Watch) (laws : IsWatch watch) {W : Type 0} (calls : Calls W) where
  -- Everything that the tools look up is there.
  abbrev pub IsReady : ChannelName → ChannelName → Channel → Channel → S watch laws calls → Type 0
  IsReady input mix c d s =
      IsSeen watch laws calls s.0.config_rx
      × (named input s.0.inputs ≡ ok c)
      × (named mix s.0.mixes ≡ ok d)
      × (s.0.client ≡ true)

  filled_inputs-named :
      (name : ChannelName) (c : Channel) (ds : List ChannelDetails) (cs : List Channel)
      (s : State watch × W)
      → named name ds ≡ ok c
      → filled_inputs watch calls ds cs s ≡ (ok tt, s)
  filled_inputs-named name c [] cs s e = cc
  filled_inputs-named name c (d ∷ ds) cs s e = refl

  filled_mixes-named :
      (name : ChannelName) (c : Channel) (ds : List ChannelDetails) (cs : List Channel)
      (s : State watch × W)
      → named name ds ≡ ok c
      → filled_mixes watch calls ds cs s ≡ (ok tt, s)
  filled_mixes-named name c [] cs s e = cc
  filled_mixes-named name c (d ∷ ds) cs s e = refl

  pub input_id_ready :
      (name : ChannelName) (c : Channel) (st : State watch) (w : W)
      → IsSeen watch laws calls st.config_rx
      → named name st.inputs ≡ ok c
      → input_id watch calls name (st, w) ≡ (ok c, (st, w))
  unfolding input_id list_inputs
  input_id_ready name c st w seen e =
      rw
        (
          invalidate_seen watch laws calls st seen,
          filled_inputs-named name c st.inputs (iter_all (watch.borrow st.config_rx).inputs) (st, w)
              e,
          e,
        )
        refl

  pub mix_id_ready :
      (name : ChannelName) (c : Channel) (st : State watch) (w : W)
      → IsSeen watch laws calls st.config_rx
      → named name st.mixes ≡ ok c
      → mix_id watch calls name (st, w) ≡ (ok c, (st, w))
  unfolding mix_id list_mixes
  mix_id_ready name c st w seen e =
      rw
        (
          invalidate_seen watch laws calls st seen,
          filled_mixes-named name c st.mixes (iter_all (watch.borrow st.config_rx).mixes) (st, w) e,
          e,
        )
        refl

  pub get_client_ready :
      (st : State watch) (w : W)
      → st.client ≡ true
      → get_client watch calls (st, w) ≡ (ok tt, (st, w))
  unfolding get_client
  get_client_ready st w e = rw e refl

  -- The mix is there, and the client.
  abbrev pub IsMixReady : ChannelName → Channel → S watch laws calls → Type 0
  IsMixReady mix d s =
      IsSeen watch laws calls s.0.config_rx × (named mix s.0.mixes ≡ ok d) × (s.0.client ≡ true)

  mix_id_invalidated :
      (name : ChannelName) (st : State watch) (w : W)
      → mix_id watch calls name (st, w)
        ≡ mix_id watch calls name (invalidate_if_changed watch st, w)
  unfolding mix_id list_mixes
  mix_id_invalidated name st w =
      rw
        (invalidate_seen watch laws calls (invalidate_if_changed watch st)
          (invalidate-IsSeen watch laws calls st))
        refl

  Runs-mix_id-IsSeen :
      (name : ChannelName)
      → Runs
          (Any watch laws calls)
          (mix_id watch calls name)
          (λ d s. IsSeen watch laws calls s.0.config_rx × (named name s.0.mixes ≡ ok d))
          (Any watch laws calls)
  Runs-mix_id-IsSeen name (st, w) h =
      let st' = invalidate_if_changed watch st in
      let seen = invalidate-IsSeen watch laws calls st in
      rw (mix_id_invalidated name st w) (
        Post-mono
          (λ d s.
            Holding watch laws calls st'.config_rx st'.inputs s × (named name s.0.mixes ≡ ok d))
          (λ d s. IsSeen watch laws calls s.0.config_rx × (named name s.0.mixes ≡ ok d))
          (Any watch laws calls) (Any watch laws calls) (mix_id watch calls name (st', w))
          (λ d s (k, e). (subst (IsSeen watch laws calls) (sym k.0) seen, e)) (λ s u. u)
          (Runs-mix_id_kept watch laws calls st'.config_rx st'.inputs seen name (st', w)
            (refl, refl)))

  -- From any state, the tools get to where all is there, if they get on.
  pub Runs-on_pair :
      {A : Type 0} (input mix : ChannelName) (rest : Channel → Channel → Tool watch calls A)
      (Q : A → State watch × W → Type 0)
      → ((c d : Channel) → Runs (λ s. IsReady input mix c d s) (rest c d) Q (Any watch laws calls))
      → Runs
          (Any watch laws calls)
          (input_id watch calls input >>= λ c.
            mix_id watch calls mix >>= λ d. get_client watch calls >> rest c d)
          Q
          (Any watch laws calls)
  Runs-on_pair input mix rest Q h =
      let Nothing = Any watch laws calls in
      Runs-bind Nothing
        (λ c s. IsSeen watch laws calls s.0.config_rx × (named input s.0.inputs ≡ ok c)) Q Nothing
        (input_id watch calls input) _ (Runs-input_id-IsSeen watch laws calls input)
        (λ c s (seen, e).
          let H = Holding watch laws calls s.0.config_rx s.0.inputs in
          Runs-bind H (λ d s'. H s' × (named mix s'.0.mixes ≡ ok d)) Q Nothing
            (mix_id watch calls mix) _
            (Runs-mix_id_kept watch laws calls s.0.config_rx s.0.inputs seen mix)
            (λ d s' (k, e').
              let P = λ (r : watch.Receiver) (is ms : List ChannelDetails).
                IsSeen watch laws calls r × (named input is ≡ ok c) × (named mix ms ≡ ok d) in
              Runs-bind (λ s''. P s''.0.config_rx s''.0.inputs s''.0.mixes)
                (λ u s''. P s''.0.config_rx s''.0.inputs s''.0.mixes × (s''.0.client ≡ true)) Q
                Nothing (get_client watch calls) _ (Runs-get_client_kept watch laws calls P)
                (λ u s'' ((seen', c', d'), connected). h c d s'' (seen', c', d', connected)) s'
                (subst (IsSeen watch laws calls) (sym k.0) seen, ap (named input) k.1 ∙ e, e'))
            s (refl, refl))

  pub Runs-on_mix :
      {A : Type 0} (mix : ChannelName) (rest : Channel → Tool watch calls A)
      (Q : A → State watch × W → Type 0)
      → ((d : Channel) → Runs (λ s. IsMixReady mix d s) (rest d) Q (Any watch laws calls))
      → Runs
          (Any watch laws calls)
          (mix_id watch calls mix >>= λ d. get_client watch calls >> rest d)
          Q
          (Any watch laws calls)
  Runs-on_mix mix rest Q h =
      let Nothing = Any watch laws calls in
      Runs-bind Nothing
        (λ d s. IsSeen watch laws calls s.0.config_rx × (named mix s.0.mixes ≡ ok d)) Q Nothing
        (mix_id watch calls mix) _ (Runs-mix_id-IsSeen mix)
        (λ d s found.
          let P = λ (r : watch.Receiver) (is ms : List ChannelDetails).
            IsSeen watch laws calls r × (named mix ms ≡ ok d) in
          Runs-bind (λ s'. P s'.0.config_rx s'.0.inputs s'.0.mixes)
            (λ u s'. P s'.0.config_rx s'.0.inputs s'.0.mixes × (s'.0.client ≡ true)) Q Nothing
            (get_client watch calls) _ (Runs-get_client_kept watch laws calls P)
            (λ u s' ((seen, d'), connected). h d s' (seen, d', connected)) s found)

  -- A call leaves all of it.
  pub Runs-call-IsReady :
      {A : Type 0} (input mix : ChannelName) (c d : Channel) (f : Exec W A)
      → Runs
          (λ s. IsReady input mix c d s)
          (call watch calls f)
          (λ a s. IsReady input mix c d s)
          (Any watch laws calls)
  Runs-call-IsReady input mix c d f =
      Runs-call_kept watch laws calls
        (λ st.
          IsSeen watch laws calls st.config_rx
          × (named input st.inputs ≡ ok c)
          × (named mix st.mixes ≡ ok d)
          × (st.client ≡ true))
        f

  pub Runs-call-IsMixReady :
      {A : Type 0} (mix : ChannelName) (d : Channel) (f : Exec W A)
      → Runs
          (λ s. IsMixReady mix d s)
          (call watch calls f)
          (λ a s. IsMixReady mix d s)
          (Any watch laws calls)
  Runs-call-IsMixReady mix d f =
      Runs-call_kept watch laws calls
        (λ st.
          IsSeen watch laws calls st.config_rx × (named mix st.mixes ≡ ok d) × (st.client ≡ true))
        f
