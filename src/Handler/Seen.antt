-- ===== src/Handler/Seen.antt =====
-- The state of mcp-server/src/handler.rs once a name has been looked up: the configuration is seen, and
-- the lists are kept for the next look.
use mcp_server_allenheath_dl.Prelude.{
  ◌≡◌, refl, sym, ap, ◌∙◌, Bool, true, false, Bool-cases, inl, inr, List, [], ◌∷◌, ok,
}
use mathlib.Core.Path.{subst}
use mcp_server_allenheath_dl.Prelude.Exec.{Exec, lift}
use mcp_server_allenheath_dl.Prelude.Hoare.{Post, Runs, Runs-bind, Post-of, Post-resume}
use mcp_server_allenheath_dl.Channels.{Channel}
use mcp_server_allenheath_dl.Channels.Names.{ChannelName}
use mcp_server_allenheath_dl.Args.Ranges.{iter_all}
use mcp_server_allenheath_dl.Handler.{
  ChannelDetails, Watch, Calls, State, unwrap_or_false, invalidate_if_changed, call, connect_unless,
  get_client, fetch_inputs, fetch_mixes, filled_inputs, filled_mixes, list_inputs, list_mixes,
  named, input_id, mix_id,
}
use mcp_server_allenheath_dl.Handler.Kept.{IsWatch}

module _ (watch : Watch) (laws : IsWatch watch) {W : Type 0} (calls : Calls W) where
  abbrev pub S : Type 0
  S = State watch × W

  -- The configuration that the receiver holds is not new.
  abbrev pub IsSeen : watch.Receiver → Type 0
  IsSeen rx = unwrap_or_false (watch.has_changed rx) ≡ false

  pub invalidate-IsSeen : (st : State watch) → IsSeen (invalidate_if_changed watch st).config_rx
  unfolding invalidate_if_changed
  invalidate-IsSeen st = elim (Bool-cases (unwrap_or_false (watch.has_changed st.config_rx))) [
    | inl changed ↦ rw (changed, laws.marked st.config_rx) refl
    | inr same ↦ rw (same, same) refl
  ]

  pub invalidate_seen :
      (st : State watch) → IsSeen st.config_rx → invalidate_if_changed watch st ≡ st
  unfolding invalidate_if_changed
  invalidate_seen st seen = rw seen refl

  abbrev pub Any : S → Type 0
  Any s = Unit

  -- A call leaves the state.
  pub Runs-call_kept :
      {A : Type 0} (P : State watch → Type 0) (f : Exec W A)
      → Runs (λ s. P s.0) (call watch calls f) (λ a s. P s.0) Any
  Runs-call_kept P f (st, w) p =
      Post-of (λ a s. P s.0) Any (call watch calls f (st, w)) tt (λ a e. p)

  -- A property of the receiver and of the lists is kept when a client is made.
  module _ (P : watch.Receiver → List ChannelDetails → List ChannelDetails → Type 0) where
    abbrev On : State watch → Type 0
    On st = P st.config_rx st.inputs st.mixes

    Post-connect_unless :
        (client : Bool) (s : S)
        → s.0.client ≡ client
        → On s.0
        → Post (λ u s'. On s'.0 × (s'.0.client ≡ true)) Any (connect_unless watch calls client s)
    Post-connect_unless true s e p = (p, e)
    Post-connect_unless false s e p =
        Runs-bind (λ s'. On s'.0) (λ u s'. On s'.0) (λ u s'. On s'.0 × (s'.0.client ≡ true)) Any
          (call watch calls calls.new) _ (Runs-call_kept On calls.new) (λ u s' p'. (p', refl)) s p

    pub Runs-get_client_kept :
        Runs (λ s. On s.0) (get_client watch calls) (λ u s. On s.0 × (s.0.client ≡ true)) Any
    unfolding get_client
    Runs-get_client_kept s p = Post-connect_unless s.0.client s refl p

  -- The receiver, and the inputs that are kept.
  abbrev pub Holding : watch.Receiver → List ChannelDetails → S → Type 0
  Holding rx inputs s = (s.0.config_rx ≡ rx) × (s.0.inputs ≡ inputs)

  module _ (rx : watch.Receiver) (inputs : List ChannelDetails) where
    Runs-fetch_mixes_kept :
        (cs : List Channel)
        → Runs (Holding rx inputs) (fetch_mixes watch calls cs) (λ u s. Holding rx inputs s) Any
    unfolding fetch_mixes
    Runs-fetch_mixes_kept cs =
        let H = Holding rx inputs in
        Runs-bind H (λ u s. H s × (s.0.client ≡ true)) (λ u s. H s) Any (get_client watch calls) _
          (Runs-get_client_kept (λ r is ms. (r ≡ rx) × (is ≡ inputs)))
          (λ u s (h, _).
            Runs-bind H (λ ns s'. H s') (λ u' s'. H s') Any
              (call watch calls (calls.channel_names cs)) _
              (Runs-call_kept (λ st. (st.config_rx ≡ rx) × (st.inputs ≡ inputs))
                (calls.channel_names cs))
              (λ ns s' h'. h') s h)

    Runs-filled_mixes_kept :
        (ds : List ChannelDetails) (cs : List Channel)
        → Runs (Holding rx inputs) (filled_mixes watch calls ds cs) (λ u s. Holding rx inputs s) Any
    Runs-filled_mixes_kept [] cs s h = Runs-fetch_mixes_kept cs s h
    Runs-filled_mixes_kept (d ∷ ds) cs s h = h

    pub Runs-mix_id_kept :
        IsSeen rx
        → (name : ChannelName)
        → Runs
            (Holding rx inputs)
            (mix_id watch calls name)
            (λ d s. Holding rx inputs s × (named name s.0.mixes ≡ ok d))
            Any
    unfolding mix_id list_mixes
    Runs-mix_id_kept seen name (st, w) h =
        let H = Holding rx inputs in
        let Q = λ (d : Channel) (s : S). H s × (named name s.0.mixes ≡ ok d) in
        let same = invalidate_seen st (subst IsSeen (sym h.0) seen) in
        let listed : Post (λ ds s. H s × (ds ≡ s.0.mixes)) Any (list_mixes watch calls (st, w)) =
          rw same (
            Post-resume (λ u s. H s) (λ ds s. H s × (ds ≡ s.0.mixes)) Any
              (λ u (st', w'). (ok st'.mixes, (st', w')))
              (filled_mixes watch calls st.mixes (iter_all (watch.borrow st.config_rx).mixes)
                (st, w))
              (λ u s k. (k, refl))
              (Runs-filled_mixes_kept st.mixes (iter_all (watch.borrow st.config_rx).mixes) (st, w)
                h)) in
        Post-resume (λ ds s. H s × (ds ≡ s.0.mixes)) Q Any (λ ds. lift (named name ds))
          (list_mixes watch calls (st, w))
          (λ ds s (k, told).
            Post-of Q Any (named name ds, s) tt (λ d e. (k, ap (named name) (sym told) ∙ e)))
          listed

  Runs-fetch_inputs_seen :
      (rx : watch.Receiver) (cs : List Channel)
      → Runs (λ s. s.0.config_rx ≡ rx) (fetch_inputs watch calls cs) (λ u s. s.0.config_rx ≡ rx) Any
  unfolding fetch_inputs
  Runs-fetch_inputs_seen rx cs =
      let H : S → Type 0 = λ s. s.0.config_rx ≡ rx in
      Runs-bind H (λ u s. H s × (s.0.client ≡ true)) (λ u s. H s) Any (get_client watch calls) _
        (Runs-get_client_kept (λ r is ms. r ≡ rx))
        (λ u s (h, _).
          Runs-bind H (λ ns s'. H s') (λ u' s'. H s') Any
            (call watch calls (calls.channel_names cs)) _
            (Runs-call_kept (λ st. st.config_rx ≡ rx) (calls.channel_names cs)) (λ ns s' h'. h') s
            h)

  Runs-filled_inputs_seen :
      (rx : watch.Receiver) (ds : List ChannelDetails) (cs : List Channel)
      → Runs
          (λ s. s.0.config_rx ≡ rx)
          (filled_inputs watch calls ds cs)
          (λ u s. s.0.config_rx ≡ rx)
          Any
  Runs-filled_inputs_seen rx [] cs s h = Runs-fetch_inputs_seen rx cs s h
  Runs-filled_inputs_seen rx (d ∷ ds) cs s h = h

  -- From any state, after an input is found the configuration is seen, and the input is found again in
  -- the list that is kept.
  pub Runs-input_id-IsSeen :
      (name : ChannelName)
      → Runs Any
          (input_id watch calls name)
          (λ c s. IsSeen s.0.config_rx × (named name s.0.inputs ≡ ok c))
          Any
  unfolding input_id list_inputs
  Runs-input_id-IsSeen name (st, w) h =
      let st' = invalidate_if_changed watch st in
      let H : S → Type 0 = λ s. s.0.config_rx ≡ st'.config_rx in
      let Q = λ (c : Channel) (s : S). IsSeen s.0.config_rx × (named name s.0.inputs ≡ ok c) in
      let seen = invalidate-IsSeen st in
      let cs = iter_all (watch.borrow st'.config_rx).inputs in
      let listed : Post (λ ds s. H s × (ds ≡ s.0.inputs)) Any (list_inputs watch calls (st, w)) =
        Post-resume (λ u s. H s) (λ ds s. H s × (ds ≡ s.0.inputs)) Any
          (λ u (st', w'). (ok st'.inputs, (st', w')))
          (filled_inputs watch calls st'.inputs cs (st', w)) (λ u s k. (k, refl))
          (Runs-filled_inputs_seen st'.config_rx st'.inputs cs (st', w) refl) in
      Post-resume (λ ds s. H s × (ds ≡ s.0.inputs)) Q Any (λ ds. lift (named name ds))
        (list_inputs watch calls (st, w))
        (λ ds s (k, told).
          Post-of Q Any (named name ds, s) tt
            (λ c e. (subst IsSeen (sym k) seen, ap (named name) (sym told) ∙ e)))
        listed
