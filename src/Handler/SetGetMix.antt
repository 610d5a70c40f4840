-- ===== src/Handler/SetGetMix.antt =====
-- The level of a mix that a tool of mcp-server/src/handler.rs has set or adjusted is the
-- level that the next tool reads.
use mcp_server_allenheath_dl.Prelude.{◌≡◌, refl, sym, ap, ◌∙◌, ok}
use mcp_server_allenheath_dl.Prelude.Exec.{lift, ◌>>◌}
use mcp_server_allenheath_dl.Prelude.Hoare.{Runs, Runs-bind, Post-of, Post-ok}
use mcp_server_allenheath_dl.Channels.{Channel}
use mcp_server_allenheath_dl.Channels.Names.{ChannelName}
use mcp_server_allenheath_dl.Messages.{Level}
use mcp_server_allenheath_dl.Levels.{F32, LevelDelta, add_assign}
use mcp_server_allenheath_dl.Handler.{Watch, Calls, State, Tool, call}
use mcp_server_allenheath_dl.Handler.Kept.{IsWatch}
use mcp_server_allenheath_dl.Handler.Seen.{Any}
use mcp_server_allenheath_dl.Handler.SetGet.{IsDesk}
use mcp_server_allenheath_dl.Handler.Ready.{
  IsMixReady, mix_id_ready, get_client_ready, Runs-on_mix, Runs-call-IsMixReady,
}
use mcp_server_allenheath_dl.Handler.Tools.{
  MixLevelResponse, get_mix_level, set_mix_level, adjust_mix_level,
}

module _ (watch : Watch) (laws : IsWatch watch) {W : Type 0} (calls : Calls W)
    (mix : ChannelName) where
  abbrev answer : Level → MixLevelResponse
  answer level = record { mix = mix; level = level }

  get_mix_level_ready :
      (d : Channel) (level : Level) (st : State watch) (w : W)
      → IsMixReady watch laws calls mix d (st, w)
      → (calls.fader_level d w).0 ≡ ok level
      → (get_mix_level watch calls mix (st, w)).0 ≡ ok (answer level)
  unfolding get_mix_level
  get_mix_level_ready d level st w (seen, k, connected) told =
      rw
        (
          mix_id_ready watch laws calls mix d st w seen k,
          get_client_ready watch laws calls st w connected,
          told,
        )
        refl

  module _ (desk : IsDesk calls) where
    -- The name is found again, and the desk has the level of the answer for its channel, which is
    -- a level as it should be.
    abbrev LevelIsSet : (Level → Type 0) → MixLevelResponse → State watch × W → Type 0
    LevelIsSet P r s =
        (d : Channel) × IsMixReady watch laws calls mix d s
        × ((calls.fader_level d s.1).0 ≡ ok r.level)
        × (r ≡ answer r.level)
        × P r.level

    Runs-set :
        (P : Level → Type 0) (d : Channel) (level : Level)
        → P level
        → Runs
            (λ s. IsMixReady watch laws calls mix d s)
            (call watch calls (calls.set_fader_level d level) >> lift (ok (answer level)))
            (LevelIsSet P)
            (Any watch laws calls)
    Runs-set P d level p (st, w) ready =
        Runs-bind (λ s. s ≡ (st, w)) (λ u s. LevelIsSet P (answer level) s) (LevelIsSet P)
          (Any watch laws calls) (call watch calls (calls.set_fader_level d level)) _
          (λ s e. rw e (
            Post-of (λ u s'. LevelIsSet P (answer level) s') (Any watch laws calls)
              (call watch calls (calls.set_fader_level d level) (st, w)) tt
              (λ u done. (d, ready, desk.fader_level_kept d level w done, refl, p))))
          (λ u s set. set) (st, w) refl

    Runs-set_mix_level :
        (level : Level)
        → Runs
            (Any watch laws calls)
            (set_mix_level watch calls mix level)
            (LevelIsSet (λ l. l ≡ level))
            (Any watch laws calls)
    unfolding set_mix_level
    Runs-set_mix_level level =
        Runs-on_mix watch laws calls mix _ (LevelIsSet (λ l. l ≡ level))
          (λ d. Runs-set (λ l. l ≡ level) d level refl)

    Runs-adjust_mix_level :
        (f : F32) (delta : LevelDelta f)
        → Runs
            (Any watch laws calls)
            (adjust_mix_level watch calls f mix delta)
            (LevelIsSet (λ l. Unit))
            (Any watch laws calls)
    unfolding adjust_mix_level
    Runs-adjust_mix_level f delta =
        Runs-on_mix watch laws calls mix _ (LevelIsSet (λ l. Unit)) (λ d.
          Runs-bind (λ s. IsMixReady watch laws calls mix d s)
            (λ level s. IsMixReady watch laws calls mix d s) (LevelIsSet (λ l. Unit))
            (Any watch laws calls) (call watch calls (calls.fader_level d)) _
            (Runs-call-IsMixReady watch laws calls mix d (calls.fader_level d))
            (λ level. Runs-set (λ l. Unit) d (add_assign f level delta) tt))

    -- After a tool that sets the level, the next one reads it.
    get_mix_level_after :
        (P : Level → Type 0) (m : Tool watch calls MixLevelResponse)
        → Runs (Any watch laws calls) m (LevelIsSet P) (Any watch laws calls)
        → (s : State watch × W) (r : MixLevelResponse) → (m s).0 ≡ ok r
        → ((get_mix_level watch calls mix (m s).1).0 ≡ ok r) × P r.level
    get_mix_level_after P m h s r e =
        let (d, ready, told, same, p) =
          Post-ok (LevelIsSet P) (Any watch laws calls) (m s) r (h s tt) e in
        (get_mix_level_ready d r.level (m s).1.0 (m s).1.1 ready told ∙ ap ok (sym same), p)

    -- If the desk behind the client answers with the level that was set last, then after
    -- `set_mix_level` has succeeded, from any state of the handler, `get_mix_level` for the same
    -- name succeeds and gives the same answer, which has the level that was set.
    pub get_mix_level-set_mix_level :
        (level : Level) (s : State watch × W) (r : MixLevelResponse)
        → (set_mix_level watch calls mix level s).0 ≡ ok r
        → ((get_mix_level watch calls mix (set_mix_level watch calls mix level s).1).0 ≡ ok r)
          × (r.level ≡ level)
    get_mix_level-set_mix_level level s r e =
        get_mix_level_after (λ l. l ≡ level) (set_mix_level watch calls mix level)
          (Runs-set_mix_level level) s r e

    -- If the desk behind the client answers with the level that was set last, then after
    -- `adjust_mix_level` has succeeded, from any state of the handler, `get_mix_level` for the
    -- same name succeeds and gives the same answer.
    get_mix_level-adjust_mix_level :
        (f : F32) (delta : LevelDelta f) (s : State watch × W) (r : MixLevelResponse)
        → (adjust_mix_level watch calls f mix delta s).0 ≡ ok r
        → (get_mix_level watch calls mix (adjust_mix_level watch calls f mix delta s).1).0 ≡ ok r
    get_mix_level-adjust_mix_level f delta s r e =
        (get_mix_level_after (λ l. Unit) (adjust_mix_level watch calls f mix delta)
          (Runs-adjust_mix_level f delta) s r e).0
