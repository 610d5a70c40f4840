-- ===== src/Handler/SetGet.antt =====
-- The level of an input in a mix that a tool of mcp-server/src/handler.rs has set or adjusted is the
-- level that the next tool reads.
use mcp_server_allenheath_dl.Prelude.{◌≡◌, refl, sym, ap, ◌∙◌, ok}
use mcp_server_allenheath_dl.Prelude.Exec.{lift, ◌>>◌}
use mcp_server_allenheath_dl.Prelude.Hoare.{Runs, Runs-bind, Post-of, Post-ok, resume-ok}
use mcp_server_allenheath_dl.Channels.{Channel}
use mcp_server_allenheath_dl.Channels.Names.{ChannelName}
use mcp_server_allenheath_dl.Messages.{Level}
use mcp_server_allenheath_dl.Levels.{F32, LevelDelta, add_assign}
use mcp_server_allenheath_dl.Handler.{Watch, Calls, State, Tool, call, input_id, mix_id, get_client}
use mcp_server_allenheath_dl.Handler.Kept.{IsWatch}
use mcp_server_allenheath_dl.Handler.Seen.{Any}
use mcp_server_allenheath_dl.Handler.Ready.{
  IsReady, input_id_ready, mix_id_ready, get_client_ready, Runs-on_pair, Runs-call-IsReady,
}
use mcp_server_allenheath_dl.Handler.Tools.{
  InputLevelResponse, get_input_level, set_input_level, adjust_input_level,
}

-- What the tools need of the desk behind the client: it answers with the level that was set last.
pub record IsDesk {W : Type 0} (calls : Calls W) : Type 0 where
  pub send_level_kept :
      (c d : Channel) (level : Level) (w : W)
      → (calls.set_send_level c d level w).0 ≡ ok tt
      → (calls.send_level c d (calls.set_send_level c d level w).1).0 ≡ ok level
  pub fader_level_kept :
      (d : Channel) (level : Level) (w : W)
      → (calls.set_fader_level d level w).0 ≡ ok tt
      → (calls.fader_level d (calls.set_fader_level d level w).1).0 ≡ ok level

module _ (watch : Watch) (laws : IsWatch watch) {W : Type 0} (calls : Calls W)
    (input mix : ChannelName) where
  abbrev answer : Level → InputLevelResponse
  answer level = record { input = input; mix = mix; level = level }

  get_input_level_ready :
      (c d : Channel) (level : Level) (st : State watch) (w : W)
      → IsReady watch laws calls input mix c d (st, w)
      → (calls.send_level c d w).0 ≡ ok level
      → (get_input_level watch calls input mix (st, w)).0 ≡ ok (answer level)
  unfolding get_input_level
  get_input_level_ready c d level st w (seen, e, k, connected) told =
      rw
        (
          input_id_ready watch laws calls input c st w seen e,
          mix_id_ready watch laws calls mix d st w seen k,
          get_client_ready watch laws calls st w connected,
          told,
        )
        refl

  get_input_level_steps :
      (c d : Channel) (level : Level) (s s1 s2 s3 : State watch × W)
      → input_id watch calls input s ≡ (ok c, s1)
      → mix_id watch calls mix s1 ≡ (ok d, s2)
      → get_client watch calls s2 ≡ (ok tt, s3)
      → (calls.send_level c d s3.1).0 ≡ ok level
      → (get_input_level watch calls input mix s).0 ≡ ok (answer level)
  unfolding get_input_level
  get_input_level_steps c d level s s1 s2 s3 found mixed connected told =
      rw (found, mixed, connected, told) refl

  -- The tool that adjusts a level reads it first.
  get_input_level-before :
      (f : F32) (delta : LevelDelta f) (s : State watch × W) (r : InputLevelResponse)
      → (adjust_input_level watch calls f input mix delta s).0 ≡ ok r
      → (before : InputLevelResponse) × ((get_input_level watch calls input mix s).0 ≡ ok before)
        × (r.level ≡ add_assign f before.level delta)
  unfolding adjust_input_level
  get_input_level-before f delta s r e =
      let (c, s1, found, e1) = resume-ok _ (input_id watch calls input s) r e in
      let (d, s2, mixed, e2) = resume-ok _ (mix_id watch calls mix s1) r e1 in
      let (u, s3, connected, e3) = resume-ok _ (get_client watch calls s2) r e2 in
      let (level, s4, told, e4) = resume-ok _ (call watch calls (calls.send_level c d) s3) r e3 in
      let changed = add_assign f level delta in
      let (v, s5, set, e5) =
        resume-ok _ (call watch calls (calls.set_send_level c d changed) s4) r e4 in
      let same : answer changed ≡ r = cc in
      (
        answer level,
        get_input_level_steps c d level s s1 s2 s3 found mixed connected (ap (λ o. o.0) told),
        sym (ap (λ x. x.level) same),
      )

  module _ (desk : IsDesk calls) where
    -- The names are found again, and the desk has the level of the answer for their channels, which is
    -- a level as it should be.
    abbrev LevelIsSet : (Level → Type 0) → InputLevelResponse → State watch × W → Type 0
    LevelIsSet P r s =
        (c d : Channel) × IsReady watch laws calls input mix c d s
        × ((calls.send_level c d s.1).0 ≡ ok r.level)
        × (r ≡ answer r.level)
        × P r.level

    Runs-set :
        (P : Level → Type 0) (c d : Channel) (level : Level)
        → P level
        → Runs
            (λ s. IsReady watch laws calls input mix c d s)
            (call watch calls (calls.set_send_level c d level) >> lift (ok (answer level)))
            (LevelIsSet P)
            (Any watch laws calls)
    Runs-set P c d level p (st, w) ready =
        Runs-bind (λ s. s ≡ (st, w)) (λ u s. LevelIsSet P (answer level) s) (LevelIsSet P)
          (Any watch laws calls) (call watch calls (calls.set_send_level c d level)) _
          (λ s e. rw e (
            Post-of (λ u s'. LevelIsSet P (answer level) s') (Any watch laws calls)
              (call watch calls (calls.set_send_level c d level) (st, w)) tt
              (λ u done. (c, d, ready, desk.send_level_kept c d level w done, refl, p))))
          (λ u s set. set) (st, w) refl

    Runs-set_input_level :
        (level : Level)
        → Runs
            (Any watch laws calls)
            (set_input_level watch calls input mix level)
            (LevelIsSet (λ l. l ≡ level))
            (Any watch laws calls)
    unfolding set_input_level
    Runs-set_input_level level =
        Runs-on_pair watch laws calls input mix _ (LevelIsSet (λ l. l ≡ level))
          (λ c d. Runs-set (λ l. l ≡ level) c d level refl)

    Runs-adjust_input_level :
        (f : F32) (delta : LevelDelta f)
        → Runs
            (Any watch laws calls)
            (adjust_input_level watch calls f input mix delta)
            (LevelIsSet (λ l. Unit))
            (Any watch laws calls)
    unfolding adjust_input_level
    Runs-adjust_input_level f delta =
        Runs-on_pair watch laws calls input mix _ (LevelIsSet (λ l. Unit)) (λ c d.
          Runs-bind (λ s. IsReady watch laws calls input mix c d s)
            (λ level s. IsReady watch laws calls input mix c d s) (LevelIsSet (λ l. Unit))
            (Any watch laws calls) (call watch calls (calls.send_level c d)) _
            (Runs-call-IsReady watch laws calls input mix c d (calls.send_level c d))
            (λ level. Runs-set (λ l. Unit) c d (add_assign f level delta) tt))

    -- After a tool that sets the level, the next one reads it.
    get_input_level_after :
        (P : Level → Type 0) (m : Tool watch calls InputLevelResponse)
        → Runs (Any watch laws calls) m (LevelIsSet P) (Any watch laws calls)
        → (s : State watch × W) (r : InputLevelResponse) → (m s).0 ≡ ok r
        → ((get_input_level watch calls input mix (m s).1).0 ≡ ok r) × P r.level
    get_input_level_after P m h s r e =
        let (c, d, ready, told, same, p) =
          Post-ok (LevelIsSet P) (Any watch laws calls) (m s) r (h s tt) e in
        (get_input_level_ready c d r.level (m s).1.0 (m s).1.1 ready told ∙ ap ok (sym same), p)

    -- If the desk behind the client answers with the level that was set last, then after
    -- `set_input_level` has succeeded, from any state of the handler, `get_input_level` for the same
    -- names succeeds and gives the same answer, which has the level that was set.
    pub get_input_level-set_input_level :
        (level : Level) (s : State watch × W) (r : InputLevelResponse)
        → (set_input_level watch calls input mix level s).0 ≡ ok r
        → ((get_input_level watch calls input mix
              (set_input_level watch calls input mix level s).1).0
            ≡ ok r)
          × (r.level ≡ level)
    get_input_level-set_input_level level s r e =
        get_input_level_after (λ l. l ≡ level) (set_input_level watch calls input mix level)
          (Runs-set_input_level level) s r e

    -- If the desk behind the client answers with the level that was set last, then where
    -- `adjust_input_level` succeeds, in any state of the handler, `get_input_level` for the same names
    -- would have succeeded in its place; the level of the answer is the one that this would have told,
    -- with the delta added as `add_assign` does; and afterwards `get_input_level` gives the same answer.
    pub get_input_level-adjust_input_level :
        (f : F32) (delta : LevelDelta f) (s : State watch × W) (r : InputLevelResponse)
        → (adjust_input_level watch calls f input mix delta s).0 ≡ ok r
        → (before : InputLevelResponse) × ((get_input_level watch calls input mix s).0 ≡ ok before)
          × (r.level ≡ add_assign f before.level delta)
          × ((get_input_level watch calls input mix
                (adjust_input_level watch calls f input mix delta s).1).0
              ≡ ok r)
    get_input_level-adjust_input_level f delta s r e =
        let (before, told, added) = get_input_level-before f delta s r e in
        let after =
          get_input_level_after (λ l. Unit) (adjust_input_level watch calls f input mix delta)
            (Runs-adjust_input_level f delta) s r e in
        (before, told, added, after.0)
