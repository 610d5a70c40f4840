-- ===== src/Handler/Adjust.antt =====
-- Adjusting a level in mcp-server/src/handler.rs.
use mcp_server_allenheath_dl.Prelude.{◌≡◌, Result, ok, err, panic, stuck, Holds, Holds-ok}
use mcp_server_allenheath_dl.Prelude.Exec.{Exec, resume, ◌>>=◌}
use mcp_server_allenheath_dl.Channels.Names.{ChannelName}
use mcp_server_allenheath_dl.MidiStream.{IsU7}
use mcp_server_allenheath_dl.Levels.{F32, IsF32, LevelDelta, add_assign, add_assign-U7}
use mcp_server_allenheath_dl.Handler.{Watch, Calls, State, call, get_client, input_id, mix_id}
use mcp_server_allenheath_dl.Handler.Tools.{
  InputLevelResponse, MixLevelResponse, adjust_input_level, adjust_mix_level,
}

-- What an action returns from any state, if it returns.
abbrev Gives : {S A : Type 0} → (A → Type 0) → Exec S A → Type 0
Gives {S} P m = (s : S) → Holds P (m s).0

Holds-resume :
    {S A B : Type 0} (P : B → Type 0) (r : Result A) (f : A → Exec S B) (s : S)
    → ((a : A) → Gives P (f a))
    → Holds P (resume r f s).0
Holds-resume P (ok a) f s h = h a s
Holds-resume P (err e) f s h = tt
Holds-resume P panic f s h = tt
Holds-resume P stuck f s h = tt

Gives-bind :
    {S A B : Type 0} (P : B → Type 0) (m : Exec S A) (f : A → Exec S B)
    → ((a : A) → Gives P (f a))
    → Gives P (m >>= f)
Gives-bind P m f h s = Holds-resume P (m s).0 f (m s).1 h

module _ (watch : Watch) {W : Type 0} (calls : Calls W) (f : F32) (laws : IsF32 f) where
  adjust_input_level-Gives :
      (input mix : ChannelName) (delta : LevelDelta f)
      → Gives
          (λ (r : InputLevelResponse). IsU7 r.level.value)
          (adjust_input_level watch calls f input mix delta)
  unfolding adjust_input_level
  adjust_input_level-Gives input mix delta =
      let P = λ (r : InputLevelResponse). IsU7 r.level.value in
      Gives-bind P (input_id watch calls input) _ (λ c.
        Gives-bind P (mix_id watch calls mix) _ (λ d. Gives-bind P (get_client watch calls) _ (λ u.
          Gives-bind P (call watch calls (calls.send_level c d)) _ (λ level.
            Gives-bind P (call watch calls (calls.set_send_level c d (add_assign f level delta))) _
              (λ done s. add_assign-U7 f laws level delta)))))

  adjust_mix_level-Gives :
      (mix : ChannelName) (delta : LevelDelta f)
      → Gives
          (λ (r : MixLevelResponse). IsU7 r.level.value)
          (adjust_mix_level watch calls f mix delta)
  unfolding adjust_mix_level
  adjust_mix_level-Gives mix delta =
      let P = λ (r : MixLevelResponse). IsU7 r.level.value in
      Gives-bind P (mix_id watch calls mix) _ (λ d. Gives-bind P (get_client watch calls) _ (λ u.
        Gives-bind P (call watch calls (calls.fader_level d)) _ (λ level.
          Gives-bind P (call watch calls (calls.set_fader_level d (add_assign f level delta))) _
            (λ done s. add_assign-U7 f laws level delta))))

  -- If adjusting the level of an input in a mix succeeds, the level that is returned is at most 127,
  -- whatever level the client read and whatever the amount.
  adjust_input_level-IsU7 :
      (input mix : ChannelName) (delta : LevelDelta f) (s : State watch × W)
      (r : InputLevelResponse)
      → (adjust_input_level watch calls f input mix delta s).0 ≡ ok r
      → IsU7 r.level.value
  adjust_input_level-IsU7 input mix delta s r e =
      Holds-ok (λ (r' : InputLevelResponse). IsU7 r'.level.value)
        (adjust_input_level watch calls f input mix delta s).0 r
        (adjust_input_level-Gives input mix delta s) e

  -- If adjusting the level of a mix succeeds, the level that is returned is at most 127,
  -- whatever level the client read and whatever the amount.
  adjust_mix_level-IsU7 :
      (mix : ChannelName) (delta : LevelDelta f) (s : State watch × W) (r : MixLevelResponse)
      → (adjust_mix_level watch calls f mix delta s).0 ≡ ok r
      → IsU7 r.level.value
  adjust_mix_level-IsU7 mix delta s r e =
      Holds-ok (λ (r' : MixLevelResponse). IsU7 r'.level.value)
        (adjust_mix_level watch calls f mix delta s).0 r (adjust_mix_level-Gives mix delta s) e
