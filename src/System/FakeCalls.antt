-- ===== src/System/FakeCalls.antt =====
-- A desk for the tools of mcp-server/src/handler.rs to run on: the one of fake-dlive/src/main.rs, where
-- each message is handled at once, and the answer is the first that fits among what the desk writes.
-- This is no model of lib/src/client.rs, whose calls can miss an answer and time out: it is a value of
-- the interface `Calls`, for runs of the tools in which every answer comes.
use mcp_server_allenheath_dl.Prelude.{
  ◌≡◌, refl, ◌∙◌, List, [], ◌∷◌, ◌++◌, Option, none, some, Result, ok, err, receive_failed,
  request_timeout,
}
use mcp_server_allenheath_dl.Prelude.Exec.{Exec, lift, resume, ◌>>=◌}
use mcp_server_allenheath_dl.Channels.{Channel}
use mcp_server_allenheath_dl.Channels.Equality.{channel_eq_refl}
use mcp_server_allenheath_dl.Channels.Names.{ChannelName}
use mcp_server_allenheath_dl.Messages.{Message, send_level, fader_level}
use mcp_server_allenheath_dl.Client.{
  name_answer, send_level_answer, fader_level_answer, name_request, send_level_request,
  fader_level_request, set_send_level_request, set_fader_level_request,
}
use mcp_server_allenheath_dl.FakeDlive.{State, handle}
use mcp_server_allenheath_dl.Handler.{Calls}
use mcp_server_allenheath_dl.Handler.SetGet.{IsDesk}
use mcp_server_allenheath_dl.System.Asked.{send_level_answer_lem}

-- What the desk writes, message by message.
abbrev write : Message → Exec (List Message) (Unit {0})
write m log = (ok tt, log ++ m ∷ [])

-- A desk that has panicked closes the connection.
abbrev closed : Result (Unit {0}) → Result (Unit {0})
closed (ok _) = ok tt
closed _ = err receive_failed

abbrev tell : Message → Exec State (Unit {0})
tell m s = let (r, (s', _)) = handle write m (s, []) in (closed r, s')

abbrev pub first_answer : {T : Type 0} → (Message → Option T) → List Message → Result T
first_answer answer [] = err request_timeout
first_answer answer (m ∷ ms) = elim (answer m) [ some t ↦ ok t | none ↦ first_answer answer ms ]

abbrev pub ask : {T : Type 0} → (Message → Option T) → Message → Exec State T
ask answer m s =
    let (r, (s', log)) = handle write m (s, []) in
    resume (closed r) (λ _. lift (first_answer answer log)) s'

abbrev pub ask_names : List Channel → Exec State (List ChannelName)
ask_names [] = lift (ok [])
ask_names (c ∷ cs) =
    ask (name_answer c) (name_request c) >>= λ n. ask_names cs >>= λ ns. lift (ok (n ∷ ns))

abbrev pub fake_calls : Calls State
fake_calls = record {
  new = lift (ok tt);
  channel_names = ask_names;
  send_level = λ c d. ask (send_level_answer (c, d)) (send_level_request (c, d));
  set_send_level = λ c d level. tell (set_send_level_request c d level);
  fader_level = λ c. ask (fader_level_answer c) (fader_level_request c);
  set_fader_level = λ c level. tell (set_fader_level_request c level);
}

first_answer_found :
    {T : Type 0} (answer : Message → Option T) (m : Message) (ms : List Message) (t : T)
    → answer m ≡ some t
    → first_answer answer (m ∷ ms) ≡ ok t
first_answer_found answer m ms t e = rw (first_answer, e) refl

-- The desk answers with the level that was set last.
pub fake_calls-IsDesk : IsDesk fake_calls
unfolding handle
fake_calls-IsDesk = record {
  send_level_kept = λ c d level w done.
      let asked : (fake_calls.send_level c d (fake_calls.set_send_level c d level w).1).0
          ≡ first_answer (send_level_answer (c, d)) (send_level c d level ∷ []) =
        rw (channel_eq_refl c, channel_eq_refl d) refl in
      asked
      ∙ first_answer_found (send_level_answer (c, d)) (send_level c d level) [] level
          (send_level_answer_lem c d level);
  fader_level_kept = λ d level w done.
      let asked : (fake_calls.fader_level d (fake_calls.set_fader_level d level w).1).0
          ≡ first_answer (fader_level_answer d) (fader_level d level ∷ []) =
        rw (channel_eq_refl d) refl in
      asked
      ∙ first_answer_found (fader_level_answer d) (fader_level d level) [] level
          (rw (channel_eq_refl d) refl);
}
