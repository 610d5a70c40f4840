-- ===== src/Tests/Client.antt =====
-- The theorems on lib/src/client.rs at concrete runs.
use mcp_server_allenheath_dl.Prelude.{
  map, All, zero, Result, err, midi_error, arith, ℕ, ◌==◌, ◌≡◌, refl, List, [], ◌∷◌, ◌++◌, some, ok,
  if◌then◌else◌, suc, length, replicate, request_timeout, get_elem?,
}
use mcp_server_allenheath_dl.Text.{codes}
use mcp_server_allenheath_dl.Channels.{Channel, input}
use mcp_server_allenheath_dl.Channels.Names.{ChannelName}
use mcp_server_allenheath_dl.Messages.{Message, channel_name, fader_level}
use mcp_server_allenheath_dl.Client.{
  Event, arrive, poll, elapse, Client, waiting, asking, failed, name_request, name_answer, start,
  run,
}
use mcp_server_allenheath_dl.Client.Recv.{recv, poll_recv, returned}
use mcp_server_allenheath_dl.Tools.Inspector
use mcp_server_allenheath_dl.Tools.Inspector.{IsUnbroken}
use mcp_server_allenheath_dl.Tools.{inspect_requests}
use mcp_server_allenheath_dl.Client.Log.{log, log-IsBroadcast, from_start-KeptUp, from_start_unread}
use mcp_server_allenheath_dl.Client.Answered.{Answers, run-Answers}
use mcp_server_allenheath_dl.Client.Waiting.{client, run-found, run-lost}
use mcp_server_allenheath_dl.Client.Connect.{Outcome, connected, refused, dlive_surface_tcp_port}

abbrev ip : ℕ → Channel
ip n = record { ty = input; number = n }

abbrev kick : ChannelName
kick = record { bytes = codes "Kick0000" }

abbrev snare : ChannelName
snare = record { bytes = codes "Snare000" }

abbrev kick_told : Message
kick_told = channel_name (ip 1) kick

abbrev snare_told : Message
snare_told = channel_name (ip 2) snare

abbrev fader_told : Message
fader_told = fader_level (ip 1) (record { value = 90 })

-- Both answers arrive in time.
abbrev good_run : List Event
good_run =
    poll
    ∷ poll
    ∷ poll
    ∷ poll
    ∷ arrive fader_told
    ∷ arrive kick_told
    ∷ poll
    ∷ poll
    ∷ poll
    ∷ arrive snare_told
    ∷ poll
    ∷ []

abbrev after_good_run : Client log Channel ChannelName
after_good_run = start log name_request name_answer [] (ip 1 ∷ ip 2 ∷ [])

good_run_ends :
    (run log name_request name_answer good_run after_good_run).answers ≡ kick ∷ snare ∷ []
unfolding run
good_run_ends = refl

-- The messages that arrive in that run.
abbrev IsTold : Message → Type 0
IsTold m = (i : ℕ) × (get_elem? (fader_told ∷ kick_told ∷ snare_told ∷ []) i ≡ some m)

run-Answers_example :
    (asked : List Channel) × (ip 1 ∷ ip 2 ∷ []
      ≡ asked ++ (run log name_request name_answer good_run after_good_run).todo)
    × Answers name_answer IsTold asked
        (run log name_request name_answer good_run after_good_run).answers
run-Answers_example =
    run-Answers log log-IsBroadcast name_request name_answer IsTold (ip 1 ∷ ip 2 ∷ []) [] good_run
      (tt, (tt, (tt, (tt, ((0, refl), ((1, refl), (tt, (tt, (tt, ((2, refl), (tt, tt)))))))))))

run-found_example :
    run log name_request name_answer
      (replicate (suc (length (fader_told ∷ []))) poll)
      (client {b = log} (fader_told ∷ kick_told ∷ snare_told ∷ []) [] [] (waiting 0) (ip 1 ∷ []))
    ≡ client {b = log} (fader_told ∷ kick_told ∷ snare_told ∷ []) [] (kick ∷ []) asking []
run-found_example =
    run-found log log-IsBroadcast name_request name_answer
      (fader_told ∷ kick_told ∷ snare_told ∷ []) [] [] (ip 1) [] 0 (fader_told ∷ [])
      (snare_told ∷ []) kick_told kick (from_start-KeptUp _) (from_start_unread _) (refl, tt) refl

run-lost_example :
    run log name_request name_answer (elapse ∷ []) (
      run log name_request name_answer (replicate 3 poll) (
        run log name_request name_answer
          (poll ∷ arrive kick_told ∷ arrive snare_told ∷ poll ∷ poll ∷ [])
          (client {b = log} [] [] [] asking (ip 1 ∷ ip 2 ∷ []))))
    ≡ client {b = log}
        (kick_told ∷ snare_told ∷ [])
        []
        (kick ∷ [])
        (failed request_timeout)
        (ip 2 ∷ [])
run-lost_example =
    run-lost log log-IsBroadcast name_request name_answer 3 [] [] [] (ip 1) (ip 2) [] kick_told
      snare_told kick refl

-- Only the surface is there.
abbrev surface_only : ℕ → Outcome ℕ
surface_only port = if port == dlive_surface_tcp_port then connected port else refused

-- A stream with an error in it.
abbrev items : List (Result Message)
items = ok fader_told ∷ err midi_error ∷ ok kick_told ∷ []

-- The kick's name comes before the requests are sent, and is not printed.
abbrev requests : List Event
requests = arrive kick_told ∷ replicate 256 poll

replicate-IsUnbroken : (n : ℕ) → All IsUnbroken (replicate n poll)
replicate-IsUnbroken zero = tt
replicate-IsUnbroken (suc n) = (tt, replicate-IsUnbroken n)

run-subscribed_example :
    ((Inspector.run log
        (requests ++ poll ∷ (map arrive (snare_told ∷ fader_told ∷ []) ++ replicate 2 poll))
        (Inspector.main log [])).printed
      ≡ snare_told ∷ fader_told ∷ [])
    × ((Inspector.run log (requests ++ poll ∷ []) (Inspector.main log [])).sent ≡ inspect_requests)
run-subscribed_example =
    Inspector.run-subscribed log log-IsBroadcast [] requests (snare_told ∷ fader_told ∷ [])
      (tt, replicate-IsUnbroken 256) refl (omega arith)

-- `recv` goes on waiting, and then returns the first message.
recv_returned :
    poll_recv log (kick_told ∷ snare_told ∷ []) (poll_recv log [] (recv log []))
    ≡ returned kick_told
unfolding poll_recv
recv_returned = refl
