-- ===== src/Tests/Desks.antt =====
-- The theorems on several connections to the desk of fake-dlive/src/main.rs at concrete messages.
use mcp_server_allenheath_dl.Prelude.{◌≡◌, refl, List, [], ◌∷◌, get_elem?, true, false, ok}
use mcp_server_allenheath_dl.Messages.{
  Message, get_channel_name, send_level, get_send_level, fader_level, get_fader_level,
}
use mcp_server_allenheath_dl.FakeDlive.{send_level_of, fader_level_of}
use mcp_server_allenheath_dl.FakeDlive.Levels.{fold, set_send, set_fader}
use mcp_server_allenheath_dl.FakeDlive.Connections.{
  Desk, Event, accepted, arrived, is_running, deliver, step, run,
}
use mcp_server_allenheath_dl.FakeDlive.Shared.{heard, sent_on, run-last_level}
use mcp_server_allenheath_dl.Tests.FakeDlive.{record_message, start, ip7, aux2, group1}

abbrev Sent : Type 0
Sent = List Message

abbrev empty_desk : Desk Sent
empty_desk = record { state = start.0; connections = [] }

-- The second connection sets a level, the first asks for the name of a mute group, which ends it, and
-- sets the level in vain.
abbrev busy : List (Event Sent)
busy =
    accepted []
    ∷ accepted []
    ∷ arrived 0 (ok (send_level ip7 aux2 (record { value = 20 })))
    ∷ arrived 1 (ok (send_level ip7 aux2 (record { value = 30 })))
    ∷ arrived 0 (ok (get_channel_name group1))
    ∷ arrived 0 (ok (send_level ip7 aux2 (record { value = 40 })))
    ∷ []

first_ended : is_running (get_elem? (run record_message busy empty_desk).connections 0) ≡ false
unfolding run step deliver
first_ended = refl

second_runs : is_running (get_elem? (run record_message busy empty_desk).connections 1) ≡ true
unfolding run step deliver
second_runs = refl

last_heard :
    fold
      (set_send ip7 aux2)
      (heard record_message busy empty_desk)
      (send_level_of ip7 aux2 empty_desk.state)
    ≡ record { value = 30 }
unfolding step deliver
last_heard = refl

run-last_level_example :
    (step record_message
        (arrived 1 (ok (get_send_level ip7 aux2)))
        (run record_message busy empty_desk)
      ≡ sent_on record_message 1
          (send_level ip7 aux2 (
            fold
              (set_send ip7 aux2)
              (heard record_message busy empty_desk)
              (send_level_of ip7 aux2 empty_desk.state)))
          (run record_message busy empty_desk))
    × (step record_message
          (arrived 1 (ok (get_fader_level ip7)))
          (run record_message busy empty_desk)
        ≡ sent_on record_message 1
            (fader_level ip7 (
              fold
                (set_fader ip7)
                (heard record_message busy empty_desk)
                (fader_level_of ip7 empty_desk.state)))
            (run record_message busy empty_desk))
run-last_level_example = run-last_level record_message busy empty_desk 1 ip7 aux2 second_runs
