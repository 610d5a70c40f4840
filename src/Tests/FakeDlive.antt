-- ===== src/Tests/FakeDlive.antt =====
-- The theorems on fake-dlive/src/main.rs at concrete messages; a stream is the list of what was sent.
use mcp_server_allenheath_dl.Prelude.{◌∷◌, ◌++◌, ◌≡◌, ◌≢◌, ◌↔◌, ◌⊎◌, refl, List, [], ok, panic, map}
use mcp_server_allenheath_dl.Prelude.Exec.{Exec}
use mcp_server_allenheath_dl.Channels.{Channel, input, mono_aux, mute_group}
use mcp_server_allenheath_dl.Messages.{Message, get_channel_name, send_level, fader_level}
use mcp_server_allenheath_dl.FakeDlive.{State, send_level_of, handle, handle_connection}
use mcp_server_allenheath_dl.FakeDlive.Levels.{fold, set_send}
use mcp_server_allenheath_dl.FakeDlive.Panics.{Known, Nameless, handle_panics_iff}

abbrev pub record_message : Message → Exec (List Message) (Unit {0})
record_message m sent = (ok tt, sent ++ m ∷ [])

abbrev pub start : State × List Message
start = (record { channel_names = []; send_levels = []; fader_levels = [] }, [])

abbrev pub ip7 : Channel
ip7 = record { ty = input; number = 7 }

abbrev pub aux2 : Channel
aux2 = record { ty = mono_aux; number = 2 }

abbrev pub group1 : Channel
group1 = record { ty = mute_group; number = 1 }

abbrev messages : List Message
messages =
    send_level ip7 aux2 (record { value = 20 })
    ∷ fader_level ip7 (record { value = 90 })
    ∷ send_level ip7 aux2 (record { value = 30 })
    ∷ get_channel_name ip7
    ∷ []

all_through : (handle_connection record_message (map ok messages) start).0 ≡ ok tt
unfolding handle_connection
all_through = refl

last_of_two :
    fold (set_send ip7 aux2) messages (send_level_of ip7 aux2 start.0) ≡ record { value = 30 }
last_of_two = refl

sends : (m : Message) (sent : List Message) → (record_message m sent).0 ≢ panic
sends m sent e = cc

handle_panics_iff_example :
    ((handle record_message (get_channel_name group1) start).0 ≡ panic)
    ↔ ((¬ Known (get_channel_name group1)) ⊎ Nameless (get_channel_name group1) start.0)
handle_panics_iff_example = handle_panics_iff record_message sends (get_channel_name group1) start

named_group_panics : (handle record_message (get_channel_name group1) start).0 ≡ panic
unfolding handle
named_group_panics = refl
