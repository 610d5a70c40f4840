-- ===== src/Tests/Whole.antt =====
-- The theorems on a call of lib/src/client.rs on the desk of fake-dlive/src/main.rs at a concrete one.
use mcp_server_allenheath_dl.Prelude.{
  ◌⊎◌, inl, inr, sym, ok, ◌++◌, if◌then◌else◌, ◌≤◌, ◌≡◌, refl, List, [], ◌∷◌, All, arith,
}
use mathlib.Core.Path.{subst}
use mcp_server_allenheath_dl.Channels.{Channel, channel_eq}
use mcp_server_allenheath_dl.Channels.Names.{ChannelName, IsName}
use mcp_server_allenheath_dl.MidiStream.{IsU7}
use mcp_server_allenheath_dl.Messages.{Level, send_level}
use mcp_server_allenheath_dl.PlainMidi.{plain, plain-IsWmidi, plain-IsLossless, plain-Consumes}
use mcp_server_allenheath_dl.Channels.{to_midi, from_midi}
use mcp_server_allenheath_dl.Codecs.Body
use mcp_server_allenheath_dl.Codecs.Encoder
use mcp_server_allenheath_dl.Codecs.Encoder.{encode}
use mcp_server_allenheath_dl.Codecs.Sysex.{decode_sysex_message}
use mcp_server_allenheath_dl.Codecs.Decoder.{decode, on_midi}
use mcp_server_allenheath_dl.Client
use mcp_server_allenheath_dl.FakeDlive.{
  initial, default_name, name_of, State, send_level_of, handle,
}
use mcp_server_allenheath_dl.Client.Log.{log, log-IsBroadcast}
use mcp_server_allenheath_dl.System.{after}
use mcp_server_allenheath_dl.System.Desk.{after-IsLevelled}
use mcp_server_allenheath_dl.System.Whole.{
  Move, task, elapses, receives, serves, touched, run, begin,
}
use mcp_server_allenheath_dl.System.Held.{asks_level, takes_level, run-send_level}
use mcp_server_allenheath_dl.System.Named.{
  Question, asks_name, takes_name, AreNames, IsNamed, AreNamesOf, run-channel_names,
}
use mcp_server_allenheath_dl.System.Restarted.{channels_of, called, run-zip_names}
use mcp_server_allenheath_dl.Tools.{zip_names}
use mcp_server_allenheath_dl.System.Settling.{in_turn, run-in_turn}
use mcp_server_allenheath_dl.Tests.System.{
  kick_name, monitor_name, kick, monitor, loud, untouched, untouched-IsLevelled,
}
use mcp_server_allenheath_dl.Tests.Duplex.{plain-IsDuplex}

-- Someone turns the level up before the desk's task has its turn.
abbrev turned_up : State
turned_up = after (send_level kick monitor loud) untouched

abbrev meanwhile : List Move
meanwhile = task ∷ task ∷ touched turned_up ∷ task ∷ serves ∷ receives ∷ task ∷ elapses ∷ []

abbrev IsLoudEnough : Level → Type 0
IsLoudEnough l = 107 ≤ l.value

run-send_level_example :
    All IsLoudEnough
      (run plain log (asks_level kick monitor) (takes_level kick monitor) meanwhile (
        begin plain log
          (asks_level kick monitor)
          (takes_level kick monitor)
          []
          (tt ∷ [])
          untouched)).caller.answers
run-send_level_example =
    run-send_level plain plain-IsWmidi plain-IsLossless plain-Consumes plain-IsDuplex log
      log-IsBroadcast [] kick monitor IsLoudEnough untouched meanwhile (omega arith) (omega arith)
      (untouched-IsLevelled, omega arith)
      (
        tt,
        (
          tt,
          (
            (
              after-IsLevelled (send_level kick monitor loud) untouched
                  (omega arith, omega arith, omega arith) untouched-IsLevelled,
              omega arith,
            ),
            (tt, (tt, (tt, (tt, (tt, tt))))),
          ),
        ),
      )

-- The answer is there, and is the new level.
loud_answered :
    (run plain log (asks_level kick monitor) (takes_level kick monitor) meanwhile (
      begin plain log
        (asks_level kick monitor)
        (takes_level kick monitor)
        []
        (tt ∷ [])
        untouched)).caller.answers
    ≡ loud ∷ []
unfolding run plain Client.step decode encode Encoder.encode_sysex Encoder.encode_inner
    Body.get_send_level Body.send_level to_midi from_midi on_midi decode_sysex_message handle
loud_answered = refl

-- The client looks once too early, and again after its answer.
run-in_turn_example :
    (run plain log (asks_level kick monitor) (takes_level kick monitor) (in_turn 1 0 2) (
      begin plain log
        (asks_level kick monitor)
        (takes_level kick monitor)
        []
        (tt ∷ [])
        untouched)).caller.answers
    ≡ send_level_of kick monitor untouched ∷ []
run-in_turn_example =
    run-in_turn plain plain-IsWmidi plain-IsLossless plain-Consumes plain-IsDuplex log
      log-IsBroadcast [] kick monitor untouched 1 0 2 (omega arith) (omega arith) (omega arith)

-- The names of two channels.
abbrev IsOurs : Channel → Type 0
IsOurs c = (c ≡ kick) ⊎ (c ≡ monitor)

abbrev our_names : Channel → ChannelName
our_names c = if channel_eq c kick then kick_name else monitor_name

our_names-AreNames : AreNames IsOurs our_names
our_names-AreNames c (inl is_kick) =
    subst (λ x. IsName (our_names x) × All IsU7 (our_names x).bytes) (sym is_kick)
      (refl, omega arith)
our_names-AreNames c (inr is_monitor) =
    subst (λ x. IsName (our_names x) × All IsU7 (our_names x).bytes) (sym is_monitor)
      (refl, omega arith)

untouched-IsNamed : IsNamed IsOurs our_names untouched
unfolding default_name
untouched-IsNamed c (inl is_kick) =
    subst (λ x. name_of x untouched ≡ ok (our_names x)) (sym is_kick) refl
untouched-IsNamed c (inr is_monitor) =
    subst (λ x. name_of x untouched ≡ ok (our_names x)) (sym is_monitor) refl

abbrev both_channels : List (Question IsOurs)
both_channels =
    (kick, (omega arith, omega arith), inl refl)
    ∷ (monitor, (omega arith, omega arith), inr refl)
    ∷ []

-- Both requests are sent, and the client waits, before the desk serves them one by one.
abbrev one_by_one : List Move
one_by_one =
    task ∷ task ∷ task ∷ task ∷ serves ∷ receives ∷ task ∷ task ∷ serves ∷ receives ∷ task ∷ []

run-channel_names_example :
    (asked : List (Question IsOurs)) × (both_channels
      ≡ asked
        ++ (run plain log (asks_name IsOurs) (takes_name IsOurs) one_by_one (
            begin plain log
              (asks_name IsOurs)
              (takes_name IsOurs)
              []
              both_channels
              untouched)).caller.todo)
    × AreNamesOf IsOurs our_names asked
        (run plain log (asks_name IsOurs) (takes_name IsOurs) one_by_one (
          begin plain log
            (asks_name IsOurs)
            (takes_name IsOurs)
            []
            both_channels
            untouched)).caller.answers
run-channel_names_example =
    run-channel_names plain plain-IsWmidi plain-IsLossless plain-Consumes plain-IsDuplex log
      log-IsBroadcast [] IsOurs our_names both_channels untouched one_by_one our_names-AreNames
      untouched-IsNamed (tt, (tt, (tt, (tt, (tt, (tt, (tt, (tt, (tt, (tt, (tt, tt)))))))))))

-- Both names have been taken.
both_named :
    (run plain log (asks_name IsOurs) (takes_name IsOurs) one_by_one (
      begin plain log
        (asks_name IsOurs)
        (takes_name IsOurs)
        []
        both_channels
        untouched)).caller.answers
    ≡ kick_name ∷ monitor_name ∷ []
unfolding run plain Client.step decode encode Encoder.encode_sysex Encoder.encode_inner
    Body.get_channel_name Body.channel_name to_midi from_midi on_midi decode_sysex_message handle
    default_name
both_named = refl

-- No channel is left.
none_left : (called IsOurs plain log [] both_channels untouched one_by_one).caller.todo ≡ []
unfolding run plain Client.step decode encode Encoder.encode_sysex Encoder.encode_inner
    Body.get_channel_name Body.channel_name to_midi from_midi on_midi decode_sysex_message handle
    default_name
none_left = refl

run-zip_names_example :
    All
      (λ c.
        name_of c (
          initial (
            zip_names
              (channels_of IsOurs both_channels)
              (called IsOurs plain log [] both_channels untouched one_by_one).caller.answers))
        ≡ ok (our_names c))
      (channels_of IsOurs both_channels)
run-zip_names_example =
    run-zip_names IsOurs our_names plain plain-IsWmidi plain-IsLossless plain-Consumes
      plain-IsDuplex log log-IsBroadcast [] both_channels untouched one_by_one our_names-AreNames
      untouched-IsNamed (tt, (tt, (tt, (tt, (tt, (tt, (tt, (tt, (tt, (tt, (tt, tt)))))))))))
      none_left
