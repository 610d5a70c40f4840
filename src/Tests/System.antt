-- ===== src/Tests/System.antt =====
-- The theorems on the client and the desk, joined by the codec, at a concrete exchange.
use mcp_server_allenheath_dl.Prelude.{◌≡◌, refl, false, List, [], ◌∷◌, ok, arith}
use mcp_server_allenheath_dl.Channels.{Channel, input, mono_aux}
use mcp_server_allenheath_dl.Messages.{
  Level, Message, get_channel_name, channel_name, get_send_level, send_level, get_fader_level,
  fader_level,
}
use mcp_server_allenheath_dl.PlainMidi.{plain, plain-IsWmidi, plain-IsLossless, plain-Consumes}
use mcp_server_allenheath_dl.Codecs.Encoder.{default}
use mcp_server_allenheath_dl.Codecs.Decoder.{decode}
use mcp_server_allenheath_dl.Codecs.Stream.{Yields, encode_all}
use mcp_server_allenheath_dl.FakeDlive.{State, handle, initial}
use mcp_server_allenheath_dl.Channels.Names.{ChannelName}
use mcp_server_allenheath_dl.Args.Ranges.{iter_all}
use mcp_server_allenheath_dl.Args.Config.{ChannelConfig}
use mcp_server_allenheath_dl.Handler.{new}
use mcp_server_allenheath_dl.Handler.Tools.{
  InputLevelResponse, MixLevelResponse, get_input_level, set_input_level, adjust_input_level,
  get_mix_level, set_mix_level,
}
use mcp_server_allenheath_dl.Handler.SetGet.{
  get_input_level-set_input_level, get_input_level-adjust_input_level,
}
use mcp_server_allenheath_dl.Handler.SetGetMix.{get_mix_level-set_mix_level}
use mcp_server_allenheath_dl.Levels.{add_assign}
use mcp_server_allenheath_dl.System.FakeCalls.{fake_calls, fake_calls-IsDesk}
use mcp_server_allenheath_dl.Tests.Handler.{pair_watch, pair_watch-IsWatch, whole, louder}
use mcp_server_allenheath_dl.System.{desk_session, after_all, replies}
use mcp_server_allenheath_dl.System.Desk.{IsLevelled}
use mcp_server_allenheath_dl.System.Exchange.{exchange-Yields}

abbrev pub kick : Channel
kick = record { ty = input; number = 1 }

abbrev pub monitor : Channel
monitor = record { ty = mono_aux; number = 2 }

abbrev pub loud : Level
loud = record { value = 117 }

-- A desk that nobody has touched.
abbrev pub untouched : State
untouched = initial ((kick, record { bytes = 75 ∷ 105 ∷ 99 ∷ 107 ∷ 0 ∷ 0 ∷ 0 ∷ 0 ∷ [] }) ∷ [])

pub untouched-IsLevelled : IsLevelled untouched
untouched-IsLevelled = ((λ c d. omega arith), (λ c. omega arith))

abbrev talk : List Message
talk =
    send_level kick monitor loud
    ∷ get_channel_name kick
    ∷ get_send_level kick monitor
    ∷ get_fader_level monitor
    ∷ []

talk-replies :
    replies talk untouched
    ≡ channel_name kick (record { bytes = 75 ∷ 105 ∷ 99 ∷ 107 ∷ 0 ∷ 0 ∷ 0 ∷ 0 ∷ [] })
      ∷ send_level kick monitor loud
      ∷ fader_level monitor (record { value = 107 })
      ∷ []
talk-replies = refl

exchange-Yields_example :
    Yields plain
      (decode plain (default plain, (encode_all plain talk (default plain, [])).1.1))
      talk
    × ((desk_session plain talk untouched (default plain)).0 ≡ ok tt)
    × ((desk_session plain talk untouched (default plain)).1.0 ≡ after_all talk untouched)
    × Yields plain
        (decode plain (default plain, (desk_session plain talk untouched (default plain)).1.1.1))
        (replies talk untouched)
exchange-Yields_example =
    exchange-Yields plain plain-IsWmidi plain-IsLossless plain-Consumes (default plain)
      (default plain) (default plain) (default plain) talk untouched plain-IsLossless.synced_new
      plain-IsLossless.synced_new (omega arith)
      (
        tt,
        (
          (record { bytes = 75 ∷ 105 ∷ 99 ∷ 107 ∷ 0 ∷ 0 ∷ 0 ∷ 0 ∷ [] }, refl, refl, omega arith),
          (tt, (tt, tt)),
        ),
      )
      untouched-IsLevelled

-- The tools on the same desk, with the inputs 1 to 3 and the mixes 1 and 2.
abbrev stage : ChannelConfig
stage = record {
  inputs = record { ty = input; start = 1; end = 3; step = 1 } ∷ [];
  mixes = record { ty = mono_aux; start = 1; end = 2; step = 1 } ∷ [];
}

abbrev pub kick_name : ChannelName
kick_name = record { bytes = 75 ∷ 105 ∷ 99 ∷ 107 ∷ 0 ∷ 0 ∷ 0 ∷ 0 ∷ [] }

-- "@Aux2", the name that the desk gives by default.
abbrev pub monitor_name : ChannelName
monitor_name = record { bytes = 64 ∷ 65 ∷ 117 ∷ 120 ∷ 50 ∷ 0 ∷ 0 ∷ 0 ∷ [] }

abbrev set_answer : InputLevelResponse
set_answer = record { input = kick_name; mix = monitor_name; level = loud }

kick_set :
    (set_input_level pair_watch fake_calls kick_name monitor_name loud
      (new pair_watch (false, stage), untouched)).0
    ≡ ok set_answer
unfolding set_input_level iter_all handle
kick_set = refl

get_input_level-set_input_level_example :
    ((get_input_level pair_watch fake_calls kick_name monitor_name
        (set_input_level pair_watch fake_calls kick_name monitor_name loud
          (new pair_watch (false, stage), untouched)).1).0
      ≡ ok set_answer)
    × (loud ≡ loud)
get_input_level-set_input_level_example =
    get_input_level-set_input_level pair_watch pair_watch-IsWatch fake_calls kick_name monitor_name
      fake_calls-IsDesk loud (new pair_watch (false, stage), untouched) set_answer kick_set

abbrev mix_answer : MixLevelResponse
mix_answer = record { mix = monitor_name; level = loud }

monitor_set :
    (set_mix_level pair_watch fake_calls monitor_name loud
      (new pair_watch (false, stage), untouched)).0
    ≡ ok mix_answer
unfolding set_mix_level iter_all handle
monitor_set = refl

get_mix_level-set_mix_level_example :
    ((get_mix_level pair_watch fake_calls monitor_name
        (set_mix_level pair_watch fake_calls monitor_name loud
          (new pair_watch (false, stage), untouched)).1).0
      ≡ ok mix_answer)
    × (loud ≡ loud)
get_mix_level-set_mix_level_example =
    get_mix_level-set_mix_level pair_watch pair_watch-IsWatch fake_calls monitor_name
      fake_calls-IsDesk loud (new pair_watch (false, stage), untouched) mix_answer monitor_set

-- Six decibels are added to the level that nobody has set.
abbrev adjusted_answer : InputLevelResponse
adjusted_answer = record { input = kick_name; mix = monitor_name; level = record { value = 119 } }

kick_adjusted :
    (adjust_input_level pair_watch fake_calls whole kick_name monitor_name louder
      (new pair_watch (false, stage), untouched)).0
    ≡ ok adjusted_answer
unfolding adjust_input_level iter_all handle
kick_adjusted = refl

get_input_level-adjust_input_level_example :
    (before : InputLevelResponse) × ((get_input_level pair_watch fake_calls kick_name monitor_name
        (new pair_watch (false, stage), untouched)).0
      ≡ ok before)
    × (adjusted_answer.level ≡ add_assign whole before.level louder)
    × ((get_input_level pair_watch fake_calls kick_name monitor_name
          (adjust_input_level pair_watch fake_calls whole kick_name monitor_name louder
            (new pair_watch (false, stage), untouched)).1).0
        ≡ ok adjusted_answer)
get_input_level-adjust_input_level_example =
    get_input_level-adjust_input_level pair_watch pair_watch-IsWatch fake_calls kick_name
      monitor_name fake_calls-IsDesk whole louder (new pair_watch (false, stage), untouched)
      adjusted_answer kick_adjusted
