-- ===== src/System/Restarted.antt =====
-- fake-dlive/src/bin/scrape-channel-names.rs on the client of lib/src/client.rs and the desk of
-- fake-dlive/src/main.rs, with all that runs between: the table that is written makes the desk again.
use mcp_server_allenheath_dl.Prelude.{
  ◌≡◌, refl, sym, ap, ◌∙◌, List, [], ◌∷◌, ◌++◌, append-nil, map, All, ok,
}
use mathlib.Core.Path.{subst}
use mcp_server_allenheath_dl.Channels.{Channel}
use mcp_server_allenheath_dl.Channels.Names.{ChannelName}
use mcp_server_allenheath_dl.MidiStream.{Midi, IsWmidi, IsLossless, Consumes}
use mcp_server_allenheath_dl.Codecs.Duplex.{IsDuplex}
use mcp_server_allenheath_dl.FakeDlive.{State, initial, name_of}
use mcp_server_allenheath_dl.Client.{Broadcast, IsBroadcast}
use mcp_server_allenheath_dl.System.Whole.{Move, Whole, run, begin}
use mcp_server_allenheath_dl.System.Truthful.{IsGoodMove}
use mcp_server_allenheath_dl.System.Named.{
  Question, asks_name, takes_name, AreNames, IsNamed, AreNamesOf, run-channel_names,
}
use mcp_server_allenheath_dl.Tools.{zip_names}
use mcp_server_allenheath_dl.Tools.Scraped.{initial-zip_names}

module _ (IsAsked : Channel → Type 0) where
  abbrev pub channels_of : List (Question IsAsked) → List Channel
  channels_of cs = map (λ q. q.0) cs

  -- What the run of the call comes to.
  abbrev pub called :
      (midi : Midi) (b : Broadcast)
      → b.Sender
      → List (Question IsAsked)
      → State
      → List Move
      → Whole midi.State b (Question IsAsked) ChannelName
  called midi b queue cs s moves =
      run midi b (asks_name IsAsked) (takes_name IsAsked) moves
        (begin midi b (asks_name IsAsked) (takes_name IsAsked) queue cs s)

module _ (IsAsked : Channel → Type 0) (names : Channel → ChannelName) where
  AreNamesOf-map :
      (cs : List (Question IsAsked)) (ns : List ChannelName)
      → AreNamesOf IsAsked names cs ns
      → ns ≡ map names (channels_of IsAsked cs)
  AreNamesOf-map [] [] h = refl
  AreNamesOf-map [] (n ∷ ns) h = absurd h
  AreNamesOf-map (q ∷ cs) [] h = absurd h
  AreNamesOf-map (q ∷ cs) (n ∷ ns) (e, h) =
      ap (λ x. x ∷ ns) e ∙ ap (λ xs. names q.0 ∷ xs) (AreNamesOf-map cs ns h)

  module _ (midi : Midi) (laws : IsWmidi midi) (lossless : IsLossless midi)
      (consumes : Consumes midi) (duplex : IsDuplex midi lossless) (b : Broadcast)
      (queued : IsBroadcast b) (queue : b.Sender) (cs : List (Question IsAsked)) (s : State)
      (moves : List Move) where
    -- A client that has just connected asks for the names of some valid channels. If the desk has names
    -- of ASCII characters for them, which others that change the desk leave as they are, then however
    -- the tasks are interleaved: once no channel is left to ask about, a fake desk that is started on
    -- the channels zipped with the answers has the same name for each of the channels.
    pub run-zip_names :
        AreNames IsAsked names
        → IsNamed IsAsked names s
        → All (IsGoodMove (IsNamed IsAsked names)) moves
        → (called IsAsked midi b queue cs s moves).caller.todo ≡ []
        → All
            (λ c.
              name_of c (
                initial (
                  zip_names
                    (channels_of IsAsked cs)
                    (called IsAsked midi b queue cs s moves).caller.answers))
              ≡ ok (names c))
            (channels_of IsAsked cs)
    run-zip_names are_names first good over =
        let (asked, split, answers) =
          run-channel_names midi laws lossless consumes duplex b queued queue IsAsked names cs s
            moves are_names first good in
        let all : asked ≡ cs =
          sym (append-nil asked) ∙ ap (λ l. asked ++ l) (sym over) ∙ sym split in
        initial-zip_names names (channels_of IsAsked cs)
          (called IsAsked midi b queue cs s moves).caller.answers
          (zip_names (channels_of IsAsked cs)
            (called IsAsked midi b queue cs s moves).caller.answers)
          (AreNamesOf-map cs (called IsAsked midi b queue cs s moves).caller.answers (
            subst
              (λ l.
                AreNamesOf IsAsked names l (called IsAsked midi b queue cs s moves).caller.answers)
              all answers))
          refl
