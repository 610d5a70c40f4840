-- ===== src/System/Named.antt =====
-- `channel_names` of lib/src/client.rs on the desk of fake-dlive/src/main.rs, with all that runs between.
use mcp_server_allenheath_dl.Prelude.{
  ◌≡◌, ◌∙◌, refl, sym, ap, List, [], ◌∷◌, ◌++◌, All, Option, some, ok, Bool-cases, inl, inr,
}
use mcp_server_allenheath_dl.Channels.{Channel, IsValid, channel_eq}
use mcp_server_allenheath_dl.Channels.Equality.{channel_eq_sound}
use mcp_server_allenheath_dl.Channels.Names.{ChannelName, IsName}
use mcp_server_allenheath_dl.Messages.{Message, channel_name}
use mcp_server_allenheath_dl.MidiStream.{Midi, IsWmidi, IsLossless, Consumes, IsU7}
use mcp_server_allenheath_dl.Codecs.Duplex.{IsDuplex}
use mcp_server_allenheath_dl.FakeDlive.{State, name_of}
use mcp_server_allenheath_dl.Client.{Broadcast, IsBroadcast, name_request, name_answer}
use mcp_server_allenheath_dl.Client.Answered.{Answers}
use mcp_server_allenheath_dl.System.Whole.{Move, run, begin}
use mcp_server_allenheath_dl.System.Truthful.{AreQuestions, IsGoodMove, run-Truthful}

module _ (IsAsked : Channel → Type 0) where
  -- The channels of a call are valid, and among some that are asked for.
  abbrev pub Question : Type 0
  Question = (c : Channel) × IsValid c × IsAsked c

  abbrev pub asks_name : Question → Message
  asks_name q = name_request q.0

  abbrev pub takes_name : Question → Message → Option ChannelName
  takes_name q m = name_answer q.0 m

  -- What a desk calls them: names of ASCII characters.
  abbrev pub AreNames : (Channel → ChannelName) → Type 0
  AreNames names = (c : Channel) → IsAsked c → IsName (names c) × All IsU7 (names c).bytes

  module _ (names : Channel → ChannelName) where
    abbrev pub IsNamed : State → Type 0
    IsNamed s = (c : Channel) → IsAsked c → name_of c s ≡ ok (names c)

    abbrev TellsName : Message → Type 0
    TellsName (channel_name c n) = n ≡ names c
    TellsName _ = Unit

    -- The answers, one for each channel, are the channels' names.
    abbrev pub AreNamesOf : List Question → List ChannelName → Type 0
    AreNamesOf [] [] = Unit
    AreNamesOf [] (n ∷ ns) = ⊥
    AreNamesOf (q ∷ qs) [] = ⊥
    AreNamesOf (q ∷ qs) (n ∷ ns) = (n ≡ names q.0) × AreNamesOf qs ns

    name-AreQuestions : AreNames names → AreQuestions asks_name TellsName IsNamed
    name-AreQuestions are_names = record {
      encodable = λ q. q.1;
      faithful = λ q. refl;
      served = λ q s h. (names q.0, h q.0 q.2, (are_names q.0 q.2).0, (are_names q.0 q.2).1);
      kept = λ q s. refl;
      reply_encodable =
          λ q s h. rw (h q.0 q.2) ((q.1, (are_names q.0 q.2).0, (are_names q.0 q.2).1), tt);
      truthful = λ q s h. rw (h q.0 q.2) (refl, tt);
    }

    answer-TellsName :
        (q : Question) (m : Message) (n : ChannelName)
        → TellsName m
        → takes_name q m ≡ some n
        → n ≡ names q.0
    answer-TellsName q (channel_name c n') n h e = elim (Bool-cases (channel_eq c q.0)) [
      | inl same ↦
          let found = rw (takes_name, same) at e in
          let is_n : n' ≡ n = cc in
          let is_c = channel_eq_sound c q.0 same in sym is_n ∙ h ∙ ap names is_c
      | inr different ↦ let missing = rw (takes_name, different) at e in cc
    ]
    answer-TellsName q _ n h e = cc

    Answers-AreNamesOf :
        (asked : List Question) (ns : List ChannelName)
        → Answers takes_name TellsName asked ns
        → AreNamesOf asked ns
    Answers-AreNamesOf [] [] h = tt
    Answers-AreNamesOf [] (n ∷ ns) h = absurd h
    Answers-AreNamesOf (q ∷ asked) [] h = absurd h
    Answers-AreNamesOf (q ∷ asked) (n ∷ ns) ((m, told, e), h) =
        (answer-TellsName q m n told e, Answers-AreNamesOf asked ns h)

-- A client that has just connected asks for the names of some valid channels. If the desk has names of
-- ASCII characters for them, which others that change the desk leave as they are, then however the
-- tasks are interleaved, the channels that are no longer left have been answered with one name
-- each, in their order, which is the desk's.
pub run-channel_names :
    (midi : Midi) (laws : IsWmidi midi) (lossless : IsLossless midi) (consumes : Consumes midi)
    (duplex : IsDuplex midi lossless) (b : Broadcast) (queued : IsBroadcast b) (queue : b.Sender)
    (IsAsked : Channel → Type 0) (names : Channel → ChannelName) (cs : List (Question IsAsked))
    (s : State) (moves : List Move)
    → AreNames IsAsked names
    → IsNamed IsAsked names s
    → All (IsGoodMove (IsNamed IsAsked names)) moves
    → (asked : List (Question IsAsked)) × (cs
        ≡ asked
          ++ (run midi b
              (asks_name IsAsked)
              (takes_name IsAsked)
              moves
              (begin midi b (asks_name IsAsked) (takes_name IsAsked) queue cs s)).caller.todo)
      × AreNamesOf IsAsked names asked
          (run midi b
            (asks_name IsAsked)
            (takes_name IsAsked)
            moves
            (begin midi b (asks_name IsAsked) (takes_name IsAsked) queue cs s)).caller.answers
run-channel_names midi laws lossless consumes duplex b queued queue IsAsked names cs s moves
      are_names first good =
    let (asked, split, answers) =
      run-Truthful midi laws lossless consumes duplex b queued (asks_name IsAsked)
        (takes_name IsAsked) (TellsName IsAsked names) (IsNamed IsAsked names)
        (name-AreQuestions IsAsked names are_names) cs queue s moves first good in
    (asked, split, Answers-AreNamesOf IsAsked names asked _ answers)
