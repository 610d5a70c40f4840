-- ===== src/System/Held.antt =====
-- `send_level` of lib/src/client.rs on the desk of fake-dlive/src/main.rs, with all that runs between.
use mcp_server_allenheath_dl.Prelude.{
  ◌≡◌, refl, List, [], ◌∷◌, All, Option, some, Bool-cases, ◌&&◌, inl, inr,
}
use mathlib.Core.Path.{subst}
use mcp_server_allenheath_dl.Channels.{Channel, IsValid, channel_eq}
use mcp_server_allenheath_dl.Messages.{Level, Message, send_level}
use mcp_server_allenheath_dl.MidiStream.{Midi, IsWmidi, IsLossless, Consumes}
use mcp_server_allenheath_dl.Codecs.Duplex.{IsDuplex}
use mcp_server_allenheath_dl.FakeDlive.{State, send_level_of}
use mcp_server_allenheath_dl.Client.{Broadcast, IsBroadcast, send_level_request, send_level_answer}
use mcp_server_allenheath_dl.Client.Answered.{Answers}
use mcp_server_allenheath_dl.System.Desk.{IsLevelled}
use mcp_server_allenheath_dl.System.Whole.{Move, run, begin}
use mcp_server_allenheath_dl.System.Truthful.{AreQuestions, IsGoodMove, run-Truthful}

module _ (c d : Channel) where
  -- The one question of a call.
  abbrev pub asks_level : Unit {0} → Message
  asks_level q = send_level_request (c, d)

  abbrev pub takes_level : Unit {0} → Message → Option Level
  takes_level q m = send_level_answer (c, d) m

  module _ (R : Level → Type 0) where
    -- The levels of the desk fit seven bits, and that of the channel in the send has a property.
    abbrev HasLevel : State → Type 0
    HasLevel s = IsLevelled s × R (send_level_of c d s)

    abbrev Tells : Message → Type 0
    Tells (send_level c' d' l) = R l
    Tells _ = Unit

    level-AreQuestions : IsValid c → IsValid d → AreQuestions asks_level Tells HasLevel
    level-AreQuestions vc vd = record {
      encodable = λ q. (vc, vd);
      faithful = λ q. refl;
      served = λ q s h. tt;
      kept = λ q s. refl;
      reply_encodable = λ q s h. ((vc, vd, h.0.0 c d), tt);
      truthful = λ q s h. (h.1, tt);
    }

    answer-Tells :
        (q : Unit {0}) (m : Message) (l : Level) → Tells m → takes_level q m ≡ some l → R l
    answer-Tells q (send_level c' d' l') l h e =
        elim (Bool-cases (channel_eq c' c && channel_eq d' d)) [
          | inl same ↦
              let found = rw (takes_level, same) at e in let is_l : l' ≡ l = cc in subst R is_l h
          | inr different ↦ let missing = rw (takes_level, different) at e in cc
        ]
    answer-Tells q _ l h e = cc

    Answers-All :
        (asked : List (Unit {0})) (ls : List Level) → Answers takes_level Tells asked ls → All R ls
    Answers-All [] [] h = tt
    Answers-All [] (l ∷ ls) h = absurd h
    Answers-All (q ∷ asked) [] h = absurd h
    Answers-All (q ∷ asked) (l ∷ ls) ((m, told, e), h) =
        (answer-Tells q m l told e, Answers-All asked ls h)

-- A client that has just connected asks for the level of a channel in a send. However its tasks and that
-- of the desk are interleaved, its timer included, and whatever other connections make of the desk in
-- between: if the level of the channel in the send has a property in the desk's first state and in all
-- that the others leave it in, and their levels fit seven bits, then so has the level that the call
-- answers with, if it does.
pub run-send_level :
    (midi : Midi) (laws : IsWmidi midi) (lossless : IsLossless midi) (consumes : Consumes midi)
    (duplex : IsDuplex midi lossless) (b : Broadcast) (queued : IsBroadcast b) (queue : b.Sender)
    (c d : Channel) (R : Level → Type 0) (s : State) (moves : List Move)
    → IsValid c
    → IsValid d
    → HasLevel c d R s
    → All (IsGoodMove (HasLevel c d R)) moves
    → All R
        (run midi b
          (asks_level c d)
          (takes_level c d)
          moves
          (begin midi b (asks_level c d) (takes_level c d) queue (tt ∷ []) s)).caller.answers
run-send_level midi laws lossless consumes duplex b queued queue c d R s moves vc vd first good =
    let (asked, _, answers) =
      run-Truthful midi laws lossless consumes duplex b queued (asks_level c d) (takes_level c d)
        (Tells c d R) (HasLevel c d R) (level-AreQuestions c d R vc vd) (tt ∷ []) queue s moves
        first good in
    Answers-All c d R asked _ answers
