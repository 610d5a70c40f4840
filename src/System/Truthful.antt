-- ===== src/System/Truthful.antt =====
-- What a call of the client of lib/src/client.rs takes for an answer is what the desk of
-- fake-dlive/src/main.rs has had, however the two run, and whoever changes the desk meanwhile.
use mcp_server_allenheath_dl.Prelude.{
  ℕ, Bool, true, false, ◌≡◌, refl, sym, List, [], ◌∷◌, ◌++◌, All, Option, none, some, Result, ok,
  err, panic, stuck,
}
use mathlib.Core.Path.{subst}
use mcp_server_allenheath_dl.Messages.{Message}
use mcp_server_allenheath_dl.MidiStream.{Midi, IsWmidi, IsLossless, Consumes}
use mcp_server_allenheath_dl.Codecs.Encoder.{DLiveCodec, default, encode}
use mcp_server_allenheath_dl.Codecs.Decoder.{decode}
use mcp_server_allenheath_dl.Codecs.Wire.{IsEncodable, heard_as}
use mcp_server_allenheath_dl.Codecs.Duplex.{IsDuplex}
use mcp_server_allenheath_dl.FakeDlive.{State, handle}
use mcp_server_allenheath_dl.Client.{
  Broadcast, IsBroadcast, Client, Place, sending, asking, waiting, failed, arrive, poll, elapse,
}
use mcp_server_allenheath_dl.Client.Answered.{Answers, Inv, Inv-step}
use mcp_server_allenheath_dl.System.{after, reply}
use mcp_server_allenheath_dl.System.Desk.{IsServed, handle-Replied}
use mcp_server_allenheath_dl.System.Link.{item_of}
use mcp_server_allenheath_dl.System.Writing.{
  Brings, Brings-encode, Brings-decode, Brings-writer_reads, Brings-encode_all,
  Brings-reader_writes, Brings-reader_writes_each,
}
use mcp_server_allenheath_dl.System.Duplex.{nothing_sent}
use mcp_server_allenheath_dl.System.Whole.{
  Move, task, elapses, receives, serves, touched, Whole, broadcast, take_item, run_client, receive,
  receive_if, run_desk, step, run, begin,
}

-- Questions that the desk answers with messages that have a property, as long as its states are good;
-- a question changes nothing.
pub record AreQuestions {Q : Type 0} (request : Q → Message) (P : Message → Type 0)
    (Good : State → Type 0) : Type 0 where
  pub encodable : (q : Q) → IsEncodable (request q)
  pub faithful : (q : Q) → heard_as (request q) ≡ request q
  pub served : (q : Q) (s : State) → Good s → IsServed s (request q)
  pub kept : (q : Q) (s : State) → after (request q) s ≡ s
  pub reply_encodable : (q : Q) (s : State) → Good s → All IsEncodable (reply (request q) s)
  pub truthful : (q : Q) (s : State) → Good s → All (λ m. P (heard_as m)) (reply (request q) s)

-- Whoever changes the desk leaves it in a good state.
abbrev pub IsGoodMove : (State → Type 0) → Move → Type 0
IsGoodMove Good (touched s) = Good s
IsGoodMove Good _ = Unit

module _ (midi : Midi) (laws : IsWmidi midi) (lossless : IsLossless midi) (consumes : Consumes midi)
    (duplex : IsDuplex midi lossless) (b : Broadcast) (queued : IsBroadcast b) {Q T : Type 0}
    (request : Q → Message) (answer : Q → Message → Option T) (P : Message → Type 0)
    (Good : State → Type 0) (questions : AreQuestions request P Good) (qs : List Q) where
  abbrev W : Type 0
  W = Whole midi.State b Q T

  abbrev IsAsked : Message → Type 0
  IsAsked m = (q : Q) × (m ≡ request q)

  -- Requests are on their way up and messages with the property down, the answers so far have it, and
  -- the desk is in a good state.
  abbrev IsTruthful : W → Type 0
  IsTruthful w =
      Brings midi laws lossless consumes duplex IsAsked w.codec w.desk.sink.0 w.up
      × Brings midi laws lossless consumes duplex P w.desk.sink.0 w.codec w.desk.sink.1
      × Inv b queued request answer P qs w.caller
      × Good w.state

  IsTruthful-run_client :
      (place : Place b Q T) (w : W)
      → IsTruthful w
      → IsTruthful (run_client midi b request answer place w)
  IsTruthful-run_client (sending (q ∷ rest)) w (up, down, inv, good) =
      let m = request q in
      let h = questions.encodable q in
      let (sent, up') =
        Brings-encode midi laws lossless consumes duplex IsAsked w.codec w.desk.sink.0 w.up up m h
          (q, questions.faithful q) in
      (
        up',
        Brings-reader_writes midi laws lossless consumes duplex P w.desk.sink.0 w.codec
            w.desk.sink.1 down m w.up h,
        rw sent (Inv-step b queued request answer P qs poll w.caller tt inv),
        good,
      )
  IsTruthful-run_client (sending []) w (up, down, inv, good) =
      (up, down, Inv-step b queued request answer P qs poll w.caller tt inv, good)
  IsTruthful-run_client asking w (up, down, inv, good) =
      (up, down, Inv-step b queued request answer P qs poll w.caller tt inv, good)
  IsTruthful-run_client (waiting r) w (up, down, inv, good) =
      (up, down, Inv-step b queued request answer P qs poll w.caller tt inv, good)
  IsTruthful-run_client (failed e) w (up, down, inv, good) =
      (up, down, Inv-step b queued request answer P qs poll w.caller tt inv, good)

  Inv-broadcast :
      (r : Result (Option Message)) (c : Client b Q T)
      → All P (item_of r)
      → Inv b queued request answer P qs c
      → Inv b queued request answer P qs (broadcast midi b request answer r c)
  Inv-broadcast (ok (some m)) c (p, _) inv =
      Inv-step b queued request answer P qs (arrive m) c p inv
  Inv-broadcast (ok none) c p inv = inv
  Inv-broadcast (err e) c p inv = inv
  Inv-broadcast panic c p inv = inv
  Inv-broadcast stuck c p inv = inv

  IsTruthful-receive : (w : W) → IsTruthful w → IsTruthful (receive midi b request answer w)
  IsTruthful-receive w (up, down, inv, good) =
      let (item, down', kept) =
        Brings-decode midi laws lossless consumes duplex P w.desk.sink.0 w.codec w.desk.sink.1
          down in
      (
        Brings-writer_reads midi laws lossless consumes duplex IsAsked w.codec w.desk.sink.0 w.up up
            (decode midi (w.codec, w.desk.sink.1)).1.0 kept,
        down',
        Inv-broadcast (decode midi (w.codec, w.desk.sink.1)).0 w.caller item inv,
        good,
      )

  IsTruthful-receive_if :
      (listening : Bool) (w : W)
      → IsTruthful w
      → IsTruthful (receive_if midi b request answer listening w)
  IsTruthful-receive_if true w h = IsTruthful-receive w h
  IsTruthful-receive_if false w h = h

  -- The same without the client's task.
  abbrev Between : DLiveCodec midi.State → List ℕ → State → DLiveCodec midi.State × List ℕ → Type 0
  Between codec src s sink =
      Brings midi laws lossless consumes duplex IsAsked codec sink.0 src
      × Brings midi laws lossless consumes duplex P sink.0 codec sink.1
      × Good s

  Between-handle :
      (q : Q) (codec : DLiveCodec midi.State) (src : List ℕ) (s : State)
      (sink : DLiveCodec midi.State × List ℕ)
      → Between codec src s sink
      → Between codec src
          (handle (encode midi) (request q) (s, sink)).1.0
          (handle (encode midi) (request q) (s, sink)).1.1
  Between-handle q codec src s sink (up, down, good) =
      let h = questions.reply_encodable q s good in
      subst (λ o. Between codec src o.1.0 o.1.1)
        (sym (handle-Replied midi laws lossless (request q) s sink (questions.served q s good) h))
        (
          Brings-reader_writes_each midi laws lossless consumes duplex IsAsked (reply (request q) s)
              codec sink.0 src sink.1 h up,
          Brings-encode_all midi laws lossless consumes duplex P (reply (request q) s) sink.0 codec
              sink.1 h (questions.truthful q s good) down,
          subst Good (sym (questions.kept q s)) good,
        )

  Between-take_item :
      (r : Result (Option Message)) (codec : DLiveCodec midi.State) (src : List ℕ) (s : State)
      (sink : DLiveCodec midi.State × List ℕ)
      → All IsAsked (item_of r)
      → Between codec src s sink
      → Between codec src
          (take_item midi b request answer r s sink).0
          (take_item midi b request answer r s sink).1.sink
  Between-take_item (ok none) codec src s sink asked between = between
  Between-take_item (ok (some m)) codec src s sink ((q, is_q), _) between =
      subst
        (λ m'.
          Between codec src (take_item midi b request answer (ok (some m')) s sink).0
            (take_item midi b request answer (ok (some m')) s sink).1.sink)
        (sym is_q) (Between-handle q codec src s sink between)
  Between-take_item (err e) codec src s sink asked between = between
  Between-take_item panic codec src s sink asked between = between
  Between-take_item stuck codec src s sink asked between = between

  IsTruthful-run_desk :
      (outcome : Result (Unit {0})) (w : W)
      → IsTruthful w
      → IsTruthful (run_desk midi b request answer outcome w)
  IsTruthful-run_desk (ok u) w (up, down, inv, good) =
      let (item, up', kept) =
        Brings-decode midi laws lossless consumes duplex IsAsked w.codec w.desk.sink.0 w.up up in
      let read = decode midi (w.desk.sink.0, w.up) in
      let down' =
        Brings-writer_reads midi laws lossless consumes duplex P w.desk.sink.0 w.codec w.desk.sink.1
          down read.1.0 kept in
      let (up'', down'', good') =
        Between-take_item read.0 w.codec read.1.1 w.state (read.1.0, w.desk.sink.1) item
          (up', down', good) in
      (up'', down'', inv, good')
  IsTruthful-run_desk (err e) w h = h
  IsTruthful-run_desk panic w h = h
  IsTruthful-run_desk stuck w h = h

  IsTruthful-step :
      (move : Move) (w : W)
      → IsGoodMove Good move
      → IsTruthful w
      → IsTruthful (step midi b request answer move w)
  unfolding step
  IsTruthful-step task w good h = IsTruthful-run_client w.caller.place w h
  IsTruthful-step elapses w good (up, down, inv, now) =
      (up, down, Inv-step b queued request answer P qs elapse w.caller tt inv, now)
  IsTruthful-step receives w good h = IsTruthful-receive_if w.listening w h
  IsTruthful-step serves w good h = IsTruthful-run_desk w.desk.outcome w h
  IsTruthful-step (touched s) w good (up, down, inv, _) = (up, down, inv, good)

  IsTruthful-run :
      (moves : List Move) (w : W)
      → All (IsGoodMove Good) moves
      → IsTruthful w
      → IsTruthful (run midi b request answer moves w)
  unfolding run
  IsTruthful-run [] w good h = h
  IsTruthful-run (move ∷ moves) w (now, good) h =
      IsTruthful-run moves (step midi b request answer move w) good (IsTruthful-step move w now h)

  nothing :
      (Q' : Message → Type 0)
      → Brings midi laws lossless consumes duplex Q' (default midi) (default midi) []
  nothing Q' = ([], [], ([], nothing_sent midi laws lossless consumes duplex, refl), tt)

  -- On a new connection, whatever runs in whatever order, the questions that are no longer left have an
  -- answer each, taken from a message that answers the question and has the property.
  pub run-Truthful :
      (queue : b.Sender) (s : State) (moves : List Move)
      → Good s
      → All (IsGoodMove Good) moves
      → (asked : List Q) × (qs
          ≡ asked
            ++ (run midi b request answer moves
                (begin midi b request answer queue qs s)).caller.todo)
        × Answers answer P asked
            (run midi b request answer moves
              (begin midi b request answer queue qs s)).caller.answers
  run-Truthful queue s moves good all =
      let (_, _, inv, _) =
        IsTruthful-run moves (begin midi b request answer queue qs s) all
          (nothing IsAsked, nothing P, (([], refl, tt), tt), good) in
      inv.0
