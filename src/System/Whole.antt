-- ===== src/System/Whole.antt =====
-- A call of the client of lib/src/client.rs on the desk of fake-dlive/src/main.rs, with all that runs at
-- the same time: the client's task and its timer, the receiving task, the desk's task for the
-- connection, and whoever else changes the desk.
use mcp_server_allenheath_dl.Prelude.{
  ℕ, Bool, true, false, List, [], ◌∷◌, Option, none, some, Result, ok, err, panic, stuck,
}
use mcp_server_allenheath_dl.Messages.{Message}
use mcp_server_allenheath_dl.MidiStream.{Midi}
use mcp_server_allenheath_dl.Codecs.Encoder.{DLiveCodec, default, encode}
use mcp_server_allenheath_dl.Codecs.Decoder.{decode}
use mcp_server_allenheath_dl.FakeDlive.{State}
use mcp_server_allenheath_dl.FakeDlive.Connections.{Connection, after_round, round_of}
use mcp_server_allenheath_dl.Client
use mcp_server_allenheath_dl.Client.{
  Broadcast, Place, sending, Client, Event, arrive, poll, elapse, broken,
}

-- What runs next: the client's task, its timer, the receiving task, the desk's task; or the desk gets
-- another state by other connections.
pub data Move : Type 0 where
  task elapses receives serves : Move
  touched : State → Move

-- The client with the codec of its stream, whether its receiving task runs, the bytes on their way up,
-- and the desk, whose sink is its codec and the bytes on their way down.
pub record Whole (S : Type 0) (b : Broadcast) (Q T : Type 0) : Type 0 where
  pub caller : Client b Q T
  pub codec : DLiveCodec S
  pub listening : Bool
  pub up : List ℕ
  pub state : State
  pub desk : Connection (DLiveCodec S × List ℕ)

-- `self.send(..).await?`
abbrev sent_event : Result (Unit {0}) → Event
sent_event (ok u) = poll
sent_event _ = broken

module _ (midi : Midi) (b : Broadcast) {Q T : Type 0} (request : Q → Message)
    (answer : Q → Message → Option T) where
  abbrev W : Type 0
  W = Whole midi.State b Q T

  abbrev pub run_client : Place b Q T → W → W
  run_client (sending (q ∷ qs)) w =
      let (r, (codec, up)) = encode midi (request q) (w.codec, w.up) in
      record w {
        codec = codec;
        up = up;
        caller = Client.step b request answer (sent_event r) w.caller;
      }
  run_client _ w = record w { caller = Client.step b request answer poll w.caller }

  -- A round of `rx_loop`.
  abbrev pub broadcast : Result (Option Message) → Client b Q T → Client b Q T
  broadcast (ok (some m)) c = Client.step b request answer (arrive m) c
  broadcast _ c = c

  -- A panic of the decoder ends the receiving task; that the queue is then closed is left out.
  abbrev goes_on : Result (Option Message) → Bool
  goes_on (ok m) = true
  goes_on (err e) = true
  goes_on panic = false
  goes_on stuck = false

  abbrev pub receive : W → W
  receive w =
      let (r, (codec, down)) = decode midi (w.codec, w.desk.sink.1) in
      record w {
        codec = codec;
        listening = goes_on r;
        desk = record { sink = (w.desk.sink.0, down); outcome = w.desk.outcome };
        caller = broadcast r w.caller;
      }

  abbrev pub receive_if : Bool → W → W
  receive_if true w = receive w
  receive_if false w = w

  -- `try_next().await?`: with no message there the desk waits.
  abbrev pub take_item :
      Result (Option Message)
      → State
      → DLiveCodec midi.State × List ℕ
      → State × Connection (DLiveCodec midi.State × List ℕ)
  take_item (ok none) state sink = after_round (encode midi) (ok tt, (state, sink))
  take_item (ok (some m)) state sink = round_of (encode midi) (ok tt) (ok m) state sink
  take_item (err e) state sink = round_of (encode midi) (ok tt) (err e) state sink
  take_item panic state sink = round_of (encode midi) (ok tt) panic state sink
  take_item stuck state sink = round_of (encode midi) (ok tt) stuck state sink

  -- A round of `handle_connection`, if its task still runs.
  abbrev pub run_desk : Result (Unit {0}) → W → W
  run_desk (ok u) w =
      let (r, (codec, up)) = decode midi (w.desk.sink.0, w.up) in
      let (state, desk) = take_item r w.state (codec, w.desk.sink.1) in
      record w { up = up; state = state; desk = desk }
  run_desk _ w = w

  unfoldable pub step : Move → W → W
  step task w = run_client w.caller.place w
  step elapses w = record w { caller = Client.step b request answer elapse w.caller }
  step receives w = receive_if w.listening w
  step serves w = run_desk w.desk.outcome w
  step (touched state) w = record w { state = state }

  unfoldable pub run : List Move → W → W
  unfolding step
  run [] w = w
  run (move ∷ moves) w = run moves (step move w)

  -- A new connection, and a call on it.
  abbrev pub begin : b.Sender → List Q → State → W
  begin queue qs state = record {
    caller = Client.start b request answer queue qs;
    codec = default midi;
    listening = true;
    up = [];
    state = state;
    desk = record { sink = (default midi, []); outcome = ok tt };
  }
