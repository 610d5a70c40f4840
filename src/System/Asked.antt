-- ===== src/System/Asked.antt =====
-- A level that the client of lib/src/client.rs sets and then asks for, all the way to the desk of
-- fake-dlive/src/main.rs and back.
use mcp_server_allenheath_dl.Prelude.{◌≡◌, refl, List, [], ◌∷◌, Option, some, All, true, arith}
use mcp_server_allenheath_dl.Channels.{Channel, IsValid}
use mcp_server_allenheath_dl.Channels.Equality.{channel_eq_refl}
use mcp_server_allenheath_dl.Messages.{Level, Message, get_send_level, send_level}
use mcp_server_allenheath_dl.MidiStream.{Midi, IsWmidi, IsLossless, Consumes, IsU7}
use mcp_server_allenheath_dl.Codecs.Encoder.{DLiveCodec}
use mcp_server_allenheath_dl.Codecs.Decoder.{decode}
use mcp_server_allenheath_dl.Codecs.Stream.{Yields}
use mcp_server_allenheath_dl.Codecs.Wire.{IsEncodable}
use mcp_server_allenheath_dl.FakeDlive.{State, pair_eq}
use mcp_server_allenheath_dl.Client.{
  Broadcast, IsBroadcast, Event, arrive, poll, asking, start, run, send_level_request,
  send_level_answer,
}
use mcp_server_allenheath_dl.Client.Waiting.{client}
use mcp_server_allenheath_dl.System.{desk_session}
use mcp_server_allenheath_dl.System.Desk.{IsLevelled}
use mcp_server_allenheath_dl.System.Exchange.{exchange-back}

-- The client sends its request, subscribes, and looks again when a message has arrived.
abbrev answered_by : Message → List Event
answered_by m = poll ∷ poll ∷ poll ∷ arrive m ∷ poll ∷ []

module _ (b : Broadcast) (laws : IsBroadcast b) {Q T : Type 0} (request : Q → Message)
    (answer : Q → Message → Option T) where
  run-answered_by :
      (queue : b.Sender) (q : Q) (m : Message) (t : T)
      → answer q m ≡ some t
      → run b request answer (answered_by m) (start b request answer queue (q ∷ []))
        ≡ client (b.send m queue) (request q ∷ []) (t ∷ []) asking []
  unfolding run
  run-answered_by queue q m t told =
      let r = b.resubscribe queue in
      let none_yet = laws.new_unread queue in
      let (kept, one) =
        laws.send_kept m queue r (laws.new_kept queue) (rw none_yet (omega arith)) in
      let one_left : laws.unread (b.send m queue) r ≡ m ∷ [] = rw none_yet at one in
      let (r', got, _, _) = laws.recv_next (b.send m queue) r m [] kept one_left in
      rw (got, told) refl

pair_eq_refl : (c d : Channel) → pair_eq (c, d) (c, d) ≡ true
pair_eq_refl c d = rw (channel_eq_refl c, channel_eq_refl d) refl

pub send_level_answer_lem :
    (c d : Channel) (l : Level) → send_level_answer (c, d) (send_level c d l) ≡ some l
send_level_answer_lem c d l = rw (channel_eq_refl c, channel_eq_refl d) refl

module _ (midi : Midi) (laws : IsWmidi midi) (lossless : IsLossless midi) (consumes : Consumes midi)
    (b : Broadcast) (queued : IsBroadcast b) where
  -- If the codecs at the ends of each stream are in step, the level and those of the desk fit seven
  -- bits, and the channels are valid, then after a client has set the level of a channel in a send and
  -- asked for it, the desk's bytes are read as one message with that level, and the client that waits
  -- for it when it arrives has sent the question and answers the call with the level.
  run-desk_session :
      (desk_enc client_dec : DLiveCodec midi.State) (s : State) (queue : b.Sender) (c d : Channel)
      (l : Level)
      → lossless.Synced desk_enc.inner client_dec.inner
      → IsLevelled s
      → IsValid c
      → IsValid d
      → IsU7 l.value
      → Yields midi
          (decode midi (
            client_dec,
            (desk_session midi (send_level c d l ∷ get_send_level c d ∷ []) s desk_enc).1.1.1,
          ))
          (send_level c d l ∷ [])
        × (run b send_level_request send_level_answer
              (answered_by (send_level c d l))
              (start b send_level_request send_level_answer queue ((c, d) ∷ []))
            ≡ client (b.send (send_level c d l) queue) (get_send_level c d ∷ []) (l ∷ []) asking [])
  run-desk_session desk_enc client_dec s queue c d l down levelled vc vd low =
      let ms = send_level c d l ∷ get_send_level c d ∷ [] in
      let h : All IsEncodable ms = ((vc, vd, low), ((vc, vd), tt)) in
      (
        rw (pair_eq_refl c d) at (
            exchange-back midi laws lossless consumes desk_enc client_dec ms s down h (tt, (tt, tt))
              levelled),
        run-answered_by b queued send_level_request send_level_answer queue (c, d)
            (send_level c d l) l (send_level_answer_lem c d l),
      )
