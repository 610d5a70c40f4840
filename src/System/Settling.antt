-- ===== src/System/Settling.antt =====
-- `send_level` of lib/src/client.rs comes to its answer when nothing gets in the way.
use mcp_server_allenheath_dl.Prelude.{
  true, ℕ, replicate, ◌≡◌, ◌∙◌, refl, sym, ap, List, [], ◌∷◌, ◌++◌, some, ok, arith,
}
use mathlib.Core.Path.{subst}
use mcp_server_allenheath_dl.Channels.{Channel, IsValid}
use mcp_server_allenheath_dl.Messages.{Level, Message, send_level, get_send_level}
use mcp_server_allenheath_dl.MidiStream.{Midi, IsWmidi, IsLossless, Consumes, IsU7}
use mcp_server_allenheath_dl.Codecs.Encoder.{DLiveCodec, default, encode}
use mcp_server_allenheath_dl.Codecs.Decoder.{decode}
use mcp_server_allenheath_dl.Codecs.Sends.{encode-Writes}
use mcp_server_allenheath_dl.Codecs.Duplex.{IsDuplex}
use mcp_server_allenheath_dl.Codecs.Transit.{next_of, Transit-decode}
use mcp_server_allenheath_dl.FakeDlive.{State, send_level_of, handle}
use mcp_server_allenheath_dl.Client.{
  Broadcast, IsBroadcast, Place, sending, asking, waiting, failed, arrive, poll,
}
use mcp_server_allenheath_dl.Client
use mcp_server_allenheath_dl.System.Asked.{send_level_answer_lem}
use mcp_server_allenheath_dl.System.Carries.{
  Carries, Carries-encode, Carries-writer_reads, Carries-reader_writes,
}
use mcp_server_allenheath_dl.System.Duplex.{nothing_sent}
use mcp_server_allenheath_dl.System.Whole.{
  Move, task, receives, serves, Whole, broadcast, step, run, begin,
}
use mcp_server_allenheath_dl.System.Turns.{
  IsIdle, poll_of, run_client_idle, run-replicate, caller-run,
}
use mcp_server_allenheath_dl.System.Held.{asks_level, takes_level}

-- The client sends its request and begins to wait, in three turns; then the desk serves the request, the
-- answer is received, and the client looks again. It may have turns before each of these, and after.
abbrev pub in_turn : ℕ → ℕ → ℕ → List Move
in_turn i j k =
    task
    ∷ task
    ∷ task
    ∷ (replicate i task ++ serves ∷ (replicate j task ++ receives ∷ task ∷ replicate k task))

module _ (midi : Midi) (laws : IsWmidi midi) (lossless : IsLossless midi) (consumes : Consumes midi)
    (duplex : IsDuplex midi lossless) where
  module _ (e c : DLiveCodec midi.State) (src : List ℕ) (m : Message)
      (carries : Carries midi laws lossless consumes duplex e c src [] (m ∷ [])) where
    decode-carried :
        ((decode midi (c, src)).0 ≡ ok (some m))
        × (duplex.writer (decode midi (c, src)).1.0.inner ≡ duplex.writer c.inner)
    decode-carried =
        let (rest, on_way, one) = carries in
        let (answer, _, kept) =
          Transit-decode midi laws lossless consumes duplex e.inner c src rest on_way in
        (answer ∙ ap next_of one, kept)

  module _ (b : Broadcast) (queued : IsBroadcast b) (queue : b.Sender) (c d : Channel)
      (s : State) where
    abbrev moved :
        List Move → Whole midi.State b (Unit {0}) Level → Whole midi.State b (Unit {0}) Level
    moved = run midi b (asks_level c d) (takes_level c d)

    abbrev polled : Client.Client b (Unit {0}) Level → Client.Client b (Unit {0}) Level
    polled = poll_of midi b (asks_level c d) (takes_level c d)

    -- The client waits, and the request is on its way.
    abbrev waits : b.Sender → Client.Client b (Unit {0}) Level
    waits q = record {
      queue = q;
      sent = get_send_level c d ∷ [];
      place = waiting (b.resubscribe queue);
      todo = tt ∷ [];
      answers = [];
    }

    abbrev request_sent : Whole midi.State b (Unit {0}) Level
    request_sent =
        let new = default midi in
        let E = encode midi (get_send_level c d) (new, []) in
        record {
          caller = waits queue;
          codec = E.1.0;
          listening = true;
          up = E.1.1;
          state = s;
          desk = record { sink = (new, []); outcome = ok tt };
        }

    abbrev served : Whole midi.State b (Unit {0}) Level
    served = step midi b (asks_level c d) (takes_level c d) serves request_sent

    waits-still : polled (waits queue) ≡ waits queue
    unfolding Client.step
    waits-still =
        let r = b.resubscribe queue in
        rw (queued.recv_empty queue r (queued.new_kept queue) (queued.new_unread queue)) refl

    run-request_sent :
        IsValid c
        → IsValid d
        → (rest : List Move)
        → moved
            (task ∷ task ∷ task ∷ rest)
            (begin midi b (asks_level c d) (takes_level c d) queue (tt ∷ []) s)
          ≡ moved rest request_sent
    unfolding run Client.step
    run-request_sent vc vd rest =
        let new = default midi in
        let sent : (encode midi (get_send_level c d) (new, [])).0 ≡ ok tt =
          rw (encode-Writes midi laws lossless (get_send_level c d) (vc, vd) (new, [])) refl in
        rw sent refl

    -- What the desk has written is read as the answer.
    served-told :
        IsValid c
        → IsValid d
        → IsU7 (send_level_of c d s).value
        → (decode midi (served.codec, served.desk.sink.1)).0
          ≡ ok (some (send_level c d (send_level_of c d s)))
    unfolding handle decode step
    served-told vc vd low =
        let new = default midi in
        let request = get_send_level c d in
        let reply = send_level c d (send_level_of c d s) in
        let E = encode midi request (new, []) in
        let D = decode midi (new, E.1.1) in
        let A = encode midi reply (D.1.0, []) in
        let nothing : Carries midi laws lossless consumes duplex new new [] [] [] =
          ([], nothing_sent midi laws lossless consumes duplex, refl) in
        let up =
          Carries-encode midi laws lossless consumes duplex new new [] [] [] nothing request
            (vc, vd) in
        let (asked, kept) = decode-carried E.1.0 new E.1.1 request up in
        let down =
          Carries-encode midi laws lossless consumes duplex D.1.0 E.1.0 [] [] []
            (Carries-writer_reads midi laws lossless consumes duplex new E.1.0 [] [] []
              (Carries-reader_writes midi laws lossless consumes duplex new new [] [] [] nothing
                request [] (vc, vd))
              D.1.0 kept)
            reply (vc, vd, low) in
        let told = (decode-carried A.1.0 E.1.0 A.1.1 reply down).0 in rw asked told

    abbrev answered : Level → Client.Client b (Unit {0}) Level
    answered level = record {
      queue = b.send (send_level c d level) queue;
      sent = get_send_level c d ∷ [];
      place = asking;
      todo = [];
      answers = level ∷ [];
    }

    arrive-waits :
        (level : Level)
        → Client.step b
            (asks_level c d)
            (takes_level c d)
            (arrive (send_level c d level))
            (waits queue)
          ≡ waits (b.send (send_level c d level) queue)
    unfolding Client.step
    arrive-waits level = refl

    -- The client that looks at the answer takes it.
    polled-answered :
        (level : Level) → polled (waits (b.send (send_level c d level) queue)) ≡ answered level
    unfolding Client.step
    polled-answered level =
        let reply = send_level c d level in
        let r = b.resubscribe queue in
        let none_yet = queued.new_unread queue in
        let (kept_up, one) =
          queued.send_kept reply queue r (queued.new_kept queue) (rw none_yet (omega arith)) in
        let one_left : queued.unread (b.send reply queue) r ≡ reply ∷ [] = rw none_yet at one in
        let (r', got, _, _) = queued.recv_next (b.send reply queue) r reply [] kept_up one_left in
        rw (got, send_level_answer_lem c d level) refl

    answered-still : (level : Level) → polled (answered level) ≡ answered level
    unfolding Client.step
    answered-still level = refl

    -- If the channels are valid and the desk's level for them fits seven bits, then a new client that
    -- asks for it, and has come to wait before the desk serves the request, answers with that level when
    -- the desk, the receiving task and the client have had one turn each, in this order; however many
    -- turns the client has between them and afterwards.
    pub run-in_turn :
        (i j k : ℕ)
        → IsValid c
        → IsValid d
        → IsU7 (send_level_of c d s).value
        → (run midi b
            (asks_level c d)
            (takes_level c d)
            (in_turn i j k)
            (begin midi b (asks_level c d) (takes_level c d) queue (tt ∷ []) s)).caller.answers
          ≡ send_level_of c d s ∷ []
    unfolding run
    run-in_turn i j k vc vd low =
        let level = send_level_of c d s in
        let last = receives ∷ task ∷ replicate k task in
        let to_served =
          run-request_sent vc vd (replicate i task ++ serves ∷ (replicate j task ++ last))
          ∙ run-replicate midi b (asks_level c d) (takes_level c d) i
              (serves ∷ (replicate j task ++ last)) request_sent tt waits-still
          ∙ run-replicate midi b (asks_level c d) (takes_level c d) j last served tt waits-still in
        let received = step midi b (asks_level c d) (takes_level c d) receives served in
        let heard : received.caller ≡ waits (b.send (send_level c d level) queue) =
          ap (λ r. broadcast midi b (asks_level c d) (takes_level c d) r (waits queue))
            (served-told vc vd low)
          ∙ arrive-waits level in
        let idle =
          subst (λ x. IsIdle midi b (asks_level c d) (takes_level c d) x.place) (sym heard) tt in
        let taken =
          ap (λ x. x.caller)
            (run_client_idle midi b (asks_level c d) (takes_level c d) received.caller.place
              received idle)
          ∙ ap polled heard
          ∙ polled-answered level in
        ap (λ w. w.caller.answers) to_served
        ∙ ap (λ x. x.answers)
            (caller-run midi b (asks_level c d) (takes_level c d) k
              (step midi b (asks_level c d) (takes_level c d) task received) (answered level) taken
              tt (answered-still level))
