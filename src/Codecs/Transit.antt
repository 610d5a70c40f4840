-- ===== src/Codecs/Transit.antt =====
-- What is on its way between two codecs of lib/src/codecs.rs, each of which also writes to the other.
use mcp_server_allenheath_dl.Prelude.{
  ℕ, zero, suc, ◌<◌, ◌≡◌, ◌∙◌, refl, sym, ap, List, [], ◌∷◌, ◌++◌, Option, none, some, Result, ok,
  length, All, All-append, append-nil, arith,
}
use mcp_server_allenheath_dl.Channels.{Channel}
use mcp_server_allenheath_dl.Messages.{Message}
use mcp_server_allenheath_dl.MidiStream.{MidiMessage, Midi, IsMidi, IsWmidi, IsLossless, Consumes}
use mcp_server_allenheath_dl.Codecs.Encoder.{DLiveCodec, encode}
use mcp_server_allenheath_dl.Codecs.Decoder.{Decoded, decode, decode_loop}
use mcp_server_allenheath_dl.Codecs.Wire.{wire, IsEncodable, heard_as}
use mcp_server_allenheath_dl.Codecs.InRange.{wire-IsMidi}
use mcp_server_allenheath_dl.Codecs.Stream.{Hears, silent, skip, tell, Yields}
use mcp_server_allenheath_dl.Codecs.Written.{frames, sent_all}
use mcp_server_allenheath_dl.Codecs.Sends.{encode-Writes}
use mcp_server_allenheath_dl.Codecs.Hearing.{Hears-wires}
use mcp_server_allenheath_dl.Codecs.RoundTrip.{sent_all-append, frames-append}
use mcp_server_allenheath_dl.Codecs.Loop.{
  codec, loop_idle, loop_skip, loop_tell, Hears-Yields, Yields-decode,
}
use mcp_server_allenheath_dl.Codecs.Duplex.{IsDuplex, frames_writer, writer-sent_all}

-- What a call of `decode` answers when these messages are on their way.
abbrev pub next_of : List Message → Result (Option Message)
next_of [] = ok none
next_of (m ∷ ms) = ok (some m)

abbrev pub later : List Message → List Message
later [] = []
later (m ∷ ms) = ms

Hears-append :
    (midi : Midi) {ch : Channel} {p : ℕ} {ws vs : List MidiMessage} {ms ns : List Message}
    → Hears midi ch p ws ms
    → ((ch' : Channel) (p' : ℕ) → Hears midi ch' p' vs ns)
    → Hears midi ch p (ws ++ vs) (ms ++ ns)
Hears-append midi {ch} {p} silent h = h ch p
Hears-append midi (skip step g) h = skip step (Hears-append midi g h)
Hears-append midi (tell told g) h = tell told (Hears-append midi g h)

module _ (midi : Midi) (laws : IsWmidi midi) (lossless : IsLossless midi) (consumes : Consumes midi)
    (duplex : IsDuplex midi lossless) where
  -- The bytes are what an encoder wrote that has come to where the writer `e` is, from a state that the
  -- reader is in step with; and the reader will hear the messages in them.
  pub record Transit (e : midi.State) (c : DLiveCodec midi.State) (src : List ℕ) (ms : List Message)
      : Type 0 where
    pub start : midi.State
    pub ws : List MidiMessage
    pub bytes : src ≡ frames midi lossless start ws
    pub are_midi : All IsMidi ws
    pub in_step : lossless.Synced start c.inner
    pub writer_is : duplex.writer (sent_all midi lossless start ws) ≡ duplex.writer e
    pub heard : Hears midi c.current_channel c.current_param ws ms

  pub Transit-Yields :
      (e : midi.State) (c : DLiveCodec midi.State) (src : List ℕ) (ms : List Message)
      → Transit e c src ms
      → Yields midi (decode midi (c, src)) ms
  Transit-Yields e c src ms t = rw (t.bytes) (
      Yields-decode midi c _ (
        Hears-Yields midi lossless consumes t.start c.inner _ t.heard t.are_midi t.in_step
          (omega arith)))

  -- The writer writes one more message.
  pub Transit-encode :
      (e c : DLiveCodec midi.State) (src : List ℕ) (ms : List Message) (m : Message)
      → IsEncodable m
      → Transit e.inner c src ms
      → ((encode midi m (e, src)).0 ≡ ok tt)
        × Transit
            (encode midi m (e, src)).1.0.inner
            c
            (encode midi m (e, src)).1.1
            (ms ++ heard_as m ∷ [])
  Transit-encode e c src ms m h t = rw (encode-Writes midi laws lossless m h (e, src)) (
    refl,
    record {
      start = t.start;
      ws = t.ws ++ wire midi m;
      bytes =
          ap (λ bs. bs ++ frames midi lossless e.inner (wire midi m)) t.bytes
          ∙ ap (λ bs. frames midi lossless t.start t.ws ++ bs)
              (frames_writer midi lossless duplex e.inner (sent_all midi lossless t.start t.ws)
                (wire midi m) (sym t.writer_is))
          ∙ sym (frames-append midi lossless t.start t.ws (wire midi m));
      are_midi = All-append IsMidi t.ws (wire midi m) t.are_midi (wire-IsMidi midi laws m h);
      in_step = t.in_step;
      writer_is =
          ap duplex.writer (sent_all-append midi lossless t.start t.ws (wire midi m))
          ∙ writer-sent_all midi lossless duplex (sent_all midi lossless t.start t.ws) e.inner
              (wire midi m) t.writer_is;
      heard =
          Hears-append midi t.heard
            (λ ch p. rw append-nil at (Hears-wires midi laws (m ∷ []) ch p (h, tt)));
    },
  )

  -- What a call of `decode` leaves: the answer, what is on its way still, and the part for writing.
  abbrev Took : midi.State → midi.State → Decoded midi → List Message → Type 0
  Took e d o ms =
      (o.0 ≡ next_of ms)
      × Transit e o.1.0 o.1.1 (later ms)
      × (duplex.writer o.1.0.inner ≡ duplex.writer d)

  Took-decode_loop :
      {ch : Channel} {p : ℕ} {ws : List MidiMessage} {ms : List Message} (e start d : midi.State)
      (fuel : ℕ)
      → Hears midi ch p ws ms
      → All IsMidi ws
      → lossless.Synced start d
      → duplex.writer (sent_all midi lossless start ws) ≡ duplex.writer e
      → length (frames midi lossless start ws) < fuel
      → Took e d (decode_loop midi fuel (codec d ch p, frames midi lossless start ws)) ms
  Took-decode_loop {ch} {p} e start d zero h hw sync end lt = absurd (omega arith)
  Took-decode_loop {ch} {p} e start d (suc fuel) silent hw sync end lt =
      rw (loop_idle midi fuel (codec d ch p) [] d [] (lossless.idle d)) (
        refl,
        record {
          start = start;
          ws = [];
          bytes = refl;
          are_midi = tt;
          in_step = sync;
          writer_is = end;
          heard = silent;
        },
        refl,
      )
  Took-decode_loop {ch} {p} e start d (suc fuel) (skip {w} {ws} step h) (hw, hws) sync end lt =
      let rest = frames midi lossless (lossless.sent start w) ws in
      let d' = lossless.heard d w in
      let read = lossless.decode_lem start d w rest hw sync in
      let (answer, left, kept) =
        Took-decode_loop e (lossless.sent start w) d' fuel h hws
          (lossless.synced_next start d w hw sync) end
          (omega (arith, consumes.shrinks d _ _ d' rest read)) in
      rw (loop_skip midi fuel (codec d ch p) _ d' rest _ _ _ read step)
        (answer, left, kept ∙ duplex.writer-heard d w)
  Took-decode_loop {ch} {p} e start d (suc fuel) (tell {w} {ws} told h) (hw, hws) sync end lt =
      let rest = frames midi lossless (lossless.sent start w) ws in
      let d' = lossless.heard d w in
      let read = lossless.decode_lem start d w rest hw sync in
      rw (loop_tell midi fuel (codec d ch p) _ d' rest _ _ read told) (
        refl,
        record {
          start = lossless.sent start w;
          ws = ws;
          bytes = refl;
          are_midi = hws;
          in_step = lossless.synced_next start d w hw sync;
          writer_is = end;
          heard = h;
        },
        duplex.writer-heard d w,
      )

  -- The reader reads once.
  pub Transit-decode :
      (e : midi.State) (c : DLiveCodec midi.State) (src : List ℕ) (ms : List Message)
      → Transit e c src ms
      → ((decode midi (c, src)).0 ≡ next_of ms)
        × Transit e (decode midi (c, src)).1.0 (decode midi (c, src)).1.1 (later ms)
        × (duplex.writer (decode midi (c, src)).1.0.inner ≡ duplex.writer c.inner)
  unfolding decode
  Transit-decode e c src ms t = rw (t.bytes) (
      Took-decode_loop e t.start c.inner (suc (length (frames midi lossless t.start t.ws))) t.heard
        t.are_midi t.in_step t.writer_is (omega arith))

  -- The writer's end has read, and the reader's end has written.
  pub Transit-writer :
      (e e' : midi.State) (c : DLiveCodec midi.State) (src : List ℕ) (ms : List Message)
      → duplex.writer e ≡ duplex.writer e'
      → Transit e c src ms
      → Transit e' c src ms
  Transit-writer e e' c src ms same t = record {
    start = t.start;
    ws = t.ws;
    bytes = t.bytes;
    are_midi = t.are_midi;
    in_step = t.in_step;
    writer_is = t.writer_is ∙ same;
    heard = t.heard;
  }

  pub Transit-reader :
      (e : midi.State) (c : DLiveCodec midi.State) (s : midi.State) (src : List ℕ)
      (ms : List Message)
      → duplex.reader c.inner ≡ duplex.reader s
      → Transit e c src ms
      → Transit e (record c { inner = s }) src ms
  Transit-reader e c s src ms same t = record {
    start = t.start;
    ws = t.ws;
    bytes = t.bytes;
    are_midi = t.are_midi;
    in_step = duplex.synced_reader t.start c.inner s same t.in_step;
    writer_is = t.writer_is;
    heard = t.heard;
  }
