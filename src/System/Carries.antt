-- ===== src/System/Carries.antt =====
-- One direction of a connection over lib/src/codecs.rs, between ends that have one codec each.
use mcp_server_allenheath_dl.Prelude.{ℕ, ◌≡◌, ◌∙◌, refl, sym, ap, List, [], ◌∷◌, ◌++◌, append_assoc}
use mcp_server_allenheath_dl.Messages.{Message}
use mcp_server_allenheath_dl.MidiStream.{Midi, IsWmidi, IsLossless, Consumes}
use mcp_server_allenheath_dl.Codecs.Encoder.{DLiveCodec, encode}
use mcp_server_allenheath_dl.Codecs.Decoder.{decode}
use mcp_server_allenheath_dl.Codecs.Wire.{wire, IsEncodable, heard_as}
use mcp_server_allenheath_dl.Codecs.Sends.{encode-Writes}
use mcp_server_allenheath_dl.Codecs.Duplex.{IsDuplex, reader-sent_all}
use mcp_server_allenheath_dl.Codecs.Transit.{
  Transit, next_of, later, Transit-encode, Transit-decode, Transit-writer, Transit-reader,
}
use mcp_server_allenheath_dl.System.Link.{item_of}

item_of-next_of : (ms : List Message) → item_of (next_of ms) ++ later ms ≡ ms
item_of-next_of [] = refl
item_of-next_of (m ∷ ms) = refl

module _ (midi : Midi) (laws : IsWmidi midi) (lossless : IsLossless midi) (consumes : Consumes midi)
    (duplex : IsDuplex midi lossless) where
  abbrev pub OnTheWay : midi.State → DLiveCodec midi.State → List ℕ → List Message → Type 0
  OnTheWay e c src ms = Transit midi laws lossless consumes duplex e c src ms

  -- In one direction: what was read, and what is on its way, is what was sent.
  abbrev pub Carries :
      DLiveCodec midi.State → DLiveCodec midi.State → List ℕ → List Message → List Message → Type 0
  Carries e c src read sent =
      (rest : List Message) × OnTheWay e.inner c src rest × (read ++ rest ≡ sent)

  module _ (e c : DLiveCodec midi.State) (src : List ℕ) (read sent : List Message)
      (carries : Carries e c src read sent) where
    pub Carries-encode :
        (m : Message)
        → IsEncodable m
        → Carries
            (encode midi m (e, src)).1.0
            c
            (encode midi m (e, src)).1.1
            read
            (sent ++ heard_as m ∷ [])
    Carries-encode m h =
        let (rest, on_way, all) = carries in
        (
          rest ++ heard_as m ∷ [],
          (Transit-encode midi laws lossless consumes duplex e c src rest m h on_way).1,
          sym (append_assoc read rest (heard_as m ∷ [])) ∙ ap (λ ms. ms ++ heard_as m ∷ []) all,
        )

    pub Carries-decode :
        Carries e
          (decode midi (c, src)).1.0
          (decode midi (c, src)).1.1
          (read ++ item_of (decode midi (c, src)).0)
          sent
    Carries-decode =
        let (rest, on_way, all) = carries in
        let (answer, left, kept) =
          Transit-decode midi laws lossless consumes duplex e.inner c src rest on_way in
        (
          later rest,
          left,
          ap (λ r. (read ++ item_of r) ++ later rest) answer
              ∙ append_assoc read (item_of (next_of rest)) (later rest)
              ∙ ap (λ ms. read ++ ms) (item_of-next_of rest)
              ∙ all,
        )

    -- The writer's end reads something else.
    pub Carries-writer_reads :
        (e' : DLiveCodec midi.State)
        → duplex.writer e'.inner ≡ duplex.writer e.inner
        → Carries e' c src read sent
    Carries-writer_reads e' same =
        let (rest, on_way, all) = carries in
        (
          rest,
          Transit-writer midi laws lossless consumes duplex e.inner e'.inner c src rest (sym same)
              on_way,
          all,
        )

    -- The reader's end writes something else.
    pub Carries-reader_writes :
        (m : Message) (dst : List ℕ)
        → IsEncodable m
        → Carries e (encode midi m (c, dst)).1.0 src read sent
    Carries-reader_writes m dst h =
        let (rest, on_way, all) = carries in
        rw (encode-Writes midi laws lossless m h (c, dst)) (
          rest,
          Transit-reader midi laws lossless consumes duplex e.inner c _ src rest
              (sym (reader-sent_all midi lossless duplex c.inner (wire midi m))) on_way,
          all,
        )
