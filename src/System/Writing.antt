-- ===== src/System/Writing.antt =====
-- What is on its way over lib/src/codecs.rs in one direction has a property, whatever runs.
use mcp_server_allenheath_dl.Prelude.{ℕ, ◌≡◌, refl, sym, List, [], ◌∷◌, ◌++◌, All, All-append, ok}
use mathlib.Core.Path.{subst}
use mcp_server_allenheath_dl.Messages.{Message}
use mcp_server_allenheath_dl.MidiStream.{Midi, IsWmidi, IsLossless, Consumes}
use mcp_server_allenheath_dl.Codecs.Encoder.{DLiveCodec, encode}
use mcp_server_allenheath_dl.Codecs.Decoder.{decode}
use mcp_server_allenheath_dl.Codecs.Wire.{IsEncodable, heard_as}
use mcp_server_allenheath_dl.Codecs.Stream.{encode_all}
use mcp_server_allenheath_dl.Codecs.Sends.{encode-Writes}
use mcp_server_allenheath_dl.Codecs.Duplex.{IsDuplex}
use mcp_server_allenheath_dl.Codecs.Transit.{Transit-decode}
use mcp_server_allenheath_dl.System.Link.{item_of}
use mcp_server_allenheath_dl.System.Carries.{
  Carries, Carries-encode, Carries-decode, Carries-writer_reads, Carries-reader_writes,
}

All-left : {A : Type 0} (P : A → Type 0) (xs ys : List A) → All P (xs ++ ys) → All P xs
All-left P [] ys h = tt
All-left P (x ∷ xs) ys (hx, h) = (hx, All-left P xs ys h)

All-right : {A : Type 0} (P : A → Type 0) (xs ys : List A) → All P (xs ++ ys) → All P ys
All-right P [] ys h = h
All-right P (x ∷ xs) ys (hx, h) = All-right P xs ys h

module _ (midi : Midi) (laws : IsWmidi midi) (lossless : IsLossless midi) (consumes : Consumes midi)
    (duplex : IsDuplex midi lossless) (P : Message → Type 0) where
  -- The messages that `e` has sent to `c` have the property; some of them are in the bytes.
  abbrev pub Brings : DLiveCodec midi.State → DLiveCodec midi.State → List ℕ → Type 0
  Brings e c src =
      (read sent : List Message) × Carries midi laws lossless consumes duplex e c src read sent
      × All P sent

  module _ (e c : DLiveCodec midi.State) (src : List ℕ) (brings : Brings e c src) where
    pub Brings-encode :
        (m : Message)
        → IsEncodable m
        → P (heard_as m)
        → ((encode midi m (e, src)).0 ≡ ok tt)
          × Brings (encode midi m (e, src)).1.0 c (encode midi m (e, src)).1.1
    Brings-encode m h p =
        let (read, sent, carries, all) = brings in
        (
          rw (encode-Writes midi laws lossless m h (e, src)) refl,
          (
            read,
            sent ++ heard_as m ∷ [],
            Carries-encode midi laws lossless consumes duplex e c src read sent carries m h,
            All-append P sent (heard_as m ∷ []) all (p, tt),
          ),
        )

    pub Brings-decode :
        All P (item_of (decode midi (c, src)).0)
        × Brings e (decode midi (c, src)).1.0 (decode midi (c, src)).1.1
        × (duplex.writer (decode midi (c, src)).1.0.inner ≡ duplex.writer c.inner)
    Brings-decode =
        let (read, sent, carries, all) = brings in
        let (before, on_way, _) = carries in
        let item = item_of (decode midi (c, src)).0 in
        let carries' =
          Carries-decode midi laws lossless consumes duplex e c src read sent carries in
        let (rest, _, split) = carries' in
        (
          All-right P read item (All-left P (read ++ item) rest (subst (All P) (sym split) all)),
          (read ++ item, sent, carries', all),
          (Transit-decode midi laws lossless consumes duplex e.inner c src before on_way).2,
        )

    pub Brings-writer_reads :
        (e' : DLiveCodec midi.State)
        → duplex.writer e'.inner ≡ duplex.writer e.inner
        → Brings e' c src
    Brings-writer_reads e' same =
        let (read, sent, carries, all) = brings in
        (
          read,
          sent,
          Carries-writer_reads midi laws lossless consumes duplex e c src read sent carries e' same,
          all,
        )

    pub Brings-reader_writes :
        (m : Message) (dst : List ℕ) → IsEncodable m → Brings e (encode midi m (c, dst)).1.0 src
    Brings-reader_writes m dst h =
        let (read, sent, carries, all) = brings in
        (
          read,
          sent,
          Carries-reader_writes midi laws lossless consumes duplex e c src read sent carries m dst
              h,
          all,
        )

  encode_all-cons :
      (m : Message) (ms : List Message) (t : DLiveCodec midi.State × List ℕ)
      → IsEncodable m
      → encode_all midi (m ∷ ms) t ≡ encode_all midi ms (encode midi m t).1
  unfolding encode_all
  encode_all-cons m ms t h = rw (encode-Writes midi laws lossless m h t) refl

  pub Brings-encode_all :
      (ms : List Message) (e c : DLiveCodec midi.State) (src : List ℕ)
      → All IsEncodable ms
      → All (λ m. P (heard_as m)) ms
      → Brings e c src
      → Brings (encode_all midi ms (e, src)).1.0 c (encode_all midi ms (e, src)).1.1
  unfolding encode_all
  Brings-encode_all [] e c src h p brings = brings
  Brings-encode_all (m ∷ ms) e c src (hm, h) (pm, p) brings =
      subst (λ o. Brings o.1.0 c o.1.1) (sym (encode_all-cons m ms (e, src) hm))
        (Brings-encode_all ms (encode midi m (e, src)).1.0 c (encode midi m (e, src)).1.1 h p
          (Brings-encode e c src brings m hm pm).1)

  pub Brings-reader_writes_each :
      (ms : List Message) (e c : DLiveCodec midi.State) (src dst : List ℕ)
      → All IsEncodable ms
      → Brings e c src
      → Brings e (encode_all midi ms (c, dst)).1.0 src
  unfolding encode_all
  Brings-reader_writes_each [] e c src dst h brings = brings
  Brings-reader_writes_each (m ∷ ms) e c src dst (hm, h) brings =
      subst (λ o. Brings e o.1.0 src) (sym (encode_all-cons m ms (c, dst) hm))
        (Brings-reader_writes_each ms e (encode midi m (c, dst)).1.0 src
          (encode midi m (c, dst)).1.1 h (Brings-reader_writes e c src brings m dst hm))
