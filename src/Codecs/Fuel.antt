-- ===== src/Codecs/Fuel.antt =====
-- The fuel of `decode` in lib/src/codecs.rs is enough, on any input.
use mcp_server_allenheath_dl.Prelude.{
  ℕ, zero, suc, ◌<◌, ◌≡◌, refl, List, some, none, ok, err, panic, stuck, Result, Option, arith,
  length,
}
use mcp_server_allenheath_dl.MidiStream.{MidiMessage, Midi, Consumes}
use mcp_server_allenheath_dl.Codecs.Encoder.{DLiveCodec}
use mcp_server_allenheath_dl.Codecs.Decoder.{
  Flow, proceed, leave, Decoded, follow, next, decode_loop, decode,
}

module _ (midi : Midi) (consumes : Consumes midi) where
  abbrev Place : Type 0
  Place = DLiveCodec midi.State × List ℕ

  -- The rest of a round depends on the next rounds at shorter inputs only.
  follow-agree :
      (again other_again : Place → Decoded midi) (t : Place) (flow : Flow)
      → ((u : Place) → length u.1 < suc (length t.1) → again u ≡ other_again u)
      → follow midi again t flow ≡ follow midi other_again t flow
  unfolding follow
  follow-agree again other_again t (proceed ch p) h = h _ (omega arith)
  follow-agree again other_again t (leave r) h = refl

  next-agree :
      (again other_again : Place → Decoded midi) (codec : DLiveCodec midi.State) (src : List ℕ)
      → ((u : Place) → length u.1 < length src → again u ≡ other_again u)
      → next midi again codec (midi.decode (codec.inner, src))
        ≡ next midi other_again codec (midi.decode (codec.inner, src))
  unfolding next
  next-agree again other_again codec src h = go (midi.decode (codec.inner, src)) refl
    where
      go :
          (r : Result (Option MidiMessage) × (midi.State × List ℕ))
          → midi.decode (codec.inner, src) ≡ r
          → next midi again codec r ≡ next midi other_again codec r
      go (ok (some m), (s, src')) e =
          let shorter = consumes.shrinks codec.inner src m s src' e in
          follow-agree again other_again _ _ (λ u lt. h u (omega arith))
      go (ok none, (s, src')) e = refl
      go (err x, (s, src')) e = refl
      go (panic, (s, src')) e = refl
      go (stuck, (s, src')) e = refl

  decode_loop-fuel :
      (f g : ℕ) (codec : DLiveCodec midi.State) (src : List ℕ)
      → length src < f
      → length src < g
      → decode_loop midi f (codec, src) ≡ decode_loop midi g (codec, src)
  unfolding decode_loop
  decode_loop-fuel zero g codec src hf hg = absurd (omega arith)
  decode_loop-fuel (suc f) zero codec src hf hg = absurd (omega arith)
  decode_loop-fuel (suc f) (suc g) codec src hf hg =
      next-agree (decode_loop midi f) (decode_loop midi g) codec src
        (λ u lt. decode_loop-fuel f g u.0 u.1 (omega arith) (omega arith))

  -- `decode` is the loop of the source: a round, whose `continue` is `decode` itself.
  pub decode-next :
      (codec : DLiveCodec midi.State) (src : List ℕ)
      → decode midi (codec, src) ≡ next midi (decode midi) codec (midi.decode (codec.inner, src))
  unfolding decode
  decode-next codec src =
      next-agree (decode_loop midi (length src)) (decode midi) codec src
        (λ u lt. decode_loop-fuel (length src) (suc (length u.1)) u.0 u.1 lt (omega arith))
