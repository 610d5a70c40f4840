-- ===== src/Codecs/Written.antt =====
-- What an action of `DLiveCodec` in lib/src/codecs.rs wrote, if the inner codec is lossless.
use mcp_server_allenheath_dl.Prelude.{
  ℕ, ◌≡◌, List, [], ◌∷◌, ◌++◌, append_assoc, append-nil, Result, ok,
}
use mcp_server_allenheath_dl.Prelude.Exec.{◌>>◌}
use mcp_server_allenheath_dl.MidiStream.{MidiMessage, Midi, IsMidi, IsLossless}
use mcp_server_allenheath_dl.Codecs.Encoder.{DLiveCodec, Encode, encode_inner}

module _ (midi : Midi) (lossless : IsLossless midi) where
  abbrev pub frames : midi.State → List MidiMessage → List ℕ
  frames e [] = []
  frames e (w ∷ ws) = lossless.frame e w ++ frames (lossless.sent e w) ws

  abbrev pub sent_all : midi.State → List MidiMessage → midi.State
  sent_all e [] = e
  sent_all e (w ∷ ws) = sent_all (lossless.sent e w) ws

  -- The outcome of an encoder that wrote the messages `ws` and nothing else.
  abbrev pub Wrote :
      List MidiMessage
      → DLiveCodec midi.State × List ℕ
      → Result (Unit {0}) × (DLiveCodec midi.State × List ℕ)
  Wrote ws (codec, dst) =
      (ok tt, (record codec { inner = sent_all codec.inner ws }, dst ++ frames codec.inner ws))

  unfoldable pub after :
      MidiMessage → DLiveCodec midi.State × List ℕ → DLiveCodec midi.State × List ℕ
  after w (codec, dst) =
      (record codec { inner = lossless.sent codec.inner w }, dst ++ lossless.frame codec.inner w)

  pub encode_inner_lem :
      (w : MidiMessage) (s : DLiveCodec midi.State × List ℕ)
      → IsMidi w
      → encode_inner midi w s ≡ (ok tt, after w s)
  unfolding encode_inner after
  encode_inner_lem w (codec, dst) h = rw (lossless.encode_lem codec.inner w dst h)

  pub encode_one :
      (w : MidiMessage) (s : DLiveCodec midi.State × List ℕ)
      → IsMidi w
      → encode_inner midi w s ≡ Wrote (w ∷ []) s
  unfolding after
  encode_one w s h = rw (encode_inner_lem w s h, append-nil)

  -- A message, and then an encoder that wrote `ws`.
  pub encode_cons :
      (w : MidiMessage) (ws : List MidiMessage) (k : Encode midi)
      (s : DLiveCodec midi.State × List ℕ)
      → IsMidi w
      → ((t : DLiveCodec midi.State × List ℕ) → k t ≡ Wrote ws t)
      → (encode_inner midi w >> k) s ≡ Wrote (w ∷ ws) s
  unfolding after
  encode_cons w ws k s h wrote = rw (encode_inner_lem w s h, wrote (after w s), append_assoc)
