-- ===== src/Codecs/Duplex.antt =====
-- One codec for both directions, as `Framed` has it over lib/src/codecs.rs: what is relied on of the
-- crate midi-stream, and what it means for the codec's inner state.
use mcp_server_allenheath_dl.Prelude.{◌≡◌, ◌∙◌, refl, List, [], ◌∷◌}
use mcp_server_allenheath_dl.MidiStream.{MidiMessage, Midi, IsLossless}
use mcp_server_allenheath_dl.Codecs.Written.{frames, sent_all}

-- The inner codec has a part for writing and a part for reading, and neither direction touches the
-- other's.
pub record IsDuplex (midi : Midi) (lossless : IsLossless midi) : Type 1 where
  pub Writer : Type 0
  pub Reader : Type 0
  pub writer : midi.State → Writer
  pub reader : midi.State → Reader
  pub frame_writer :
      (e e' : midi.State) (m : MidiMessage)
      → writer e ≡ writer e'
      → lossless.frame e m ≡ lossless.frame e' m
  pub writer-sent :
      (e e' : midi.State) (m : MidiMessage)
      → writer e ≡ writer e'
      → writer (lossless.sent e m) ≡ writer (lossless.sent e' m)
  pub reader-sent : (e : midi.State) (m : MidiMessage) → reader (lossless.sent e m) ≡ reader e
  pub writer-heard : (d : midi.State) (m : MidiMessage) → writer (lossless.heard d m) ≡ writer d
  pub synced_reader :
      (e d d' : midi.State) → reader d ≡ reader d' → lossless.Synced e d → lossless.Synced e d'

module _ (midi : Midi) (lossless : IsLossless midi) (duplex : IsDuplex midi lossless) where
  pub frames_writer :
      (e e' : midi.State) (ws : List MidiMessage)
      → duplex.writer e ≡ duplex.writer e'
      → frames midi lossless e ws ≡ frames midi lossless e' ws
  frames_writer e e' [] h = refl
  frames_writer e e' (w ∷ ws) h = cc (
    duplex.frame_writer e e' w h,
    frames_writer (lossless.sent e w) (lossless.sent e' w) ws (duplex.writer-sent e e' w h),
  )

  pub writer-sent_all :
      (e e' : midi.State) (ws : List MidiMessage)
      → duplex.writer e ≡ duplex.writer e'
      → duplex.writer (sent_all midi lossless e ws) ≡ duplex.writer (sent_all midi lossless e' ws)
  writer-sent_all e e' [] h = h
  writer-sent_all e e' (w ∷ ws) h =
      writer-sent_all (lossless.sent e w) (lossless.sent e' w) ws (duplex.writer-sent e e' w h)

  pub reader-sent_all :
      (e : midi.State) (ws : List MidiMessage)
      → duplex.reader (sent_all midi lossless e ws) ≡ duplex.reader e
  reader-sent_all e [] = refl
  reader-sent_all e (w ∷ ws) = reader-sent_all (lossless.sent e w) ws ∙ duplex.reader-sent e w
