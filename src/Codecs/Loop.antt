-- ===== src/Codecs/Loop.antt =====
-- The loop of `decode` in lib/src/codecs.rs, over the bytes that an encoder wrote.
use mcp_server_allenheath_dl.Prelude.{
  ℕ, zero, suc, ◌<◌, ◌≡◌, List, [], some, none, ok, arith, length, All,
}
use mcp_server_allenheath_dl.Channels.{Channel}
use mcp_server_allenheath_dl.Messages.{Message}
use mcp_server_allenheath_dl.MidiStream.{MidiMessage, Midi, IsMidi, IsLossless, Consumes}
use mcp_server_allenheath_dl.Codecs.Encoder.{DLiveCodec}
use mcp_server_allenheath_dl.Codecs.Decoder.{proceed, give, on_midi, decode_loop, decode}
use mcp_server_allenheath_dl.Codecs.Stream.{Hears, silent, skip, tell, Yields, done, more}
use mcp_server_allenheath_dl.Codecs.Written.{frames}

-- One round of the loop.
module _ (midi : Midi) (fuel : ℕ) (c : DLiveCodec midi.State) (src : List ℕ) (s : midi.State)
    (src' : List ℕ) where
  abbrev After : Channel → ℕ → DLiveCodec midi.State × List ℕ
  After ch p = (record { inner = s; current_channel = ch; current_param = p }, src')

  pub loop_idle :
      midi.decode (c.inner, src) ≡ (ok none, (s, src'))
      → decode_loop midi (suc fuel) (c, src) ≡ (ok none, After c.current_channel c.current_param)
  unfolding decode_loop
  loop_idle read = rw read

  pub loop_skip :
      (w : MidiMessage) (ch : Channel) (p : ℕ)
      → midi.decode (c.inner, src) ≡ (ok (some w), (s, src'))
      → on_midi midi w c.current_channel c.current_param ≡ proceed ch p
      → decode_loop midi (suc fuel) (c, src) ≡ decode_loop midi fuel (After ch p)
  unfolding decode_loop
  loop_skip w ch p read step = rw (read, step)

  pub loop_tell :
      (w : MidiMessage) (m : Message)
      → midi.decode (c.inner, src) ≡ (ok (some w), (s, src'))
      → on_midi midi w c.current_channel c.current_param ≡ give m
      → decode_loop midi (suc fuel) (c, src)
        ≡ (ok (some m), After c.current_channel c.current_param)
  unfolding decode_loop
  loop_tell w m read step = rw (read, step)

pub Yields-decode :
    (midi : Midi) (c : DLiveCodec midi.State) (src : List ℕ) {ms : List Message}
    → Yields midi (decode_loop midi (suc (length src)) (c, src)) ms
    → Yields midi (decode midi (c, src)) ms
unfolding decode
Yields-decode midi c src h = h

abbrev pub codec : {S : Type 0} → S → Channel → ℕ → DLiveCodec S
codec d ch p = record { inner = d; current_channel = ch; current_param = p }

module _ (midi : Midi) (lossless : IsLossless midi) (consumes : Consumes midi) where
  -- With a round of fuel for each byte, and one more, the calls of `decode` return what the loop
  -- hears.
  pub Hears-Yields :
      {ch : Channel} {p : ℕ} {ws : List MidiMessage} {ms : List Message} (e d : midi.State)
      (fuel : ℕ)
      → Hears midi ch p ws ms
      → All IsMidi ws
      → lossless.Synced e d
      → length (frames midi lossless e ws) < fuel
      → Yields midi (decode_loop midi fuel (codec d ch p, frames midi lossless e ws)) ms
  Hears-Yields {ch} {p} e d zero h hw sync lt = absurd (omega arith)
  Hears-Yields {ch} {p} e d (suc fuel) silent hw sync lt =
      rw (loop_idle midi fuel (codec d ch p) [] d [] (lossless.idle d)) (done _)
  Hears-Yields {ch} {p} e d (suc fuel) (skip {w} {ws} step h) (hw, hws) sync lt =
      let rest = frames midi lossless (lossless.sent e w) ws in
      let d' = lossless.heard d w in
      let read = lossless.decode_lem e d w rest hw sync in
      rw (loop_skip midi fuel (codec d ch p) _ d' rest _ _ _ read step) (
        Hears-Yields (lossless.sent e w) d' fuel h hws (lossless.synced_next e d w hw sync)
          (omega (arith, consumes.shrinks d _ _ d' rest read)))
  Hears-Yields {ch} {p} e d (suc fuel) (tell {w} {ws} {ms = ms'} step h) (hw, hws) sync lt =
      let rest = frames midi lossless (lossless.sent e w) ws in
      let d' = lossless.heard d w in
      let read = lossless.decode_lem e d w rest hw sync in
      let tail : Yields midi (decode midi (codec d' ch p, rest)) ms' =
        Yields-decode midi (codec d' ch p) rest (
          Hears-Yields (lossless.sent e w) d' (suc (length rest)) h hws
            (lossless.synced_next e d w hw sync) (omega arith)) in
      rw (loop_tell midi fuel (codec d ch p) _ d' rest _ _ read step) (more _ _ tail)
