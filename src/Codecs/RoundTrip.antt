-- ===== src/Codecs/RoundTrip.antt =====
-- The round trip of lib/src/codecs.rs: a stream that an encoder wrote, read by a decoder.
use mcp_server_allenheath_dl.Prelude.{
  ℕ, ◌≡◌, refl, List, [], ◌∷◌, ◌++◌, ok, arith, All, All-append, append_assoc, append-nil, map,
}
use mcp_server_allenheath_dl.Messages.{Message}
use mcp_server_allenheath_dl.MidiStream.{MidiMessage, Midi, IsMidi, IsWmidi, IsLossless, Consumes}
use mcp_server_allenheath_dl.Codecs.Encoder.{DLiveCodec}
use mcp_server_allenheath_dl.Codecs.Decoder.{decode}
use mcp_server_allenheath_dl.Codecs.Wire.{wire, IsEncodable, heard_as}
use mcp_server_allenheath_dl.Codecs.Written.{frames, sent_all, Wrote}
use mcp_server_allenheath_dl.Codecs.InRange.{wire-IsMidi}
use mcp_server_allenheath_dl.Codecs.Sends.{encode-Writes}
use mcp_server_allenheath_dl.Codecs.Stream.{Yields, encode_all}
use mcp_server_allenheath_dl.Codecs.Hearing.{wires, Hears-wires}
use mcp_server_allenheath_dl.Codecs.Loop.{Yields-decode, Hears-Yields}

module _ (midi : Midi) (lossless : IsLossless midi) where
  pub sent_all-append :
      (e : midi.State) (ws vs : List MidiMessage)
      → sent_all midi lossless e (ws ++ vs)
        ≡ sent_all midi lossless (sent_all midi lossless e ws) vs
  sent_all-append e [] vs = refl
  sent_all-append e (w ∷ ws) vs = sent_all-append (lossless.sent e w) ws vs

  pub frames-append :
      (e : midi.State) (ws vs : List MidiMessage)
      → frames midi lossless e (ws ++ vs)
        ≡ frames midi lossless e ws ++ frames midi lossless (sent_all midi lossless e ws) vs
  frames-append e [] vs = refl
  frames-append e (w ∷ ws) vs = rw (frames-append (lossless.sent e w) ws vs, append_assoc)

module _ (midi : Midi) (laws : IsWmidi midi) (lossless : IsLossless midi) where
  wires-IsMidi : (ms : List Message) → All IsEncodable ms → All IsMidi (wires midi ms)
  wires-IsMidi [] h = tt
  wires-IsMidi (m ∷ ms) (hm, hs) =
      All-append IsMidi (wire midi m) (wires midi ms) (wire-IsMidi midi laws m hm)
        (wires-IsMidi ms hs)

  encode_all-Writes :
      (ms : List Message) (s : DLiveCodec midi.State × List ℕ)
      → All IsEncodable ms
      → encode_all midi ms s ≡ Wrote midi lossless (wires midi ms) s
  unfolding encode_all
  encode_all-Writes [] s h = rw append-nil
  encode_all-Writes (m ∷ ms) s (hm, hs) =
      let e = s.0.inner in
      rw (
        encode-Writes midi laws lossless m hm s,
        encode_all-Writes ms _ hs,
        sent_all-append midi lossless e (wire midi m) (wires midi ms),
        frames-append midi lossless e (wire midi m) (wires midi ms),
        append_assoc,
      )

  -- From codecs whose inner states are in step, whatever channel and parameter they remember, a list
  -- of encodable messages is written with no error, and a decoder that is given the bytes returns,
  -- call by call, each message as `heard_as` says, and then no more.
  pub decode-encode_all :
      (consumes : Consumes midi) (enc dec : DLiveCodec midi.State) (ms : List Message)
      → lossless.Synced enc.inner dec.inner
      → All IsEncodable ms
      → ((encode_all midi ms (enc, [])).0 ≡ ok tt)
        × Yields midi (decode midi (dec, (encode_all midi ms (enc, [])).1.1)) (map heard_as ms)
  decode-encode_all consumes enc dec ms sync h =
      let heard = Hears-wires midi laws ms dec.current_channel dec.current_param h in
      rw (encode_all-Writes ms (enc, []) h) (
        refl,
        Yields-decode midi dec _ (
            Hears-Yields midi lossless consumes enc.inner dec.inner _ heard (wires-IsMidi ms h) sync
              (omega arith)),
      )
