-- ===== src/Codecs/Faithful.antt =====
-- Which messages survive `encode` and `decode` of lib/src/codecs.rs.
use mcp_server_allenheath_dl.Prelude.{◌≤◌, ◌≡◌, refl, ap, ◌↔◌, true, List, [], ◌∷◌, arith, All, map}
use mathlib.Core.Path.{subst}
use mcp_server_allenheath_dl.Channels.Midi.{note_of}
use mcp_server_allenheath_dl.Messages.{Message, get_mute_status, send_assign, mute_group_assign}
use mcp_server_allenheath_dl.MidiStream.{Midi, IsWmidi, IsLossless, Consumes}
use mcp_server_allenheath_dl.Codecs.Encoder.{DLiveCodec}
use mcp_server_allenheath_dl.Codecs.Decoder.{Decoded, decode}
use mcp_server_allenheath_dl.Codecs.Wire.{IsEncodable, heard_as}
use mcp_server_allenheath_dl.Codecs.Stream.{Yields, done, more, encode_all}
use mcp_server_allenheath_dl.Codecs.RoundTrip.{decode-encode_all}

-- All but a question for the mute status of a channel whose note is below 8, an assignment to a send,
-- and a release from a mute group.
abbrev pub IsFaithful : Message → Type 0
IsFaithful (get_mute_status c) = 8 ≤ note_of c
IsFaithful (send_assign c s b) = ⊥
IsFaithful (mute_group_assign c g b) = b ≡ true
IsFaithful _ = Unit

heard_as_faithful : (m : Message) → IsFaithful m → heard_as m ≡ m
heard_as_faithful (get_mute_status c) h = ground arith
heard_as_faithful (send_assign c s b) h = absurd h
heard_as_faithful (mute_group_assign c g b) h = ground arith
heard_as_faithful _ h = refl

IsFaithful-heard_as : (m : Message) → heard_as m ≡ m → IsFaithful m
IsFaithful-heard_as (get_mute_status c) h = ground arith
IsFaithful-heard_as (send_assign c s b) h = cc
IsFaithful-heard_as (mute_group_assign c g b) h = ground arith
IsFaithful-heard_as _ h = tt

map-heard_as : (ms : List Message) → All IsFaithful ms → map heard_as ms ≡ ms
map-heard_as [] h = refl
map-heard_as (m ∷ ms) (hm, hs) = cc (heard_as_faithful m hm, map-heard_as ms hs)

-- What successive calls of `decode` return is determined.
Yields-unique :
    (midi : Midi) {r r' : Decoded midi} {ms ns : List Message}
    → Yields midi r ms
    → Yields midi r' ns
    → r ≡ r'
    → ms ≡ ns
Yields-unique midi (done t) (done u) e = refl
Yields-unique midi (done t) (more m u y) e = cc
Yields-unique midi (more m t y) (done u) e = cc
Yields-unique midi (more m t y) (more n u z) e =
    let same : t ≡ u = cc in let rest = Yields-unique midi y z (ap (decode midi) same) in cc

module _ (midi : Midi) (laws : IsWmidi midi) (lossless : IsLossless midi) (consumes : Consumes midi)
    (enc dec : DLiveCodec midi.State) where
  -- Between codecs in step, a list of encodable messages of the faithful kinds comes back unchanged.
  pub decode-encode_faithful :
      (ms : List Message)
      → lossless.Synced enc.inner dec.inner
      → All IsEncodable ms
      → All IsFaithful ms
      → Yields midi (decode midi (dec, (encode_all midi ms (enc, [])).1.1)) ms
  decode-encode_faithful ms sync h f =
      subst (Yields midi (decode midi (dec, (encode_all midi ms (enc, [])).1.1)))
        (map-heard_as ms f) (decode-encode_all midi laws lossless consumes enc dec ms sync h).1

  -- Between codecs in step, one encodable message comes back unchanged exactly when it is of a faithful
  -- kind: no assignment to a send, no release from a mute group, and no question for the mute status of
  -- a channel whose note is below 8.
  pub comes_back_iff :
      (m : Message)
      → lossless.Synced enc.inner dec.inner
      → IsEncodable m
      → Yields midi (decode midi (dec, (encode_all midi (m ∷ []) (enc, [])).1.1)) (m ∷ [])
        ↔ IsFaithful m
  comes_back_iff m sync h =
      let heard = (decode-encode_all midi laws lossless consumes enc dec (m ∷ []) sync (h, tt)).1 in
      (
        (λ y. let same = Yields-unique midi heard y refl in IsFaithful-heard_as m (cc)),
        (λ f. decode-encode_faithful (m ∷ []) sync (h, tt) (f, tt)),
      )
