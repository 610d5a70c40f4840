-- ===== src/System/Exchange.antt =====
-- What a client of lib/src/client.rs gets back from the desk of fake-dlive/src/main.rs for what it
-- sends, through the codec of lib/src/codecs.rs in both directions.
use mcp_server_allenheath_dl.Prelude.{◌≡◌, refl, List, [], ◌∷◌, ok, All, All-append}
use mcp_server_allenheath_dl.Messages.{
  Message, get_channel_name, channel_name, get_send_level, send_level, get_fader_level, fader_level,
}
use mcp_server_allenheath_dl.MidiStream.{Midi, IsWmidi, IsLossless, Consumes}
use mcp_server_allenheath_dl.Codecs.Encoder.{DLiveCodec}
use mcp_server_allenheath_dl.Codecs.Decoder.{decode}
use mcp_server_allenheath_dl.Codecs.Wire.{IsEncodable}
use mcp_server_allenheath_dl.Codecs.Stream.{Yields, encode_all}
use mcp_server_allenheath_dl.Codecs.Faithful.{IsFaithful, decode-encode_faithful}
use mcp_server_allenheath_dl.FakeDlive.{State}
use mcp_server_allenheath_dl.System.{after, reply, after_all, replies, desk_session}
use mcp_server_allenheath_dl.System.Desk.{
  IsLevelled, IsServed, after-IsLevelled, All-IsServed, reply-IsEncodable,
  handle_connection-Replied,
}

served-IsFaithful : (s : State) (m : Message) → IsServed s m → IsFaithful m
served-IsFaithful s (get_channel_name c) h = tt
served-IsFaithful s (channel_name c n) h = tt
served-IsFaithful s (get_send_level c d) h = tt
served-IsFaithful s (send_level c d l) h = tt
served-IsFaithful s (get_fader_level c) h = tt
served-IsFaithful s (fader_level c l) h = tt
served-IsFaithful s _ h = absurd h

All-IsFaithful : (s : State) (ms : List Message) → All (IsServed s) ms → All IsFaithful ms
All-IsFaithful s [] h = tt
All-IsFaithful s (m ∷ ms) (hm, h) = (served-IsFaithful s m hm, All-IsFaithful s ms h)

reply-IsFaithful : (m : Message) (s : State) → IsServed s m → All IsFaithful (reply m s)
reply-IsFaithful (get_channel_name c) s (n, named, _, _) = rw named (tt, tt)
reply-IsFaithful (get_send_level c d) s h = (tt, tt)
reply-IsFaithful (get_fader_level c) s h = (tt, tt)
reply-IsFaithful _ s h = tt

replies-IsFaithful :
    (ms : List Message) (s : State) → All (IsServed s) ms → All IsFaithful (replies ms s)
replies-IsFaithful [] s h = tt
replies-IsFaithful (m ∷ ms) s (hm, h) =
    All-append IsFaithful (reply m s) (replies ms (after m s)) (reply-IsFaithful m s hm)
      (replies-IsFaithful ms (after m s) (All-IsServed m ms s h))

replies-IsEncodable :
    (ms : List Message) (s : State)
    → All IsEncodable ms
    → All (IsServed s) ms
    → IsLevelled s
    → All IsEncodable (replies ms s)
replies-IsEncodable [] s h served levelled = tt
replies-IsEncodable (m ∷ ms) s (hm, h) (sm, served) levelled =
    All-append IsEncodable (reply m s) (replies ms (after m s))
      (reply-IsEncodable m s hm sm levelled)
      (replies-IsEncodable ms (after m s) h (All-IsServed m ms s served)
        (after-IsLevelled m s hm levelled))

module _ (midi : Midi) (laws : IsWmidi midi) (lossless : IsLossless midi)
    (consumes : Consumes midi) where
  pub exchange-back :
      (desk_enc client_dec : DLiveCodec midi.State) (ms : List Message) (s : State)
      → lossless.Synced desk_enc.inner client_dec.inner
      → All IsEncodable ms
      → All (IsServed s) ms
      → IsLevelled s
      → Yields midi
          (decode midi (client_dec, (desk_session midi ms s desk_enc).1.1.1))
          (replies ms s)
  exchange-back desk_enc client_dec ms s down h served levelled =
      rw (handle_connection-Replied midi laws lossless ms s (desk_enc, []) h served levelled) (
        decode-encode_faithful midi laws lossless consumes desk_enc client_dec (replies ms s) down
          (replies-IsEncodable ms s h served levelled) (replies-IsFaithful ms s served))

  -- If the codecs at the ends of each stream are in step, the client's messages are encodable and ones
  -- that the desk serves, and the desk's levels fit seven bits, then the desk receives the messages as
  -- they were sent, serves them all with no error, is in the state that they lead to, and has written
  -- bytes that the client reads as the replies, one for each question, in the questions' order.
  pub exchange-Yields :
      (client_enc desk_dec desk_enc client_dec : DLiveCodec midi.State) (ms : List Message)
      (s : State)
      → lossless.Synced client_enc.inner desk_dec.inner
      → lossless.Synced desk_enc.inner client_dec.inner
      → All IsEncodable ms
      → All (IsServed s) ms
      → IsLevelled s
      → Yields midi (decode midi (desk_dec, (encode_all midi ms (client_enc, [])).1.1)) ms
        × ((desk_session midi ms s desk_enc).0 ≡ ok tt)
        × ((desk_session midi ms s desk_enc).1.0 ≡ after_all ms s)
        × Yields midi
            (decode midi (client_dec, (desk_session midi ms s desk_enc).1.1.1))
            (replies ms s)
  exchange-Yields client_enc desk_dec desk_enc client_dec ms s up down h served levelled =
      let replied =
        handle_connection-Replied midi laws lossless ms s (desk_enc, []) h served levelled in
      (
        decode-encode_faithful midi laws lossless consumes client_enc desk_dec ms up h
            (All-IsFaithful s ms served),
        rw replied refl,
        rw replied refl,
        exchange-back desk_enc client_dec ms s down h served levelled,
      )
