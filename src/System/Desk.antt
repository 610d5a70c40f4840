-- ===== src/System/Desk.antt =====
-- The desk of fake-dlive/src/main.rs over the encoder of lib/src/codecs.rs does what a desk is for.
use mcp_server_allenheath_dl.Prelude.{
  ℕ, ◌≡◌, refl, inl, inr, List, [], ◌∷◌, ◌++◌, ok, map, Result, All, Bool-cases,
}
use mathlib.Core.Path.{subst}
use mcp_server_allenheath_dl.Channels.{Channel, channel_eq}
use mcp_server_allenheath_dl.Channels.Names.{ChannelName, IsName}
use mcp_server_allenheath_dl.Messages.{
  Message, get_channel_name, channel_name, get_send_level, send_level, get_fader_level, fader_level,
}
use mcp_server_allenheath_dl.MidiStream.{Midi, IsWmidi, IsLossless, IsU7}
use mcp_server_allenheath_dl.Codecs.Encoder.{DLiveCodec, encode}
use mcp_server_allenheath_dl.Codecs.Wire.{IsEncodable}
use mcp_server_allenheath_dl.Codecs.Stream.{encode_all}
use mcp_server_allenheath_dl.Codecs.Sends.{encode-Writes}
use mcp_server_allenheath_dl.FakeDlive.{
  State, pair_eq, name_of, send_level_of, fader_level_of, handle, handle_connection,
}
use mcp_server_allenheath_dl.System.{after, name_reply, reply, after_all, replies}

-- All levels fit seven bits.
abbrev pub IsLevelled : State → Type 0
IsLevelled s =
    ((c d : Channel) → IsU7 (send_level_of c d s).value)
    × ((c : Channel) → IsU7 (fader_level_of c s).value)

-- The desk has an arm for the message, and a name to answer with if that is asked for.
abbrev pub IsServed : State → Message → Type 0
IsServed s (get_channel_name c) =
    (n : ChannelName) × (name_of c s ≡ ok n) × IsName n × All IsU7 n.bytes
IsServed s (channel_name c n) = Unit
IsServed s (get_send_level c d) = Unit
IsServed s (send_level c d l) = Unit
IsServed s (get_fader_level c) = Unit
IsServed s (fader_level c l) = Unit
IsServed s _ = ⊥

pub after-IsLevelled :
    (m : Message) (s : State) → IsEncodable m → IsLevelled s → IsLevelled (after m s)
after-IsLevelled (send_level c d l) s (_, _, low) (sends, faders) = (
  (λ c' d'. elim (Bool-cases (pair_eq (c, d) (c', d'))) [
    | inl same ↦ rw same low
    | inr other ↦ rw other (sends c' d')
  ]),
  faders,
)
after-IsLevelled (fader_level c l) s (_, low) (sends, faders) = (
  sends,
  (λ c'. elim (Bool-cases (channel_eq c c')) [
    | inl same ↦ rw same low
    | inr other ↦ rw other (faders c')
  ]),
)
after-IsLevelled _ s h levelled = levelled

-- The names stay.
after-IsServed : (m x : Message) (s : State) → IsServed s x → IsServed (after m s) x
after-IsServed (send_level c d l) (get_channel_name c') s h = h
after-IsServed (fader_level c l) (get_channel_name c') s h = h
after-IsServed (send_level c d l) _ s h = h
after-IsServed (fader_level c l) _ s h = h
after-IsServed _ x s h = h

pub All-IsServed :
    (m : Message) (ms : List Message) (s : State)
    → All (IsServed s) ms
    → All (IsServed (after m s)) ms
All-IsServed m [] s h = tt
All-IsServed m (x ∷ ms) s (hx, h) = (after-IsServed m x s hx, All-IsServed m ms s h)

pub reply-IsEncodable :
    (m : Message) (s : State)
    → IsEncodable m
    → IsServed s m
    → IsLevelled s
    → All IsEncodable (reply m s)
reply-IsEncodable (get_channel_name c) s v (n, named, is_name, low) levelled =
    rw named ((v, is_name, low), tt)
reply-IsEncodable (get_send_level c d) s (v, v') served (sends, faders) = ((v, v', sends c d), tt)
reply-IsEncodable (get_fader_level c) s v served (sends, faders) = ((v, faders c), tt)
reply-IsEncodable _ s h served levelled = tt

module _ (midi : Midi) (laws : IsWmidi midi) (lossless : IsLossless midi) where
  abbrev Sink : Type 0
  Sink = DLiveCodec midi.State × List ℕ

  encode_all-append :
      (ms ns : List Message) (t : Sink)
      → All IsEncodable ms
      → encode_all midi (ms ++ ns) t ≡ encode_all midi ns (encode_all midi ms t).1
  unfolding encode_all
  encode_all-append [] ns t h = refl
  encode_all-append (m ∷ ms) ns t (hm, h) =
      rw (encode-Writes midi laws lossless m hm t) (encode_all-append ms ns _ h)

  -- The desk goes on, in the state that it is to be in, and has written the replies.
  abbrev Replied : List Message → State → Sink → Result (Unit {0}) × (State × Sink)
  Replied answers s t = (ok tt, (s, (encode_all midi answers t).1))

  pub handle-Replied :
      (m : Message) (s : State) (t : Sink)
      → IsServed s m
      → All IsEncodable (reply m s)
      → handle (encode midi) m (s, t) ≡ Replied (reply m s) (after m s) t
  unfolding handle encode_all
  handle-Replied (get_channel_name c) s t (n, named, _, _) h =
      let encodable : IsEncodable (channel_name c n) × Unit =
        subst (λ r. All IsEncodable (name_reply c r)) named h in
      rw (named, encode-Writes midi laws lossless (channel_name c n) encodable.0 t) refl
  handle-Replied (channel_name c n) s t served h = refl
  handle-Replied (get_send_level c d) s t served h =
      rw (encode-Writes midi laws lossless _ h.0 t) refl
  handle-Replied (send_level c d l) s t served h = refl
  handle-Replied (get_fader_level c) s t served h =
      rw (encode-Writes midi laws lossless _ h.0 t) refl
  handle-Replied (fader_level c l) s t served h = refl
  handle-Replied _ s t served h = absurd served

  pub handle_connection-Replied :
      (ms : List Message) (s : State) (t : Sink)
      → All IsEncodable ms
      → All (IsServed s) ms
      → IsLevelled s
      → handle_connection (encode midi) (map ok ms) (s, t)
        ≡ Replied (replies ms s) (after_all ms s) t
  unfolding handle_connection encode_all
  handle_connection-Replied [] s t h served levelled = refl
  handle_connection-Replied (m ∷ ms) s t (hm, h) (sm, served) levelled =
      let answers = reply-IsEncodable m s hm sm levelled in
      rw
        (
          handle-Replied m s t sm answers,
          encode_all-append (reply m s) (replies ms (after m s)) t answers,
        )
        (handle_connection-Replied ms (after m s) _ h (All-IsServed m ms s served)
          (after-IsLevelled m s hm levelled))
