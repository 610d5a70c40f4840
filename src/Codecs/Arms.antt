-- ===== src/Codecs/Arms.antt =====
-- The arms of `decode_sysex_message` of lib/src/codecs.rs on any bytes.
use mcp_server_allenheath_dl.Prelude.{
  ℕ, ◌+◌, ◌≤◌, ◌<◌, ◌≡◌, List, some, Option, none, arith, All, length, bad_sysex_length, ◌==◌, leb,
}
use mcp_server_allenheath_dl.Channels.{Channel, IsValid}
use mcp_server_allenheath_dl.Channels.Names.{ChannelName}
use mcp_server_allenheath_dl.Channels.Colours.{ChannelColour}
use mcp_server_allenheath_dl.MidiStream.{IsU7}
use mcp_server_allenheath_dl.Messages.{Message}
use mcp_server_allenheath_dl.Codecs.Sysex.{
  on_channel, only_channel, decode_name, decode_colour, get_channels, decode_get_pair, decode_send,
}
use mcp_server_allenheath_dl.Codecs.Wire.{IsEncodable}
use mcp_server_allenheath_dl.Codecs.Ensures.{
  Ensures, Ensures-bind, Ensures-ensure, IsRead, get_u8-Ensures, from_midi-Ensures, IsU7Name,
  name-Ensures, colour-Ensures,
}

abbrev pub IsArm : Option (Message × List ℕ) → Type 0
IsArm none = Unit
IsArm (some (m, raw)) = IsEncodable m

module _ (n : ℕ) (raw : List ℕ) (h : All IsU7 raw) where
  pub on_channel_sound :
      (f : Channel → Message)
      → ((c : Channel) → IsValid c → IsEncodable (f c))
      → 0 < length raw
      → Ensures IsArm (on_channel f n raw)
  unfolding on_channel
  on_channel_sound f hf lt =
      Ensures-bind (IsRead raw) IsArm _ _ (get_u8-Ensures raw lt h)
        (λ p read. Ensures-bind IsValid IsArm _ _ (from_midi-Ensures n p.0) (λ c v. hf c v))

  pub only_channel_sound :
      (f : Channel → Message)
      → ((c : Channel) → IsValid c → IsEncodable (f c))
      → Ensures IsArm (only_channel f n raw)
  unfolding only_channel
  only_channel_sound f hf =
      Ensures-ensure IsArm (length raw == 1) bad_sysex_length _
        (λ one. on_channel_sound f hf (ground arith))

  pub decode_name_sound :
      (f : Channel → ChannelName → Message)
      → ((c : Channel) (k : ChannelName) → IsValid c → IsU7Name k → IsEncodable (f c k))
      → Ensures IsArm (decode_name f n raw)
  unfolding decode_name
  decode_name_sound f hf =
      Ensures-ensure IsArm (leb 1 (length raw)) bad_sysex_length _ (λ some_left.
        Ensures-bind (IsRead raw) IsArm _ _ (get_u8-Ensures raw (ground arith) h) (λ p read.
          Ensures-bind IsValid IsArm _ _ (from_midi-Ensures n p.0) (λ c v.
            Ensures-bind IsU7Name IsArm _ _ (name-Ensures p.1 read.2) (λ k hk. hf c k v hk))))

  pub decode_colour_sound :
      (f : Channel → ChannelColour → Message)
      → ((c : Channel) (k : ChannelColour) → IsValid c → IsEncodable (f c k))
      → length raw ≡ 2
      → Ensures IsArm (decode_colour f n raw)
  unfolding decode_colour
  decode_colour_sound f hf two =
      Ensures-bind (IsRead raw) IsArm _ _ (get_u8-Ensures raw (omega arith) h) (λ p read.
        Ensures-bind IsValid IsArm _ _ (from_midi-Ensures n p.0) (λ c v.
          Ensures-bind (IsRead p.1) IsArm _ _ (get_u8-Ensures p.1 (omega arith) read.2) (λ q next.
            Ensures-bind (λ _. Unit {0}) IsArm _ _ (colour-Ensures q.0) (λ k _. hf c k v))))

  abbrev IsPair : Channel × Channel × List ℕ → Type 0
  IsPair (c, d, rest) = IsValid c × IsValid d × All IsU7 rest × (length raw ≡ 3 + length rest)

  get_channels_sound : 3 ≤ length raw → Ensures IsPair (get_channels n raw)
  unfolding get_channels
  get_channels_sound three =
      Ensures-bind (IsRead raw) IsPair _ _ (get_u8-Ensures raw (omega arith) h) (λ p read.
        Ensures-bind IsValid IsPair _ _ (from_midi-Ensures n p.0) (λ c v.
          Ensures-bind (IsRead p.1) IsPair _ _ (get_u8-Ensures p.1 (omega arith) read.2) (λ q next.
            Ensures-bind (IsRead q.1) IsPair _ _ (get_u8-Ensures q.1 (omega arith) next.2)
              (λ r last.
                Ensures-bind IsValid IsPair _ _ (from_midi-Ensures q.0 r.0)
                  (λ d w. (v, w, last.2, omega arith))))))

  pub decode_get_pair_sound :
      (f : Channel → Channel → Message)
      → ((c d : Channel) → IsValid c → IsValid d → IsEncodable (f c d))
      → Ensures IsArm (decode_get_pair f n raw)
  unfolding decode_get_pair
  decode_get_pair_sound f hf = Ensures-ensure IsArm (length raw == 3) bad_sysex_length _ (λ three.
      Ensures-bind IsPair IsArm _ _ (get_channels_sound (ground arith))
        (λ p good. hf p.0 p.1 good.0 good.1))

  pub decode_send_sound :
      (f : Channel → Channel → ℕ → Message)
      → ((c d : Channel) (b : ℕ) → IsValid c → IsValid d → IsU7 b → IsEncodable (f c d b))
      → Ensures IsArm (decode_send f n raw)
  unfolding decode_send
  decode_send_sound f hf = Ensures-ensure IsArm (length raw == 4) bad_sysex_length _ (λ four.
      Ensures-bind IsPair IsArm _ _ (get_channels_sound (ground arith)) (λ p good.
        Ensures-bind (IsRead p.2) IsArm _ _ (get_u8-Ensures p.2 (ground arith) good.2)
          (λ q read. hf p.0 p.1 q.0 good.0 good.1 read.1)))
