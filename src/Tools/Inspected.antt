-- ===== src/Tools/Inspected.antt =====
-- What inspect-dlive.rs sends reaches the desk as it is.
use mcp_server_allenheath_dl.Prelude.{ℕ, zero, suc, ◌+◌, ◌≤◌, List, [], ◌∷◌, map, All, arith}
use mcp_server_allenheath_dl.Channels.{ChannelType, Channel, input, IsValid, last_number}
use mcp_server_allenheath_dl.MidiStream.{Midi, IsWmidi, IsLossless, Consumes}
use mcp_server_allenheath_dl.Codecs.Encoder.{DLiveCodec}
use mcp_server_allenheath_dl.Codecs.Decoder.{decode}
use mcp_server_allenheath_dl.Codecs.Wire.{IsEncodable}
use mcp_server_allenheath_dl.Codecs.Stream.{Yields, encode_all}
use mcp_server_allenheath_dl.Codecs.Faithful.{IsFaithful, decode-encode_faithful}
use mcp_server_allenheath_dl.Tools.{count_from, numbers_of, inspect_input, inspect_requests}

All-IsValid :
    (t : ChannelType) (n first : ℕ)
    → 1 ≤ first
    → first + n ≤ suc (last_number t)
    → All IsValid (map (λ k. record { ty = t; number = k }) (count_from n first))
All-IsValid t zero first lo hi = tt
All-IsValid t (suc n) first lo hi =
    ((lo, omega arith), All-IsValid t n (first + 1) (omega arith) (omega arith))

inspect_input-IsEncodable :
    (cs : List Channel) → All IsValid cs → All IsEncodable (inspect_input cs)
inspect_input-IsEncodable [] h = tt
inspect_input-IsEncodable (c ∷ cs) (v, h) = (v, (v, inspect_input-IsEncodable cs h))

inspect_input-IsFaithful : (cs : List Channel) → All IsFaithful (inspect_input cs)
inspect_input-IsFaithful [] = tt
inspect_input-IsFaithful (c ∷ cs) = (tt, (tt, inspect_input-IsFaithful cs))

-- Between codecs in step, a desk receives the requests for the names and colours of the 128 inputs as
-- they were sent.
inspect_requests-Yields :
    (midi : Midi) (laws : IsWmidi midi) (lossless : IsLossless midi) (consumes : Consumes midi)
    (enc dec : DLiveCodec midi.State)
    → lossless.Synced enc.inner dec.inner
    → Yields midi
        (decode midi (dec, (encode_all midi inspect_requests (enc, [])).1.1))
        inspect_requests
inspect_requests-Yields midi laws lossless consumes enc dec sync =
    decode-encode_faithful midi laws lossless consumes enc dec inspect_requests sync
      (inspect_input-IsEncodable (numbers_of input 128)
        (All-IsValid input 128 1 (omega arith) (omega arith)))
      (inspect_input-IsFaithful (numbers_of input 128))
