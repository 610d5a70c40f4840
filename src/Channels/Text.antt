-- ===== src/Channels/Text.antt =====
-- The text of channels: `Display` and `FromStr` of `ChannelType` and `Channel` in lib/src/channels.rs.
use mcp_server_allenheath_dl.Prelude.{
  ℕ, List, [], ◌∷◌, ◌++◌, none, some, find, Result, ok, ok_or, unknown_channel_type, no_number,
  ◌>>=◌, ◌>>◌,
}
use mcp_server_allenheath_dl.Text.{codes, text_eq, split_at_digit, parse_u8, show_u8}
use mcp_server_allenheath_dl.Channels.{
  ChannelType, input, mono_group, stereo_group, mono_aux, stereo_aux, mono_matrix, stereo_matrix,
  mono_fx_send, stereo_fx_send, fx_return, mains, dca, mute_group, stereo_ufx_send,
  stereo_ufx_return, type_eq, Channel, validate,
}

abbrev pub prefixes : List (ChannelType × List ℕ)
prefixes =
    (input, codes "Ip")
    ∷ (mono_group, codes "Grp")
    ∷ (stereo_group, codes "StGrp")
    ∷ (mono_aux, codes "Aux")
    ∷ (stereo_aux, codes "StAux")
    ∷ (mono_matrix, codes "Mtx")
    ∷ (stereo_matrix, codes "StMtx")
    ∷ (fx_return, codes "FXRet")
    ∷ (mains, codes "Main")
    ∷ (dca, codes "DCA")
    ∷ (stereo_ufx_send, codes "UFX")
    ∷ (stereo_ufx_return, codes "UFXR")
    ∷ []

-- The derived `Debug`, which `Display` falls back on.
abbrev debug_type : ChannelType → List ℕ
debug_type input = codes "Input"
debug_type mono_group = codes "MonoGroup"
debug_type stereo_group = codes "StereoGroup"
debug_type mono_aux = codes "MonoAux"
debug_type stereo_aux = codes "StereoAux"
debug_type mono_matrix = codes "MonoMatrix"
debug_type stereo_matrix = codes "StereoMatrix"
debug_type mono_fx_send = codes "MonoFxSend"
debug_type stereo_fx_send = codes "StereoFxSend"
debug_type fx_return = codes "FxReturn"
debug_type mains = codes "Mains"
debug_type dca = codes "Dca"
debug_type mute_group = codes "MuteGroup"
debug_type stereo_ufx_send = codes "StereoUFXSend"
debug_type stereo_ufx_return = codes "StereoUFXReturn"

unfoldable pub show_type : ChannelType → List ℕ
show_type t = elim (find (λ (e : ChannelType × List ℕ). type_eq e.0 t) prefixes) [
  | some (_, s) ↦ s
  | none ↦ debug_type t
]

unfoldable pub show_channel : Channel → List ℕ
unfolding show_type show_u8
show_channel c = show_type c.ty ++ show_u8 c.number

unfoldable pub type_from_str : List ℕ → Result ChannelType
type_from_str s = do
  (ty, _) ← ok_or (find (λ (e : ChannelType × List ℕ). text_eq e.1 s) prefixes) unknown_channel_type
  ok ty

unfoldable pub channel_from_str : List ℕ → Result Channel
unfolding split_at_digit type_from_str parse_u8 validate
channel_from_str s = do
  (ty_str, rest) ← ok_or (split_at_digit s) no_number
  ty ← type_from_str ty_str
  n ← parse_u8 rest
  let channel : Channel = record { ty = ty; number = n }
  validate channel
  ok channel
