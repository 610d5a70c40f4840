-- ===== src/Channels/Equality.antt =====
-- The derived equality of channels in lib/src/channels.rs is equality.
use mcp_server_allenheath_dl.Prelude.{
  ◌≡◌, refl, ap, ◌∙◌, true, List, [], ◌∷◌, some, get_elem?, arith,
}
use mcp_server_allenheath_dl.Channels.{
  ChannelType, input, mono_group, stereo_group, mono_aux, stereo_aux, mono_matrix, stereo_matrix,
  mono_fx_send, stereo_fx_send, fx_return, mains, dca, mute_group, stereo_ufx_send,
  stereo_ufx_return, discriminant, type_eq, Channel, channel_eq,
}

abbrev types : List ChannelType
types =
    input ∷ mono_group ∷ stereo_group ∷ mono_aux ∷ stereo_aux ∷ mono_matrix ∷ stereo_matrix
    ∷ mono_fx_send ∷ stereo_fx_send ∷ fx_return ∷ mains ∷ dca ∷ mute_group ∷ stereo_ufx_send
    ∷ stereo_ufx_return ∷ []

get_elem?-discriminant : (t : ChannelType) → get_elem? types (discriminant t) ≡ some t
get_elem?-discriminant input = refl
get_elem?-discriminant _ = refl

type_eq_sound : (a b : ChannelType) → type_eq a b ≡ true → a ≡ b
type_eq_sound a b e =
    let same : discriminant a ≡ discriminant b = ground arith in
    cc (get_elem?-discriminant a, get_elem?-discriminant b, ap (get_elem? types) same)

pub channel_eq_refl : (c : Channel) → channel_eq c c ≡ true
channel_eq_refl c = ground arith

pub channel_eq_sound : (c d : Channel) → channel_eq c d ≡ true → c ≡ d
channel_eq_sound c d e =
    let types_same : type_eq c.ty d.ty ≡ true = ground arith in
    let ty_same = type_eq_sound c.ty d.ty types_same in
    let number_same : c.number ≡ d.number = ground arith in
    ap (λ t. record { ty = t; number = c.number }) ty_same
    ∙ ap (λ n. record { ty = d.ty; number = n }) number_same
