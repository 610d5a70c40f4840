-- ===== src/ChannelSet/Members.antt =====
-- What is in the sets that mcp-server/src/handler.rs builds.
use mcp_server_allenheath_dl.Prelude.{
  ◌≡◌, refl, ◌∙◌, ap, inl, inr, not, ◌&&◌, ◌||◌, List, [], ◌∷◌, ◌++◌, Bool-cases, arith,
}
use mcp_server_allenheath_dl.Channels.{Channel, channel_eq}
use mcp_server_allenheath_dl.Channels.Equality.{channel_eq_refl, channel_eq_sound}
use mcp_server_allenheath_dl.ChannelSet.{
  channel_lt, contains, insert_channel, to_set, difference, ChannelSet,
}
use mcp_server_allenheath_dl.ChannelSet.Order.{channel_lt_total}

pub contains-append :
    (x : Channel) (a b : List Channel) → contains x (a ++ b) ≡ contains x a || contains x b
contains-append x [] b = refl
contains-append x (c ∷ a) b = ground (arith, contains-append x a b)

contains-insert_channel :
    (x c : Channel) (s : ChannelSet)
    → contains x (insert_channel c s) ≡ channel_eq c x || contains x s
unfolding insert_channel
contains-insert_channel x c [] = refl
contains-insert_channel x c (d ∷ ds) = elim (Bool-cases (channel_lt c d)) [
  | inl before ↦ rw before refl
  | inr not_before ↦ elim (Bool-cases (channel_lt d c)) [
    | inl after ↦ rw (not_before, after) (ground (arith, contains-insert_channel x c ds))
    | inr not_after ↦
        let same = channel_eq_sound c d (channel_lt_total c d not_before not_after) in
        rw (not_before, not_after, same) (ground arith)
  ]
]

pub contains-to_set : (x : Channel) (cs : List Channel) → contains x (to_set cs) ≡ contains x cs
unfolding to_set
contains-to_set x [] = refl
contains-to_set x (c ∷ cs) =
    contains-insert_channel x c (to_set cs) ∙ ap (λ b. channel_eq c x || b) (contains-to_set x cs)

pub contains-difference :
    (x : Channel) (a b : ChannelSet)
    → contains x (difference a b) ≡ contains x a && not (contains x b)
unfolding difference
contains-difference x [] b = refl
contains-difference x (c ∷ a) b = elim (Bool-cases (channel_eq c x)) [
  | inl same ↦
      rw (channel_eq_sound c x same, channel_eq_refl x)
        (ground (arith, contains-difference x a b, channel_eq_refl x))
  | inr other ↦ ground (arith, contains-difference x a b)
]
