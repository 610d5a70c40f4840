-- ===== src/ChannelSet/Canonical.antt =====
-- A set of channels in mcp-server/src/handler.rs is its channels: the list in order is unique.
use mcp_server_allenheath_dl.Prelude.{
  ◌≡◌, refl, ◌∙◌, sym, ap, inl, inr, true, false, List, [], ◌∷◌, All, Bool-cases, arith, ◌↔◌,
}
use mathlib.Core.Path.{subst}
use mcp_server_allenheath_dl.Channels.{Channel, channel_eq}
use mcp_server_allenheath_dl.Channels.Equality.{channel_eq_refl, channel_eq_sound}
use mcp_server_allenheath_dl.ChannelSet.{channel_lt, contains, insert_channel, to_set, ChannelSet}
use mcp_server_allenheath_dl.ChannelSet.Order.{
  channel_lt_total, channel_lt_trans, channel_lt_differ,
}
use mcp_server_allenheath_dl.ChannelSet.Members.{contains-to_set}

abbrev IsBefore : Channel → Channel → Type 0
IsBefore c d = channel_lt c d ≡ true

-- Each channel comes before all that stand behind it.
abbrev pub IsSorted : List Channel → Type 0
IsSorted [] = Unit
IsSorted (c ∷ cs) = All (IsBefore c) cs × IsSorted cs

All-IsBefore :
    (c d : Channel) (ds : List Channel) → IsBefore c d → All (IsBefore d) ds → All (IsBefore c) ds
All-IsBefore c d [] h all = tt
All-IsBefore c d (e ∷ ds) h (he, all) = (channel_lt_trans c d e h he, All-IsBefore c d ds h all)

-- What comes before a channel comes before all of a list that it is added to.
All-insert_channel :
    (b c : Channel) (s : ChannelSet)
    → IsBefore b c
    → All (IsBefore b) s
    → All (IsBefore b) (insert_channel c s)
unfolding insert_channel
All-insert_channel b c [] h all = (h, tt)
All-insert_channel b c (d ∷ ds) h (hd, all) = elim (Bool-cases (channel_lt c d)) [
  | inl before ↦ rw before (h, (hd, all))
  | inr not_before ↦ elim (Bool-cases (channel_lt d c)) [
    | inl after ↦ rw (not_before, after) (hd, All-insert_channel b c ds h all)
    | inr not_after ↦ rw (not_before, not_after) (hd, all)
  ]
]

insert_channel-IsSorted :
    (c : Channel) (s : ChannelSet) → IsSorted s → IsSorted (insert_channel c s)
unfolding insert_channel
insert_channel-IsSorted c [] h = (tt, tt)
insert_channel-IsSorted c (d ∷ ds) (all, h) = elim (Bool-cases (channel_lt c d)) [
  | inl before ↦ rw before ((before, All-IsBefore c d ds before all), (all, h))
  | inr not_before ↦ elim (Bool-cases (channel_lt d c)) [
    | inl after ↦
        rw (not_before, after) (All-insert_channel d c ds after all, insert_channel-IsSorted c ds h)
    | inr not_after ↦ rw (not_before, not_after) (all, h)
  ]
]

pub to_set-IsSorted : (cs : List Channel) → IsSorted (to_set cs)
unfolding to_set
to_set-IsSorted [] = tt
to_set-IsSorted (c ∷ cs) = insert_channel-IsSorted c (to_set cs) (to_set-IsSorted cs)

-- What comes before all of a list is not in it.
contains_before : (c : Channel) (s : List Channel) → All (IsBefore c) s → contains c s ≡ false
contains_before c [] all = refl
contains_before c (d ∷ ds) (h, all) = rw (channel_lt_differ c d h, contains_before c ds all) refl

abbrev pub SameMembers : List Channel → List Channel → Type 0
SameMembers s t = (x : Channel) → contains x s ≡ contains x t

-- The first of two lists in order is the same.
first_same :
    (c d : Channel) (s t : List Channel)
    → IsSorted (c ∷ s)
    → IsSorted (d ∷ t)
    → SameMembers (c ∷ s) (d ∷ t)
    → c ≡ d
first_same c d s t (hc, hs) (hd, ht) same = elim (Bool-cases (channel_lt c d)) [
  | inl before ↦
      let none = contains_before c (d ∷ t) (before, All-IsBefore c d t before hd) in
      absurd (ground (arith, same c, none, channel_eq_refl c))
  | inr not_before ↦ elim (Bool-cases (channel_lt d c)) [
    | inl after ↦
        let none = contains_before d (c ∷ s) (after, All-IsBefore d c s after hc) in
        absurd (ground (arith, same d, none, channel_eq_refl d))
    | inr not_after ↦ channel_eq_sound c d (channel_lt_total c d not_before not_after)
  ]
]

rest_same :
    (c : Channel) (s t : List Channel)
    → IsSorted (c ∷ s)
    → IsSorted (c ∷ t)
    → SameMembers (c ∷ s) (c ∷ t)
    → SameMembers s t
rest_same c s t (hs, _) (ht, _) same x = elim (Bool-cases (channel_eq c x)) [
  | inl this ↦
      rw (sym (channel_eq_sound c x this)) (contains_before c s hs ∙ sym (contains_before c t ht))
  | inr other ↦ ground (arith, same x)
]

pub IsSorted-unique : (s t : List Channel) → IsSorted s → IsSorted t → SameMembers s t → s ≡ t
IsSorted-unique [] [] hs ht same = refl
IsSorted-unique [] (d ∷ t) hs ht same = absurd (ground (arith, same d, channel_eq_refl d))
IsSorted-unique (c ∷ s) [] hs ht same = absurd (ground (arith, same c, channel_eq_refl c))
IsSorted-unique (c ∷ s) (d ∷ t) hs ht same =
    let first = first_same c d s t hs ht same in
    let ht' = subst (λ e. IsSorted (e ∷ t)) (sym first) ht in
    let same' = subst (λ e. SameMembers (c ∷ s) (e ∷ t)) (sym first) same in
    let rest = IsSorted-unique s t hs.1 ht.1 (rest_same c s t hs ht' same') in
    ap (λ l. c ∷ l) rest ∙ ap (λ e. e ∷ t) first

-- Two lists of channels make the same set exactly if every channel is in both or in neither.
pub to_set_iff : (cs ds : List Channel) → (to_set cs ≡ to_set ds) ↔ SameMembers cs ds
to_set_iff cs ds = (
  λ e x. sym (contains-to_set x cs) ∙ ap (contains x) e ∙ contains-to_set x ds,
  λ same.
      IsSorted-unique (to_set cs) (to_set ds) (to_set-IsSorted cs) (to_set-IsSorted ds)
        (λ x. contains-to_set x cs ∙ same x ∙ sym (contains-to_set x ds)),
)
