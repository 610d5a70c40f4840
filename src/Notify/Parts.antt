-- ===== src/Notify/Parts.antt =====
-- What a notification of mcp-server/src/handler.rs says.
use mcp_server_allenheath_dl.Prelude.{
  ℕ, ◌≡◌, refl, ap, ◌∙◌, ◌↔◌, false, List, [], ◌∷◌, ◌++◌, get_elem?, Option, some, arith,
}
use mcp_server_allenheath_dl.Text.{codes}
use mcp_server_allenheath_dl.Channels.{Channel}
use mcp_server_allenheath_dl.Channels.Equality.{channel_eq_refl}
use mcp_server_allenheath_dl.ChannelSet.{ChannelSet, contains, to_set, difference}
use mcp_server_allenheath_dl.ChannelSet.Members.{
  contains-difference, contains-append, contains-to_set,
}
use mcp_server_allenheath_dl.ChannelSet.Canonical.{
  IsSorted, IsSorted-unique, SameMembers, to_set-IsSorted, to_set_iff,
}
use mcp_server_allenheath_dl.Args.Ranges.{iter_all}
use mcp_server_allenheath_dl.Args.Config.{ChannelConfig}
use mcp_server_allenheath_dl.Notify.{
  sets_of, Changes, changes, part, parts, message, no_changes, message_of,
}

-- A list without members is empty.
empty_of : (s : List Channel) → ((x : Channel) → contains x s ≡ false) → s ≡ []
empty_of [] h = refl
empty_of (c ∷ s) h = absurd (ground (arith, h c, channel_eq_refl c))

difference_same : (s : ChannelSet) → difference s s ≡ []
difference_same s = empty_of (difference s s) (λ x. ground (arith, contains-difference x s s))

-- Nothing added and nothing removed.
same_members : (s t : ChannelSet) → difference s t ≡ [] → difference t s ≡ [] → SameMembers s t
same_members s t e k x = ground (
  arith,
  contains-difference x s t,
  contains-difference x t s,
  ap (contains x) e,
  ap (contains x) k,
)

-- A set after what is removed is taken out and what is added is put in.
abbrev pub applied : ChannelSet → List Channel → List Channel → ChannelSet
applied prev added removed = to_set (difference prev removed ++ added)

pub applied-difference :
    (prev next : ChannelSet)
    → IsSorted next
    → applied prev (difference next prev) (difference prev next) ≡ next
applied-difference prev next h =
    let added = difference next prev in
    let removed = difference prev next in
    IsSorted-unique (applied prev added removed) next
      (to_set-IsSorted (difference prev removed ++ added)) h
      (λ x.
        contains-to_set x (difference prev removed ++ added)
        ∙ contains-append x (difference prev removed) added
        ∙ ground (
          arith,
          contains-difference x prev removed,
          contains-difference x prev next,
          contains-difference x next prev,
        ))

part_empty : (label : List ℕ) (cs : List Channel) → part label cs ≡ [] → cs ≡ []
part_empty label [] e = refl
part_empty label (c ∷ cs) e = cc

append_empty : {A : Type 0} (a b : List A) → a ++ b ≡ [] → (a ≡ []) × (b ≡ [])
append_empty [] b e = (refl, e)
append_empty (x ∷ a) b e = cc

colon_not_space : {A : Type 0} → ◌≡◌ {A = Option ℕ} (some b':') (some b' ') → A
colon_not_space e = cc

-- The one text has a space where the other has a colon.
message_of_empty : (ps : List (List ℕ)) → message_of ps ≡ no_changes → ps ≡ []
message_of_empty [] e = refl
message_of_empty (p ∷ ps) e = colon_not_space (ap (λ t. get_elem? t 23) e)

abbrev IsUnchanged : Changes → Type 0
IsUnchanged d =
    (d.added_inputs ≡ []) × (d.removed_inputs ≡ []) × (d.added_mixes ≡ []) × (d.removed_mixes ≡ [])

parts_empty : (d : Changes) → parts d ≡ [] → IsUnchanged d
unfolding parts
parts_empty d e =
    let a = part (codes "inputs added: ") d.added_inputs in
    let b = part (codes "inputs removed: ") d.removed_inputs in
    let c = part (codes "mixes added: ") d.added_mixes in
    let f = part (codes "mixes removed: ") d.removed_mixes in
    let (first_three, none_f) = append_empty (a ++ b ++ c) f e in
    let (first_two, none_c) = append_empty (a ++ b) c first_three in
    let (none_a, none_b) = append_empty a b first_two in
    (
      part_empty (codes "inputs added: ") d.added_inputs none_a,
      part_empty (codes "inputs removed: ") d.removed_inputs none_b,
      part_empty (codes "mixes added: ") d.added_mixes none_c,
      part_empty (codes "mixes removed: ") d.removed_mixes none_f,
    )

-- The same of the lists that two sets are made of.
same_lists :
    (cs ds : List Channel)
    → difference (to_set cs) (to_set ds) ≡ []
    → difference (to_set ds) (to_set cs) ≡ []
    → SameMembers cs ds
same_lists cs ds e k = (to_set_iff cs ds).0 (
    IsSorted-unique (to_set cs) (to_set ds) (to_set-IsSorted cs) (to_set-IsSorted ds)
      (same_members (to_set cs) (to_set ds) e k))

-- The notification says that nothing has changed exactly if the same channels are inputs, and the same
-- are mixes, in whatever ranges and order the two configurations give them.
message_iff :
    (prev next : ChannelConfig)
    → (message (changes (sets_of prev) (sets_of next)) ≡ no_changes) ↔ (
        SameMembers (iter_all prev.inputs) (iter_all next.inputs)
        × SameMembers (iter_all prev.mixes) (iter_all next.mixes))
unfolding message changes sets_of parts
message_iff prev next = (
  λ e.
      (let d = changes (sets_of prev) (sets_of next) in
        let (a, b, c, f) = parts_empty d (message_of_empty (parts d) e) in
        (
          same_lists (iter_all prev.inputs) (iter_all next.inputs) b a,
          same_lists (iter_all prev.mixes) (iter_all next.mixes) f c,
        )),
  λ (same_inputs, same_mixes).
      (let i = (to_set_iff (iter_all prev.inputs) (iter_all next.inputs)).1 same_inputs in
        let m = (to_set_iff (iter_all prev.mixes) (iter_all next.mixes)).1 same_mixes in
        rw
          (
            i,
            m,
            difference_same (to_set (iter_all next.inputs)),
            difference_same (to_set (iter_all next.mixes)),
          )
          refl),
)
