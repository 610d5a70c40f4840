-- ===== src/ChannelSet.antt =====
-- `BTreeSet<Channel>` of the Rust standard library, as the list of its channels in the order that
-- `Channel` of lib/src/channels.rs derives, and the operations that mcp-server/src/handler.rs calls.
pub mod Order
pub mod Members
pub mod Canonical
use mcp_server_allenheath_dl.Prelude.{
  ℕ, Bool, true, false, not, ◌&&◌, ◌||◌, List, [], ◌∷◌, ltb, if◌then◌else◌,
}
use mcp_server_allenheath_dl.Channels.{discriminant, type_eq, Channel, channel_eq}

-- The derived `Ord`: by the type, and then by the number.
abbrev pub channel_lt : Channel → Channel → Bool
channel_lt a b =
    ltb (discriminant a.ty) (discriminant b.ty) || (type_eq a.ty b.ty && ltb a.number b.number)

abbrev pub ChannelSet : Type 0
ChannelSet = List Channel

abbrev pub contains : Channel → List Channel → Bool
contains c [] = false
contains c (d ∷ ds) = channel_eq d c || contains c ds

-- `BTreeSet::insert`
unfoldable pub insert_channel : Channel → ChannelSet → ChannelSet
insert_channel c [] = c ∷ []
insert_channel c (d ∷ ds) =
    let rest = insert_channel c ds in
    if channel_lt c d then c ∷ d ∷ ds else if channel_lt d c then d ∷ rest else d ∷ ds

-- `collect::<BTreeSet<_>>()`
unfoldable pub to_set : List Channel → ChannelSet
unfolding insert_channel
to_set [] = []
to_set (c ∷ cs) = insert_channel c (to_set cs)

-- `a.difference(&b)`
unfoldable pub difference : ChannelSet → ChannelSet → List Channel
difference [] b = []
difference (c ∷ a) b = let rest = difference a b in if contains c b then rest else c ∷ rest
