-- ===== src/ChannelSet/Order.antt =====
-- The derived order of channels in lib/src/channels.rs is a strict total order.
use mcp_server_allenheath_dl.Prelude.{◌≡◌, true, false, arith}
use mcp_server_allenheath_dl.Channels.{Channel, channel_eq}
use mcp_server_allenheath_dl.ChannelSet.{channel_lt}

pub channel_lt_trans :
    (a b c : Channel) → channel_lt a b ≡ true → channel_lt b c ≡ true → channel_lt a c ≡ true
channel_lt_trans a b c h k = ground arith

pub channel_lt_differ : (a b : Channel) → channel_lt a b ≡ true → channel_eq b a ≡ false
channel_lt_differ a b h = ground arith

channel_lt_asym : (a b : Channel) → channel_lt a b ≡ true → channel_lt b a ≡ false
channel_lt_asym a b h = ground arith

pub channel_lt_total :
    (a b : Channel) → channel_lt a b ≡ false → channel_lt b a ≡ false → channel_eq a b ≡ true
channel_lt_total a b h k = ground arith
