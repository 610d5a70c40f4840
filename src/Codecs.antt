-- ===== src/Codecs.antt =====
-- lib/src/codecs.rs: `DLiveCodec`, between messages and the bytes of a MIDI stream.
pub mod Body
pub mod Encoder
pub mod Sysex
pub mod Decoder
pub mod Wire
pub mod Written
pub mod InRange
pub mod Controls
pub mod Sends
pub mod Hears
pub mod Stream
pub mod Hearing
pub mod Loop
pub mod RoundTrip
pub mod Faithful
pub mod Ensures
pub mod Arms
pub mod Sound
pub mod Refusals
pub mod LateLevel
pub mod Fuel
pub mod Duplex
pub mod Transit
