-- ===== src/Tests/Source/Channels.antt =====
-- The tests of lib/src/channels.rs.
use mcp_server_allenheath_dl.Prelude.{ℕ, ◌≡◌, refl, ok, err, out_of_range, unknown_channel_type}
use mcp_server_allenheath_dl.Channels.{
  ChannelType, Channel, input, stereo_aux, validate, to_midi, from_midi,
}

abbrev channel : ChannelType → ℕ → Channel
channel t n = record { ty = t; number = n }

abbrev TestChannelIsValid : Type 0
TestChannelIsValid =
    (validate (channel input 0) ≡ err out_of_range)
    × (validate (channel input 1) ≡ ok tt)
    × (validate (channel input 128) ≡ ok tt)
    × (validate (channel input 129) ≡ err out_of_range)
    × (validate (channel stereo_aux 0) ≡ err out_of_range)
    × (validate (channel stereo_aux 1) ≡ ok tt)
    × (validate (channel stereo_aux 31) ≡ ok tt)
    × (validate (channel stereo_aux 32) ≡ err out_of_range)

test_channel_is_valid : TestChannelIsValid
unfolding validate
test_channel_is_valid = (refl, refl, refl, refl, refl, refl, refl, refl)

abbrev TestChannelToMidi : Type 0
TestChannelToMidi =
    (to_midi (channel input 0) ≡ err out_of_range)
    × (to_midi (channel input 1) ≡ ok (11, 0x00))
    × (to_midi (channel input 128) ≡ ok (11, 0x7F))
    × (to_midi (channel input 129) ≡ err out_of_range)
    × (to_midi (channel stereo_aux 0) ≡ err out_of_range)
    × (to_midi (channel stereo_aux 1) ≡ ok (13, 0x40))
    × (to_midi (channel stereo_aux 31) ≡ ok (13, 0x5E))
    × (to_midi (channel stereo_aux 32) ≡ err out_of_range)

test_channel_to_midi : TestChannelToMidi
unfolding to_midi
test_channel_to_midi = (refl, refl, refl, refl, refl, refl, refl, refl)

abbrev TestChannelFromMidi : Type 0
TestChannelFromMidi =
    (from_midi 11 0x00 ≡ ok (channel input 1))
    × (from_midi 11 0x7F ≡ ok (channel input 128))
    × (from_midi 11 0x80 ≡ err unknown_channel_type)
    × (from_midi 13 0x40 ≡ ok (channel stereo_aux 1))
    × (from_midi 13 0x5E ≡ ok (channel stereo_aux 31))
    × (from_midi 13 0x5F ≡ err unknown_channel_type)

test_channel_from_midi : TestChannelFromMidi
unfolding from_midi
test_channel_from_midi = (refl, refl, refl, refl, refl, refl)
