-- ===== src/Tests/Source/Args.antt =====
-- The tests of mcp-server/src/args.rs; `unwrap` gives what is read.
use mcp_server_allenheath_dl.Prelude.{ℕ, ◌≡◌, refl, [], ◌∷◌, ok, ◌>>=◌}
use mcp_server_allenheath_dl.Text.{codes}
use mcp_server_allenheath_dl.Channels.{ChannelType, input, mono_aux, stereo_aux, dca}
use mcp_server_allenheath_dl.Args.Ranges.{
  ChannelRange, at, iter, range_from_str, ranges_from_str, show_ranges,
}

abbrev range : ChannelType → ℕ → ℕ → ℕ → ChannelRange
range t a b step = record { ty = t; start = a; end = b; step = step }

abbrev TestFormatChannelRangeList : Type 0
TestFormatChannelRangeList =
    show_ranges
      (range dca 16 20 1 ∷ range input 49 68 1 ∷ range input 69 85 2 ∷ range input 123 123 1 ∷ [])
    ≡ codes "DCA16-20,Ip49-68,StIp69-85,Ip123"

test_format_channel_range_list : TestFormatChannelRangeList
unfolding show_ranges
test_format_channel_range_list = refl

abbrev TestParseChannelRangeList : Type 0
TestParseChannelRangeList =
    ranges_from_str (codes "DCA16-20,Ip49-68,StIp69-85,Ip123")
    ≡ ok
        (range dca 16 20 1 ∷ range input 49 68 1 ∷ range input 69 85 2 ∷ range input 123 123 1 ∷ [])

test_parse_channel_range_list : TestParseChannelRangeList
unfolding ranges_from_str
test_parse_channel_range_list = refl

abbrev TestIterInputRange : Type 0
TestIterInputRange =
    (range_from_str (codes "Ip3-7") >>= λ r. ok (iter r))
    ≡ ok (at input 3 ∷ at input 4 ∷ at input 5 ∷ at input 6 ∷ at input 7 ∷ [])

test_iter_input_range : TestIterInputRange
unfolding range_from_str iter
test_iter_input_range = refl

abbrev TestIterStereoInputRange : Type 0
TestIterStereoInputRange =
    (range_from_str (codes "StIp3-7") >>= λ r. ok (iter r))
    ≡ ok (at input 3 ∷ at input 5 ∷ at input 7 ∷ [])

test_iter_stereo_input_range : TestIterStereoInputRange
unfolding range_from_str iter
test_iter_stereo_input_range = refl

abbrev TestIterAuxRange : Type 0
TestIterAuxRange =
    (range_from_str (codes "Aux3-7") >>= λ r. ok (iter r))
    ≡ ok (at mono_aux 3 ∷ at mono_aux 4 ∷ at mono_aux 5 ∷ at mono_aux 6 ∷ at mono_aux 7 ∷ [])

test_iter_aux_range : TestIterAuxRange
unfolding range_from_str iter
test_iter_aux_range = refl

abbrev TestIterStereoAuxRange : Type 0
TestIterStereoAuxRange =
    (range_from_str (codes "StAux3-7") >>= λ r. ok (iter r))
    ≡ ok (
        at stereo_aux 3
        ∷ at stereo_aux 4
        ∷ at stereo_aux 5
        ∷ at stereo_aux 6
        ∷ at stereo_aux 7
        ∷ [])

test_iter_stereo_aux_range : TestIterStereoAuxRange
unfolding range_from_str iter
test_iter_stereo_aux_range = refl
