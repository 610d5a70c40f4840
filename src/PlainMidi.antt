-- ===== src/PlainMidi.antt =====
-- A plain MIDI codec, without running status, as a concrete value of the interface `Midi`: the tests
-- and examples run on it. It meets each hypothesis on the crates.
use mcp_server_allenheath_dl.Prelude.{
  ℕ, ◌+◌, ◌-◌, ◌<◌, ◌≡◌, refl, Bool, true, false, List, [], ◌∷◌, ◌++◌, Option, none, some, ltb,
  ◌==◌, if◌then◌else◌, length, All, Result, ok, err, not_u7, midi_error, bad_midi_channel, arith,
  Bool-cases, Option-cases, inl, inr,
}
use mcp_server_allenheath_dl.MidiStream.{
  MidiMessage, note_on, note_off, control_change, sys_ex, owned_sys_ex, other, received, IsU7,
  IsMidi, Midi, IsWmidi, Consumes, IsLossless,
}

frame : MidiMessage → List ℕ
frame (note_off c n v) = (0x80 + c) ∷ n ∷ v ∷ []
frame (note_on c n v) = (0x90 + c) ∷ n ∷ v ∷ []
frame (control_change c f v) = (0xB0 + c) ∷ f ∷ v ∷ []
frame (sys_ex bytes) = 0xF0 ∷ (bytes ++ 0xF7 ∷ [])
frame (owned_sys_ex bytes) = 0xF0 ∷ (bytes ++ 0xF7 ∷ [])
frame (other n) = (0xF8 + n) ∷ []

encode : MidiMessage → Unit {0} × List ℕ → Result (Unit {0}) × (Unit {0} × List ℕ)
unfolding frame
encode m (s, dst) = (ok tt, (s, dst ++ frame m))

-- The bytes before the end mark, and those behind it.
until_end : List ℕ → Option (List ℕ × List ℕ)
until_end [] = none
until_end (b ∷ src) =
    let rest = until_end src in
    if b == 0xF7
    then some ([], src)
    else elim rest [ none ↦ none | some (bytes, r) ↦ some (b ∷ bytes, r) ]

abbrev Read : Type 0
Read = Result (Option MidiMessage) × (Unit {0} × List ℕ)

-- A message of two data bytes; what is not there yet is waited for.
with_two : (ℕ → ℕ → MidiMessage) → List ℕ → List ℕ → Read
with_two message src (a ∷ b ∷ rest) = (ok (some (message a b)), (tt, rest))
with_two message src _ = (ok none, (tt, src))

with_end : List ℕ → Option (List ℕ × List ℕ) → Read
with_end src none = (ok none, (tt, src))
with_end src (some (bytes, rest)) = (ok (some (owned_sys_ex bytes)), (tt, rest))

decode : Unit {0} × List ℕ → Read
unfolding with_two until_end with_end
decode (s, []) = (ok none, (s, []))
decode (s, b ∷ rest) =
    if ltb b 0x80
    then (err midi_error, (s, rest))
    else if ltb b 0x90
    then with_two (note_off (b - 0x80)) (b ∷ rest) rest
    else if ltb b 0xA0
    then with_two (note_on (b - 0x90)) (b ∷ rest) rest
    else if ltb b 0xB0
    then (err midi_error, (s, rest))
    else if ltb b 0xC0
    then with_two (control_change (b - 0xB0)) (b ∷ rest) rest
    else if b == 0xF0
    then with_end (b ∷ rest) (until_end rest)
    else if ltb b 0xF8
    then (err midi_error, (s, rest))
    else (ok (some (other (b - 0xF8))), (s, rest))

all_u7 : List ℕ → Bool
all_u7 [] = true
all_u7 (b ∷ bs) = if ltb b 128 then all_u7 bs else false

try_from_bytes : List ℕ → Result (List ℕ)
unfolding all_u7
try_from_bytes bs = if all_u7 bs then ok bs else err not_u7

unfoldable pub plain : Midi
unfolding encode decode try_from_bytes
plain = record {
  State = Unit {0};
  new = tt;
  encode = encode;
  decode = decode;
  u7_min = 0;
  u7_from_u8_lossy = λ v. v;
  note_from_u8_lossy = λ v. v;
  u7_try_from = λ v. if ltb v 128 then ok v else err not_u7;
  u7_try_from_bytes = try_from_bytes;
  channel_from_index = λ n. if ltb n 16 then ok n else err bad_midi_channel;
  non_registered_parameter_number_msb = 99;
  non_registered_parameter_number_lsb = 98;
  data_entry_msb = 6;
}

all_u7-true : (bs : List ℕ) → All IsU7 bs → all_u7 bs ≡ true
unfolding all_u7
all_u7-true [] h = refl
all_u7-true (b ∷ bs) (hb, hs) = ground (arith, all_u7-true bs hs)

all_u7_sound : (bs : List ℕ) → all_u7 bs ≡ true → All IsU7 bs
unfolding all_u7
all_u7_sound [] h = tt
all_u7_sound (b ∷ bs) h = ground (arith, all_u7_sound bs)

bytes_ok_lem : (bs : List ℕ) → All IsU7 bs → try_from_bytes bs ≡ ok bs
unfolding try_from_bytes
bytes_ok_lem bs h = rw (all_u7-true bs h)

bytes_err_lem : (bs : List ℕ) → ¬ All IsU7 bs → try_from_bytes bs ≡ err not_u7
unfolding try_from_bytes
bytes_err_lem bs h = elim (Bool-cases (all_u7 bs)) [
  | inl all ↦ absurd (h (all_u7_sound bs all))
  | inr some_high ↦ rw some_high
]

pub plain-IsWmidi : IsWmidi plain
unfolding plain
plain-IsWmidi = record {
  min_lem = refl;
  u7_lossy = λ v h. refl;
  note_lossy = λ v h. refl;
  u7_ok = λ v h. ground arith;
  u7_err = λ v h. ground arith;
  bytes_ok = bytes_ok_lem;
  bytes_err = bytes_err_lem;
  index_ok = λ v h. ground arith;
  msb_u7 = omega arith;
  lsb_u7 = omega arith;
  entry_u7 = omega arith;
  msb-ne-lsb = omega arith;
  msb-ne-entry = omega arith;
  lsb-ne-entry = omega arith;
}

until_end-append :
    (bytes rest : List ℕ)
    → All IsU7 bytes
    → until_end ((bytes ++ 0xF7 ∷ []) ++ rest) ≡ some (bytes, rest)
unfolding until_end
until_end-append [] rest h = refl
until_end-append (b ∷ bytes) rest (hb, hs) = ground (arith, until_end-append bytes rest hs)

until_end-shrinks :
    (src bytes rest : List ℕ) → until_end src ≡ some (bytes, rest) → length rest < length src
unfolding until_end
until_end-shrinks [] bytes rest e = cc
until_end-shrinks (b ∷ src) bytes rest e = elim (Option-cases (until_end src)) [
  | inl none_left ↦ ground arith
  | inr ((inner, r), found) ↦ ground (arith, until_end-shrinks src inner r found)
]

with_two-shrinks :
    (f : ℕ → ℕ → MidiMessage) (src tail : List ℕ) (m : MidiMessage) (src' : List ℕ)
    → with_two f src tail ≡ (ok (some m), (tt, src'))
    → length src' < length tail
unfolding with_two
with_two-shrinks f src (a ∷ b ∷ rest) m src' e = ground arith
with_two-shrinks f src _ m src' e = cc

with_end-shrinks :
    (src tail : List ℕ) (m : MidiMessage) (src' : List ℕ)
    → with_end src (until_end tail) ≡ (ok (some m), (tt, src'))
    → length src' < length tail
unfolding with_end
with_end-shrinks src tail m src' e = elim (Option-cases (until_end tail)) [
  | inl none_left ↦ cc (e, none_left)
  | inr ((inner, r), found) ↦ ground (arith, until_end-shrinks tail inner r found)
]

decode-shrinks :
    (s : Unit {0}) (src : List ℕ) (m : MidiMessage) (s' : Unit {0}) (src' : List ℕ)
    → decode (s, src) ≡ (ok (some m), (s', src'))
    → length src' < length src
unfolding decode
decode-shrinks s [] m s' src' e = cc
decode-shrinks s (b ∷ rest) m s' src' e = ground (
  arith,
  with_two-shrinks (note_off (b - 0x80)) (b ∷ rest) rest m src',
  with_two-shrinks (note_on (b - 0x90)) (b ∷ rest) rest m src',
  with_two-shrinks (control_change (b - 0xB0)) (b ∷ rest) rest m src',
  with_end-shrinks (b ∷ rest) rest m src',
)

pub plain-Consumes : Consumes plain
unfolding plain
plain-Consumes = record { shrinks = decode-shrinks }

decode-frame :
    (m : MidiMessage) (rest : List ℕ)
    → IsMidi m
    → decode (tt, frame m ++ rest) ≡ (ok (some (received m)), (tt, rest))
unfolding decode frame with_two
decode-frame (sys_ex bytes) rest h = rw (until_end-append bytes rest h, with_end)
decode-frame (owned_sys_ex bytes) rest h = rw (until_end-append bytes rest h, with_end)
decode-frame (note_on c n v) rest h = ground arith
decode-frame (note_off c n v) rest h = ground arith
decode-frame (control_change c n v) rest h = ground arith
decode-frame (other n) rest h = ground arith

pub plain-IsLossless : IsLossless plain
unfolding plain
plain-IsLossless = record {
  Synced = λ e d. Unit {0};
  frame = λ e m. frame m;
  sent = λ e m. tt;
  heard = λ e m. tt;
  synced_new = tt;
  encode_lem = λ e m dst h. refl;
  decode_lem = λ e d m rest h sync. decode-frame m rest h;
  synced_next = λ e d m h sync. tt;
  idle = λ d. unfold decode in refl;
}
