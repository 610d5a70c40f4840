-- ===== src/MidiStream.antt =====
-- The crates `midi-stream` and `wmidi`, which lib/src/codecs.rs calls and which are not part of the
-- repository: their operations are fields of `Midi`, and what the code relies on are the fields of
-- `IsWmidi` and `IsLossless`.
use mcp_server_allenheath_dl.Prelude.{
  ℕ, ◌≤◌, ◌<◌, ◌≡◌, ◌≢◌, List, ◌++◌, Option, none, some, Result, ok, err, not_u7, length, All,
}

-- `wmidi::MidiMessage`. `other` stands for the variants that the program does not name.
pub data MidiMessage : Type 0 where
  note_on note_off control_change : ℕ → ℕ → ℕ → MidiMessage
  sys_ex owned_sys_ex : List ℕ → MidiMessage
  other : ℕ → MidiMessage

-- A decoder owns its data: it returns a `SysEx` as an `OwnedSysEx`.
abbrev pub received : MidiMessage → MidiMessage
received (sys_ex bytes) = owned_sys_ex bytes
received m = m

abbrev pub IsU7 : ℕ → Type 0
IsU7 v = v < 128

-- Channel index, note, velocity, controller, value and data are in range; the variants that the
-- program does not name are taken to be one of the eight real-time messages.
abbrev pub IsMidi : MidiMessage → Type 0
IsMidi (note_on c n v) = (c < 16) × IsU7 n × IsU7 v
IsMidi (note_off c n v) = (c < 16) × IsU7 n × IsU7 v
IsMidi (control_change c f v) = (c < 16) × IsU7 f × IsU7 v
IsMidi (sys_ex bytes) = All IsU7 bytes
IsMidi (owned_sys_ex bytes) = All IsU7 bytes
IsMidi (other n) = n < 8

pub record Midi : Type 1 where
  -- `MidiCodec<RunningStatus>`, with `Default`, `Encoder<MidiMessage>` and `Decoder`.
  pub State : Type 0
  pub new : State
  pub encode : MidiMessage → State × List ℕ → Result (Unit {0}) × (State × List ℕ)
  pub decode : State × List ℕ → Result (Option MidiMessage) × (State × List ℕ)
  -- `U7` and `Note` from bytes, and `Channel::from_index`.
  pub u7_min : ℕ
  pub u7_from_u8_lossy : ℕ → ℕ
  pub note_from_u8_lossy : ℕ → ℕ
  pub u7_try_from : ℕ → Result ℕ
  pub u7_try_from_bytes : List ℕ → Result (List ℕ)
  pub channel_from_index : ℕ → Result ℕ
  -- `ControlFunction`'s constants.
  pub non_registered_parameter_number_msb : ℕ
  pub non_registered_parameter_number_lsb : ℕ
  pub data_entry_msb : ℕ

-- Conversions are the identity on values in range, and the checked ones refuse the others.
pub record IsWmidi (midi : Midi) : Type 0 where
  pub min_lem : midi.u7_min ≡ 0
  pub u7_lossy : (v : ℕ) → IsU7 v → midi.u7_from_u8_lossy v ≡ v
  pub note_lossy : (v : ℕ) → IsU7 v → midi.note_from_u8_lossy v ≡ v
  pub u7_ok : (v : ℕ) → IsU7 v → midi.u7_try_from v ≡ ok v
  pub u7_err : (v : ℕ) → 128 ≤ v → midi.u7_try_from v ≡ err not_u7
  pub bytes_ok : (bs : List ℕ) → All IsU7 bs → midi.u7_try_from_bytes bs ≡ ok bs
  pub bytes_err : (bs : List ℕ) → ¬ All IsU7 bs → midi.u7_try_from_bytes bs ≡ err not_u7
  pub index_ok : (n : ℕ) → n < 16 → midi.channel_from_index n ≡ ok n
  pub msb_u7 : IsU7 midi.non_registered_parameter_number_msb
  pub lsb_u7 : IsU7 midi.non_registered_parameter_number_lsb
  pub entry_u7 : IsU7 midi.data_entry_msb
  pub msb-ne-lsb :
      midi.non_registered_parameter_number_msb ≢ midi.non_registered_parameter_number_lsb
  pub msb-ne-entry : midi.non_registered_parameter_number_msb ≢ midi.data_entry_msb
  pub lsb-ne-entry : midi.non_registered_parameter_number_lsb ≢ midi.data_entry_msb

-- A message takes a byte at least, whatever the input.
pub record Consumes (midi : Midi) : Type 0 where
  pub shrinks :
      (s : midi.State) (src : List ℕ) (m : MidiMessage) (s' : midi.State) (src' : List ℕ)
      → midi.decode (s, src) ≡ (ok (some m), (s', src'))
      → length src' < length src

-- A decoder in step with an encoder reads back each message that the encoder writes, and nothing
-- more. `frame` is what the encoder appends; `sent` and `heard` are the states afterwards.
pub record IsLossless (midi : Midi) : Type 1 where
  pub Synced : midi.State → midi.State → Type 0
  pub frame : midi.State → MidiMessage → List ℕ
  pub sent : midi.State → MidiMessage → midi.State
  pub heard : midi.State → MidiMessage → midi.State
  pub synced_new : Synced midi.new midi.new
  pub encode_lem :
      (e : midi.State) (m : MidiMessage) (dst : List ℕ)
      → IsMidi m
      → midi.encode m (e, dst) ≡ (ok tt, (sent e m, dst ++ frame e m))
  pub decode_lem :
      (e d : midi.State) (m : MidiMessage) (rest : List ℕ)
      → IsMidi m
      → Synced e d
      → midi.decode (d, frame e m ++ rest) ≡ (ok (some (received m)), (heard d m, rest))
  pub synced_next :
      (e d : midi.State) (m : MidiMessage) → IsMidi m → Synced e d → Synced (sent e m) (heard d m)
  pub idle : (d : midi.State) → midi.decode (d, List.[]) ≡ (ok none, (d, List.[]))
