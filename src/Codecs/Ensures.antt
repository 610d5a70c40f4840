-- ===== src/Codecs/Ensures.antt =====
-- A postcondition for fallible calls: no panic, no exhausted fuel, and `P` of what is returned. The
-- rules for the steps of `decode_sysex_message` of lib/src/codecs.rs.
use mcp_server_allenheath_dl.Prelude.{
  ℕ, zero, suc, ◌-◌, ◌≤◌, ◌<◌, ◌≡◌, refl, inl, inr, Bool, true, false, List, [], ◌∷◌, ok, err,
  panic, stuck, Result, Error, ensure, arith, All, All-append, length, length-append,
  length-replicate, replicate, ◌>>=◌, if◌then◌else◌, leb,
}
use mcp_server_allenheath_dl.Channels.{IsValid, from_midi}
use mcp_server_allenheath_dl.Channels.Midi.{from_midi_cases}
use mcp_server_allenheath_dl.Channels.Names
use mcp_server_allenheath_dl.Channels.Names.{ChannelName, IsName}
use mcp_server_allenheath_dl.Channels.Colours
use mcp_server_allenheath_dl.MidiStream.{IsU7}
use mcp_server_allenheath_dl.Codecs.Sysex.{get_u8}

abbrev pub Ensures : {A : Type 0} → (A → Type 0) → Result A → Type 0
Ensures P (ok a) = P a
Ensures P (err e) = Unit
Ensures P panic = ⊥
Ensures P stuck = ⊥

pub Ensures-bind :
    {A B : Type 0} (P : A → Type 0) (Q : B → Type 0) (m : Result A) (f : A → Result B)
    → Ensures P m
    → ((a : A) → P a → Ensures Q (f a))
    → Ensures Q (m >>= f)
Ensures-bind P Q (ok a) f h k = k a h
Ensures-bind P Q (err e) f h k = tt
Ensures-bind P Q panic f h k = absurd h
Ensures-bind P Q stuck f h k = absurd h

pub Ensures-ensure :
    {B : Type 0} (Q : B → Type 0) (b : Bool) (e : Error) (m : Result B)
    → (b ≡ true → Ensures Q m)
    → Ensures Q (ensure b e >>= λ _. m)
Ensures-ensure Q true e m k = k refl
Ensures-ensure Q false e m k = tt

pub Ensures-if :
    {B : Type 0} (Q : B → Type 0) (b : Bool) (m n : Result B)
    → (b ≡ true → Ensures Q m)
    → (b ≡ false → Ensures Q n)
    → Ensures Q (if b then m else n)
Ensures-if Q true m n k l = k refl
Ensures-if Q false m n k l = l refl

-- A byte that is there is read, and the cursor moves by one.
abbrev pub IsRead : List ℕ → ℕ × List ℕ → Type 0
IsRead raw (b, rest) = (length raw ≡ suc (length rest)) × IsU7 b × All IsU7 rest

pub get_u8-Ensures :
    (raw : List ℕ) → 0 < length raw → All IsU7 raw → Ensures (IsRead raw) (get_u8 raw)
get_u8-Ensures [] lt h = elim lt [ ]
get_u8-Ensures (b ∷ raw) lt (hb, hs) = (refl, hb, hs)

pub from_midi-Ensures : (n note : ℕ) → Ensures IsValid (from_midi n note)
from_midi-Ensures n note = elim (from_midi_cases n note) [
  | inl (c, e, v) ↦ rw e v.0
  | inr e ↦ rw e tt
]

zeros-IsU7 : (n : ℕ) → All IsU7 (replicate n 0)
zeros-IsU7 zero = tt
zeros-IsU7 (suc n) = (omega arith, zeros-IsU7 n)

abbrev pub IsU7Name : ChannelName → Type 0
IsU7Name n = IsName n × All IsU7 n.bytes

pub name-Ensures : (raw : List ℕ) → All IsU7 raw → Ensures IsU7Name (Names.try_from raw)
unfolding Names.try_from
name-Ensures raw h = Ensures-ensure IsU7Name (leb (length raw) 8) _ _ (λ short.
    let fits : length raw ≤ 8 = ground arith in
    (
      omega (
        arith,
        length-append raw (replicate (8 - length raw) 0),
        length-replicate {A = ℕ} (8 - length raw) 0,
      ),
      All-append IsU7 raw (replicate (8 - length raw) 0) h (zeros-IsU7 (8 - length raw)),
    ))

pub colour-Ensures : (b : ℕ) → Ensures (λ _. Unit) (Colours.try_from b)
unfolding Colours.try_from
colour-Ensures b = ground arith
