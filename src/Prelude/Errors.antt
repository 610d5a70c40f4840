-- ===== src/Prelude/Errors.antt =====
-- What a fallible call gives back: `anyhow::Result`, with panics and exhausted fuel kept apart.
use mathlib.Core.Path.{◌≡◌, subst}
use mathlib.Core.Option.{Option, none, some}
use mathlib.Core.Bool.{Bool, true, false}

-- One constructor for each `ensure!`, `bail!`, `context` and converted error of the program.
pub data Error : Type 0 where
  out_of_range unknown_channel_type : Error
  bad_midi_channel not_u7 : Error
  bad_dca bad_mute_group : Error
  name_too_long bad_colour unknown_colour : Error
  unknown_sysex bad_sysex_length : Error
  no_number bad_number : Error
  midi_error : Error
  request_timeout receive_failed send_failed not_connected unknown_name : Error
  no_env_file bad_env_entry inputs_not_set mixes_not_set : Error
  bad_level bad_json : Error

-- `panic` is a Rust panic, and `stuck` is a loop of the model that ran out of fuel.
pub data Result {ℓ} (A : Type ℓ) : Type ℓ where
  ok : A → Result A
  err : Error → Result A
  panic : Result A
  stuck : Result A

-- The `?` operator.
infixl 5 ◌>>=◌ ◌>>◌
abbrev pub ◌>>=◌ {ℓ κ} : {A : Type ℓ} {B : Type κ} → Result A → (A → Result B) → Result B
ok a >>= f = f a
err e >>= f = err e
panic >>= f = panic
stuck >>= f = stuck

abbrev pub ◌>>◌ {ℓ} : {B : Type ℓ} → Result (Unit {0}) → Result B → Result B
m >> k = m >>= λ _. k

abbrev pub ensure : Bool → Error → Result (Unit {0})
ensure true e = ok tt
ensure false e = err e

-- `Option::context` and `Result::map_err`.
abbrev pub ok_or {ℓ} : {A : Type ℓ} → Option A → Error → Result A
ok_or none e = err e
ok_or (some a) e = ok a

-- `P` of the value that a call returns, if it returns one.
abbrev pub Holds {ℓ κ} : {A : Type ℓ} → (A → Type κ) → Result A → Type κ
Holds P (ok a) = P a
Holds P (err e) = Unit
Holds P panic = Unit
Holds P stuck = Unit

-- The last step of a chain decides.
pub Holds-bind {ℓ ℓ' κ} :
    {A : Type ℓ} {B : Type ℓ'} (P : B → Type κ) (m : Result A) (f : A → Result B)
    → ((a : A) → Holds P (f a))
    → Holds P (m >>= f)
Holds-bind P (ok a) f k = k a
Holds-bind P (err e) f k = tt
Holds-bind P panic f k = tt
Holds-bind P stuck f k = tt

pub Holds-ok {ℓ κ} :
    {A : Type ℓ} (P : A → Type κ) (r : Result A) (a : A) → Holds P r → r ≡ ok a → P a
Holds-ok P r a h e = subst (Holds P) e h

-- What holds of the first value is known to the rest.
pub Holds-chain {ℓ ℓ' κ κ'} :
    {A : Type ℓ} {B : Type ℓ'} (P : A → Type κ) (Q : B → Type κ') (m : Result A) (f : A → Result B)
    → Holds P m
    → ((a : A) → P a → Holds Q (f a))
    → Holds Q (m >>= f)
Holds-chain P Q (ok a) f h k = k a h
Holds-chain P Q (err e) f h k = tt
Holds-chain P Q panic f h k = tt
Holds-chain P Q stuck f h k = tt
