-- ===== src/Channels/Names.antt =====
-- Channel names: `ChannelName` of lib/src/channels.rs, eight bytes, padded with zeros.
use mcp_server_allenheath_dl.Prelude.{
  ℕ, zero, suc, ◌-◌, ◌≤◌, ◌<◌, ◌≡◌, refl, Bool, true, false, List, [], ◌∷◌, ◌++◌, leb, ◌==◌, length,
  length-append, length-replicate, replicate, Result, ok, err, ensure, name_too_long, ◌>>◌, arith,
  if◌then◌else◌, All, append-nil,
}

abbrev pub channel_name_len : ℕ
channel_name_len = 8

-- `[u8; CHANNEL_NAME_LEN]`; that there are eight bytes is `IsName`.
pub record ChannelName : Type 0 where
  pub bytes : List ℕ

abbrev pub IsName : ChannelName → Type 0
IsName n = length n.bytes ≡ channel_name_len

-- The derived `PartialEq`.
abbrev bytes_eq : List ℕ → List ℕ → Bool
bytes_eq [] [] = true
bytes_eq (a ∷ as') (b ∷ bs) = if a == b then bytes_eq as' bs else false
bytes_eq _ _ = false

abbrev pub name_eq : ChannelName → ChannelName → Bool
name_eq a b = bytes_eq a.bytes b.bytes

-- `TryFrom<&[u8]>`: the array starts as zeros, and the slice is copied over its front.
unfoldable pub try_from : List ℕ → Result ChannelName
try_from value = do
  ensure (leb (length value) channel_name_len) name_too_long
  ok (record { bytes = value ++ replicate (channel_name_len - length value) 0 })

-- The slice that `Display` turns to text: the bytes before the first zero.
unfoldable pub before_zero : List ℕ → List ℕ
before_zero [] = []
before_zero (b ∷ bs) = let rest = before_zero bs in if b == 0 then [] else b ∷ rest

-- A slice of eight bytes is taken as it stands.
pub try_from-bytes : (n : ChannelName) → IsName n → try_from n.bytes ≡ ok n
unfolding try_from
try_from-bytes n h = rw (h, append-nil)

try_from-IsName : (value : List ℕ) {n : ChannelName} → try_from value ≡ ok n → IsName n
unfolding try_from
try_from-IsName value {n} e = ground (
  arith,
  length-append value (replicate (8 - length value) 0),
  length-replicate {A = ℕ} (8 - length value) 0,
)

before_zero-padded :
    (value : List ℕ) (k : ℕ) → All (λ b. 0 < b) value → before_zero (value ++ replicate k 0) ≡ value
unfolding before_zero
before_zero-padded [] zero h = refl
before_zero-padded [] (suc k) h = refl
before_zero-padded (b ∷ bs) k (hb, hbs) = ground (arith, before_zero-padded bs k hbs)

pub try_from_fits :
    (value : List ℕ)
    → length value ≤ 8
    → try_from value ≡ ok (record { bytes = value ++ replicate (8 - length value) 0 })
unfolding try_from
try_from_fits value h = ground arith

-- A slice of at most eight bytes makes a name of eight bytes, which is shown as the slice if that has
-- no zero byte.
pub before_zero-try_from :
    (value : List ℕ)
    → length value ≤ 8
    → All (λ b. 0 < b) value
    → (n : ChannelName) × (try_from value ≡ ok n) × IsName n × (before_zero n.bytes ≡ value)
before_zero-try_from value fits h =
    let name : ChannelName = record { bytes = value ++ replicate (8 - length value) 0 } in
    (
      name,
      try_from_fits value fits,
      try_from-IsName value (try_from_fits value fits),
      before_zero-padded value (8 - length value) h,
    )

pub try_from_too_long : (value : List ℕ) → 8 < length value → try_from value ≡ err name_too_long
unfolding try_from
try_from_too_long value h = ground arith
