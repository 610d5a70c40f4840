-- ===== src/Text.antt =====
-- Texts as lists of characters, and the functions on `str`, `char` and `u8` of the Rust standard
-- library that the program calls on them.
use Prim.Native.Char.{code}
use Prim.Native.String.{String}
use mcp_server_allenheath_dl.Prelude.{
  ℕ, ◌+◌, ◌-◌, ◌*◌, ◌/◌, ◌%◌, ◌<◌, ◌≡◌, refl, Bool, true, false, ◌&&◌, List, [], ◌∷◌, Option, none,
  some, leb, ltb, ◌==◌, if◌then◌else◌, Result, ok, err, bad_number, arith,
}

abbrev pub codes : String → List ℕ
codes String.[] = []
codes (String.◌∷◌ c s) = code c ∷ codes s

abbrev pub text_eq : List ℕ → List ℕ → Bool
text_eq [] [] = true
text_eq (a ∷ s) (b ∷ t) = if a == b then text_eq s t else false
text_eq _ _ = false

-- `char::is_digit(10)`
abbrev is_digit : ℕ → Bool
is_digit c = leb b'0' c && leb c b'9'

-- `s.find(|c| c.is_digit(10))` and `s.split_at`: the text before the first digit, and the rest.
unfoldable pub split_at_digit : List ℕ → Option (List ℕ × List ℕ)
split_at_digit [] = none
split_at_digit (c ∷ s) =
    let rest = split_at_digit s in
    if is_digit c
    then some ([], c ∷ s)
    else elim rest [ none ↦ none | some (a, b) ↦ some (c ∷ a, b) ]

-- `s.split_once(c)`
unfoldable pub split_once : ℕ → List ℕ → Option (List ℕ × List ℕ)
split_once sep [] = none
split_once sep (c ∷ s) =
    let rest = split_once sep s in
    if c == sep then some ([], s) else elim rest [ none ↦ none | some (a, b) ↦ some (c ∷ a, b) ]

-- `s.strip_prefix(p)`
abbrev pub strip_prefix : List ℕ → List ℕ → Option (List ℕ)
strip_prefix [] s = some s
strip_prefix (p ∷ ps) [] = none
strip_prefix (p ∷ ps) (c ∷ s) = if p == c then strip_prefix ps s else none

-- The digits of a `u8`, read from the left, with checked arithmetic.
unfoldable parse_digits : ℕ → List ℕ → Result ℕ
parse_digits n [] = ok n
parse_digits n (c ∷ s) =
    let next = n * 10 + (c - b'0') in
    let rest = parse_digits next s in
    if is_digit c then (if ltb 255 next then err bad_number else rest) else err bad_number

-- `str::parse::<u8>`: one leading plus sign is allowed.
unfoldable pub parse_u8 : List ℕ → Result ℕ
unfolding parse_digits
parse_u8 [] = err bad_number
parse_u8 (c ∷ []) = parse_digits 0 (c ∷ [])
parse_u8 (c ∷ d ∷ s) = if c == b'+' then parse_digits 0 (d ∷ s) else parse_digits 0 (c ∷ d ∷ s)

-- `Display for u8`
unfoldable pub show_u8 : ℕ → List ℕ
show_u8 n =
    if ltb n 10
    then (b'0' + n) ∷ []
    else if ltb n 100
    then (b'0' + n / 10) ∷ (b'0' + n % 10) ∷ []
    else (b'0' + n / 100) ∷ (b'0' + n / 10 % 10) ∷ (b'0' + n % 10) ∷ []

-- A number is read back from its print.
pub parse_u8-show_u8 : (n : ℕ) → n < 256 → parse_u8 (show_u8 n) ≡ ok n
unfolding parse_u8 show_u8
parse_u8-show_u8 n h = ground arith

pub text_eq_refl : (s : List ℕ) → text_eq s s ≡ true
text_eq_refl [] = refl
text_eq_refl (c ∷ s) = ground (arith, text_eq_refl s)

pub text_eq_sound : (s t : List ℕ) → text_eq s t ≡ true → s ≡ t
text_eq_sound [] [] e = refl
text_eq_sound [] (b ∷ t) e = cc
text_eq_sound (a ∷ s) [] e = cc
text_eq_sound (a ∷ s) (b ∷ t) e = ground (arith, text_eq_sound s t)
