-- ===== src/Sse/Text.antt =====
-- The operations on `bytes` and `str` that `_sse.py` uses.
pub mod Sizes
use libjadx.Base.{
  ℕ, zero, suc, ◌+◌, ◌-◌, ◌*◌, Bool, true, false, ◌&&◌, Option, none, some, List, [], ◌∷◌, ◌++◌,
  leb, ltb, ◌==◌, if◌then◌else◌, ◌≡◌, refl,
}

abbrev pub Bytes : Type 0
Bytes = List ℕ

abbrev pub Codes : Type 0
Codes = List ℕ

abbrev cons_line : ℕ → Option (List ℕ × List ℕ) → Option (List ℕ × List ℕ)
cons_line b none = none
cons_line b (some (line, rest)) = some (b ∷ line, rest)

-- What stands before the first `b` and what stands behind it; `none` if there is no `b`.
unfoldable pub split_at : ℕ → List ℕ → Option (List ℕ × List ℕ)
split_at b [] = none
split_at b (x ∷ xs) = if x == b then some ([], xs) else cons_line x (split_at b xs)

-- A strict UTF-8 decoder: the bytes that are still wanted, the code point so far, and the range of
-- the next byte, which excludes overlong forms, surrogates and what lies above U+10FFFF.
pub record Utf8 : Type 0 where
  pub need : ℕ
  pub point : ℕ
  pub low : ℕ
  pub high : ℕ

abbrev between_chars : Utf8
between_chars = record { need = 0; point = 0; low = 128; high = 191 }

abbrev wants : ℕ → ℕ → ℕ → ℕ → Option (Utf8 × Option ℕ)
wants need point low high =
    some (record { need = need; point = point; low = low; high = high }, none)

abbrev within : ℕ → ℕ → ℕ → Bool
within low high b = leb low b && leb b high

unfoldable pub lead_byte : ℕ → Option (Utf8 × Option ℕ)
lead_byte b =
    if ltb b 0x80
    then some (between_chars, some b)
    else if within 0xc2 0xdf b
    then wants 1 (b - 0xc0) 128 191
    else if b == 0xe0
    then wants 2 0 0xa0 191
    else if b == 0xed
    then wants 2 0xd 128 0x9f
    else if within 0xe1 0xef b
    then wants 2 (b - 0xe0) 128 191
    else if b == 0xf0
    then wants 3 0 0x90 191
    else if within 0xf1 0xf3 b
    then wants 3 (b - 0xf0) 128 191
    else if b == 0xf4
    then wants 3 4 128 0x8f
    else none

unfoldable pub follow_byte : ℕ → ℕ → Option (Utf8 × Option ℕ)
follow_byte zero point = none
follow_byte (suc zero) point = some (between_chars, some point)
follow_byte (suc (suc n)) point = wants (suc n) point 128 191

unfoldable pub utf8_step : Utf8 → ℕ → Option (Utf8 × Option ℕ)
unfolding lead_byte follow_byte
utf8_step s b =
    if s.need == 0
    then lead_byte b
    else if within s.low s.high b
    then follow_byte s.need (s.point * 64 + (b - 128))
    else none

abbrev emit : Option ℕ → Option Codes → Option Codes
emit _ none = none
emit none (some cs) = some cs
emit (some c) (some cs) = some (c ∷ cs)

unfoldable pub utf8_from : Utf8 → Bytes → Option Codes
utf8_from s [] = if s.need == 0 then some [] else none
utf8_from s (b ∷ bs) = elim (utf8_step s b) [
  | none ↦ none
  | some (s', out) ↦ emit out (utf8_from s' bs)
]

-- bytes.decode("utf-8")
unfoldable pub decode_utf8 : Bytes → Option Codes
unfolding utf8_from utf8_step
decode_utf8 = utf8_from between_chars

abbrev keep_unless_last_cr : ℕ → Codes → Codes
keep_unless_last_cr c [] = if c == 13 then [] else c ∷ []
keep_unless_last_cr c (d ∷ ds) = c ∷ d ∷ ds

-- str.rstrip("\r")
unfoldable pub rstrip_cr : Codes → Codes
rstrip_cr [] = []
rstrip_cr (c ∷ cs) = keep_unless_last_cr c (rstrip_cr cs)

-- str.startswith(":")
abbrev pub starts_with_colon : Codes → Bool
starts_with_colon [] = false
starts_with_colon (c ∷ cs) = c == b':'

-- str.removeprefix(" ")
abbrev pub remove_space : Codes → Codes
remove_space [] = []
remove_space (c ∷ cs) = if c == 32 then cs else c ∷ cs

-- "\n".join(lines)
abbrev pub join_lines : List Codes → Codes
join_lines [] = []
join_lines (x ∷ []) = x
join_lines (x ∷ y ∷ ys) = x ++ (10 ∷ join_lines (y ∷ ys))

abbrev is_digit : ℕ → Bool
is_digit c = leb b'0' c && leb c b'9'

abbrev all_digits : Codes → Bool
all_digits [] = true
all_digits (c ∷ cs) = is_digit c && all_digits cs

-- str.isascii() and str.isdecimal()
abbrev pub is_ascii_decimal : Codes → Bool
is_ascii_decimal [] = false
is_ascii_decimal (c ∷ cs) = all_digits (c ∷ cs)

-- int(text) of such a text
unfoldable pub decimal_from : ℕ → Codes → ℕ
decimal_from n [] = n
decimal_from n (c ∷ cs) = decimal_from (n * 10 + (c - b'0')) cs

abbrev pub text_eq : Codes → Codes → Bool
text_eq [] [] = true
text_eq (x ∷ xs) (y ∷ ys) = x == y && text_eq xs ys
text_eq _ _ = false

-- "é€😀", and an overlong form, a lone surrogate and a cut sequence.
utf8_tests :
    (decode_utf8 (0xc3 ∷ 0xa9 ∷ 0xe2 ∷ 0x82 ∷ 0xac ∷ 0xf0 ∷ 0x9f ∷ 0x98 ∷ 0x80 ∷ [])
      ≡ some (0xe9 ∷ 0x20ac ∷ 0x1f600 ∷ []))
    × (decode_utf8 (0xe0 ∷ 0x80 ∷ 0x80 ∷ []) ≡ none)
    × (decode_utf8 (0xed ∷ 0xa0 ∷ 0x80 ∷ []) ≡ none)
    × (decode_utf8 (0x41 ∷ 0xc3 ∷ []) ≡ none)
unfolding decode_utf8
utf8_tests = (refl, refl, refl, refl)
