-- ===== src/Utf8.antt =====
-- Go's conversions between `string` and `[]rune`, which internal/event/event.go (Truncate512) and
-- internal/honeypot/honeypot.go (truncateCredText) use. A string is its bytes; a byte that starts no
-- well-formed sequence reads as U+FFFD and is one byte wide.
pub mod RoundTrip
use vps_safe_dashboard.Prelude.{
  ℕ, zero, suc, ◌+◌, ◌-◌, ◌*◌, ◌/◌, ◌%◌, ◌<◌, Bool, true, false, ◌&&◌, ◌||◌, List, [], ◌∷◌, ◌++◌,
  Bytes, ltb, leb, ◌==◌, if◌then◌else◌, length, take,
}

abbrev pub rune_error : ℕ
rune_error = 0xFFFD

abbrev pub within : ℕ → ℕ → ℕ → Bool
within lo hi c = leb lo c && leb c hi

-- The least and the greatest second byte after the first byte `a`.
abbrev pub second_lo : ℕ → ℕ
second_lo a = if a == 0xE0 then 0xA0 else if a == 0xF0 then 0x90 else 0x80

abbrev pub second_hi : ℕ → ℕ
second_hi a = if a == 0xED then 0x9F else if a == 0xF4 then 0x8F else 0xBF

abbrev pub bad : ℕ × ℕ
bad = (rune_error, 1)

unfoldable pub two : ℕ → Bytes → ℕ × ℕ
two a (b ∷ s) = if within 0x80 0xBF b then ((a - 0xC0) * 64 + (b - 0x80), 2) else bad
two a _ = bad

unfoldable pub three : ℕ → Bytes → ℕ × ℕ
three a (b ∷ c ∷ s) =
    if within (second_lo a) (second_hi a) b && within 0x80 0xBF c
    then ((a - 0xE0) * 4096 + (b - 0x80) * 64 + (c - 0x80), 3)
    else bad
three a _ = bad

unfoldable pub four : ℕ → Bytes → ℕ × ℕ
four a (b ∷ c ∷ d ∷ s) =
    if within (second_lo a) (second_hi a) b && within 0x80 0xBF c && within 0x80 0xBF d
    then ((a - 0xF0) * 262144 + (b - 0x80) * 4096 + (c - 0x80) * 64 + (d - 0x80), 4)
    else bad
four a _ = bad

-- The first rune of `a ∷ s` and its width.
unfoldable pub decode_rune : ℕ → Bytes → ℕ × ℕ
unfolding two three four
decode_rune a s =
    if ltb a 0x80
    then (a, 1)
    else if within 0xC2 0xDF a
    then two a s
    else if within 0xE0 0xEF a
    then three a s
    else if within 0xF0 0xF4 a
    then four a s
    else bad

-- The runes of a string of which the first `k` bytes are read already.
unfoldable pub runes_from : ℕ → Bytes → List ℕ
runes_from k [] = []
runes_from zero (a ∷ s) = let (r, w) = decode_rune a s in r ∷ runes_from (w - 1) s
runes_from (suc k) (a ∷ s) = runes_from k s

-- []rune(s)
unfoldable pub runes : Bytes → List ℕ
unfolding runes_from decode_rune
runes = runes_from 0

-- What no rune may be: a surrogate, or beyond U+10FFFF.
abbrev pub is_invalid : ℕ → Bool
is_invalid r = within 0xD800 0xDFFF r || ltb 0x10FFFF r

unfoldable pub encode_rune : ℕ → Bytes
encode_rune r =
    if ltb r 0x80
    then r ∷ []
    else if ltb r 0x800
    then (0xC0 + r / 64) ∷ (0x80 + r % 64) ∷ []
    else if is_invalid r
    then 0xEF ∷ 0xBF ∷ 0xBD ∷ []
    else if ltb r 0x10000
    then (0xE0 + r / 4096) ∷ (0x80 + r / 64 % 64) ∷ (0x80 + r % 64) ∷ []
    else (0xF0 + r / 262144) ∷ (0x80 + r / 4096 % 64) ∷ (0x80 + r / 64 % 64) ∷ (0x80 + r % 64) ∷ []

-- string(rs)
unfoldable pub encode : List ℕ → Bytes
unfolding encode_rune
encode [] = []
encode (r ∷ rs) = encode_rune r ++ encode rs

-- `s` if it has at most `n` runes, else `string(r[:n])` of its runes `r`.
unfoldable pub truncate_runes : ℕ → Bytes → Bytes
unfolding runes encode
truncate_runes n s = let r = runes s in if leb (length r) n then s else encode (take n r)
