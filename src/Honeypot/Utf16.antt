-- ===== src/Honeypot/Utf16.antt =====
-- unicode/utf16.Decode, and internal/honeypot/smb.go: utf16leToString.
pub mod Ascii
pub mod Total
use vps_safe_dashboard.Prelude.{
  ℕ, zero, suc, ◌+◌, ◌-◌, ◌*◌, ◌/◌, ◌%◌, Bool, true, false, ◌&&◌, ◌||◌, not, List, [], ◌∷◌, ◌++◌,
  Bytes, Option, none, some, ltb, leb, ◌==◌, if◌then◌else◌, length, drop,
}
use vps_safe_dashboard.Utf8.{rune_error, within, encode}
use vps_safe_dashboard.Honeypot.Wire.{le16}

abbrev is_high : ℕ → Bool
is_high u = within 0xD800 0xDBFF u

abbrev is_low : ℕ → Bool
is_low u = within 0xDC00 0xDFFF u

-- One code unit, after no high surrogate (0) or after one that waits for its low one: the runes that are
-- complete, and what waits now.
unfoldable pub utf16_fresh : ℕ → List ℕ × ℕ
utf16_fresh u =
    if is_high u then ([], u) else if is_low u then (rune_error ∷ [], 0) else (u ∷ [], 0)

unfoldable pub utf16_unit : ℕ → ℕ → List ℕ × ℕ
utf16_unit zero u = utf16_fresh u
utf16_unit (suc h) u =
    let (out, waits) = utf16_fresh u in
    if is_low u
    then ((0x10000 + (suc h - 0xD800) * 1024 + (u - 0xDC00)) ∷ [], 0)
    else (rune_error ∷ out, waits)

unfoldable pub utf16_from : ℕ → List ℕ → List ℕ
utf16_from zero [] = []
utf16_from (suc h) [] = rune_error ∷ []
utf16_from h (u ∷ s) = let (out, waits) = utf16_unit h u in out ++ utf16_from waits s

unfoldable pub utf16_decode : List ℕ → List ℕ
utf16_decode s = utf16_from 0 s

-- `k` code units at most, up to a zero; a panic where the bytes end.
unfoldable pub units_le : ℕ → Bytes → Option (List ℕ)
units_le zero s = some []
units_le (suc k) s =
    let later = units_le k (drop 2 s) in
    elim (le16 s) [
      | none ↦ none
      | some u ↦ if u == 0 then some [] else elim later [ none ↦ none | some us ↦ some (u ∷ us) ]
    ]

abbrev pub decoded : Option (List ℕ) → Option Bytes
decoded none = none
decoded (some us) = some (encode (utf16_decode us))

-- `none` is a panic.
unfoldable pub utf16le_to_string : Bytes → ℕ → ℕ → Option Bytes
utf16le_to_string b off ln =
    if ltb (length b) (off + ln) || not (ln % 2 == 0)
    then some []
    else decoded (units_le (ln / 2) (drop off b))
