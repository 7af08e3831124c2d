-- ===== src/Honeypot/Utf16/Ascii.antt =====
-- UTF-16LE of ASCII text is read back, and no field is out of range.
use vps_safe_dashboard.Prelude.{
  ℕ, ◌+◌, ◌*◌, ◌/◌, ◌%◌, ◌<◌, ◌≡◌, refl, ap, ◌∙◌, false, ◌||◌, not, [], ◌∷◌, ◌++◌, Bytes, some, ltb,
  ◌==◌, if◌then◌else◌, length, length-append, drop, All, arith,
}
use mathlib.Core.List.{append_assoc}
use vps_safe_dashboard.Utf8.{encode, encode_rune}
use vps_safe_dashboard.Honeypot.Session.Reads.{drop-append}
use vps_safe_dashboard.Honeypot.Wire.{le16}
use vps_safe_dashboard.Honeypot.Utf16.{
  utf16_fresh, utf16_unit, utf16_from, utf16_decode, units_le, utf16le_to_string, decoded,
}

-- A byte of ASCII text without zero bytes.
abbrev pub IsAscii : ℕ → Type 0
IsAscii c = (0 < c) × (c < 128)

unfoldable pub utf16le : Bytes → Bytes
utf16le [] = []
utf16le (c ∷ s) = c ∷ 0 ∷ utf16le s

pub length-utf16le : (s : Bytes) → length (utf16le s) ≡ 2 * length s
unfolding utf16le
length-utf16le [] = refl
length-utf16le (c ∷ s) = omega (arith, length-utf16le s)

ascii_unit : (c : ℕ) → c < 128 → utf16_unit 0 c ≡ (c ∷ [], 0)
unfolding utf16_unit utf16_fresh
ascii_unit c h = ground arith

ascii_rune : (c : ℕ) → c < 128 → encode_rune c ≡ c ∷ []
unfolding encode_rune
ascii_rune c h = ground arith

ascii_from : (s : Bytes) → All IsAscii s → encode (utf16_from 0 s) ≡ s
unfolding utf16_from encode
ascii_from [] h = refl
ascii_from (c ∷ s) h = rw (ascii_unit c h.0.1, ascii_rune c h.0.1, ascii_from s h.1) refl

pub ascii_decode : (s : Bytes) → All IsAscii s → encode (utf16_decode s) ≡ s
unfolding utf16_decode
ascii_decode s h = ascii_from s h

if_unit :
    (c n : ℕ) (s : Bytes)
    → 0 < c
    → n ≡ c
    → (if n == 0 then some [] else some (n ∷ s)) ≡ some (c ∷ s)
if_unit c n s h e = ground arith

units_le-utf16le :
    (s rest : Bytes) → All IsAscii s → units_le (length s) (utf16le s ++ rest) ≡ some s
unfolding units_le utf16le le16
units_le-utf16le [] rest h = refl
units_le-utf16le (c ∷ s) rest h =
    rw (units_le-utf16le s rest h.1) (if_unit c (0 * 256 + c) s h.0.0 (omega arith))

module _ (x s rest : Bytes) where
  over :
      (ltb (length (x ++ utf16le s ++ rest)) (length x + 2 * length s)
        || not (2 * length s % 2 == 0))
      ≡ false
  over =
      ground
        (arith, length-append (x ++ utf16le s) rest, length-append x (utf16le s), length-utf16le s)

  found : drop (length x) (x ++ utf16le s ++ rest) ≡ utf16le s ++ rest
  found = ap (drop (length x)) (append_assoc x (utf16le s) rest) ∙ drop-append x (utf16le s ++ rest)

  -- Of ASCII text in UTF-16LE that stands anywhere in a message.
  pub utf16le_to_string-utf16le :
      All IsAscii s → utf16le_to_string (x ++ utf16le s ++ rest) (length x) (2 * length s) ≡ some s
  unfolding utf16le_to_string
  utf16le_to_string-utf16le h =
      ap
        (λ b.
          if b
          then some []
          else decoded (units_le (2 * length s / 2) (drop (length x) (x ++ utf16le s ++ rest))))
        over
      ∙ ap (λ n. decoded (units_le n (drop (length x) (x ++ utf16le s ++ rest)))) (omega arith)
      ∙ ap (λ t. decoded (units_le (length s) t)) found
      ∙ ap decoded (units_le-utf16le s rest h)
      ∙ ap (λ t. some t) (ascii_decode s h)
