-- ===== src/Honeypot/CredText/Valid.antt =====
-- Cutting a credential keeps it valid and bounds it, by runes and not by bytes.
use vps_safe_dashboard.Prelude.{
  ℕ, zero, suc, ◌-◌, ◌*◌, ◌≤◌, ◌≡◌, refl, true, false, Bool-cases, inl, inr, List, [], ◌∷◌, ◌++◌,
  Bytes, leb, length, take, All, All-take, arith,
}
use vps_safe_dashboard.Utf8.{decode_rune, runes_from, runes, encode_rune, encode, truncate_runes}
use vps_safe_dashboard.Utf8.RoundTrip.{length-truncate_runes-le, truncate_runes_short}
use vps_safe_dashboard.Honeypot.{cred_text_max}
use vps_safe_dashboard.Honeypot.CredText.{is_control, valid_cred_text, truncate_cred_text}

abbrev IsPlain : ℕ → Type 0
IsPlain r = is_control r ≡ false

-- A rune of one byte is that byte, and no wider rune is a control character.
decode_rune-IsPlain : (a : ℕ) (s : Bytes) → IsPlain a → IsPlain (decode_rune a s).0
unfolding decode_rune
decode_rune-IsPlain a [] h = ground arith
decode_rune-IsPlain a (b ∷ []) h = ground arith
decode_rune-IsPlain a (b ∷ c ∷ []) h = ground arith
decode_rune-IsPlain a (b ∷ c ∷ d ∷ s) h = ground arith

runes_from-IsPlain : (k : ℕ) (s : Bytes) → valid_cred_text s ≡ true → All IsPlain (runes_from k s)
unfolding runes_from valid_cred_text
runes_from-IsPlain zero [] h = tt
runes_from-IsPlain (suc k) [] h = tt
runes_from-IsPlain zero (a ∷ s) h = (
  decode_rune-IsPlain a s (ground arith),
  runes_from-IsPlain ((decode_rune a s).1 - 1) s (ground arith),
)
runes_from-IsPlain (suc k) (a ∷ s) h = runes_from-IsPlain k s (ground arith)

valid-encode_rune :
    (r : ℕ) (s : Bytes)
    → IsPlain r
    → valid_cred_text s ≡ true
    → valid_cred_text (encode_rune r ++ s) ≡ true
unfolding encode_rune valid_cred_text
valid-encode_rune r s h k = ground arith

valid-encode : (rs : List ℕ) → All IsPlain rs → valid_cred_text (encode rs) ≡ true
unfolding encode
valid-encode [] h = unfold valid_cred_text in refl
valid-encode (r ∷ rs) h = valid-encode_rune r (encode rs) h.0 (valid-encode rs h.1)

valid-truncate_runes :
    (n : ℕ) (s : Bytes) → valid_cred_text s ≡ true → valid_cred_text (truncate_runes n s) ≡ true
unfolding truncate_runes
valid-truncate_runes n s h = elim (Bool-cases (leb (length (runes s)) n)) [
  | inl short ↦ rw short h
  | inr long ↦ rw long (
      valid-encode (take n (runes s))
        (All-take IsPlain n (runes s) (unfold runes in runes_from-IsPlain 0 s h)))
]

-- Text without control characters has none after it is cut.
pub valid-truncate_cred_text :
    (s : Bytes) → valid_cred_text s ≡ true → valid_cred_text (truncate_cred_text s) ≡ true
unfolding truncate_cred_text
valid-truncate_cred_text s h = ground (arith, valid-truncate_runes cred_text_max s h)

-- The bound in bytes is four times the constant.
pub length-truncate_cred_text : (s : Bytes) → length (truncate_cred_text s) ≤ 4 * cred_text_max
unfolding truncate_cred_text
length-truncate_cred_text s = ground (arith, length-truncate_runes-le cred_text_max s)

-- Text of at most 4096 characters is kept whole, however many bytes it has.
pub truncate_cred_text_wide :
    (s : Bytes) → length (runes s) ≤ cred_text_max → truncate_cred_text s ≡ s
unfolding truncate_cred_text
truncate_cred_text_wide s h = ground (arith, truncate_runes_short cred_text_max s h)
