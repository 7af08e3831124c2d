-- ===== src/Honeypot/Rdp/Cookie.antt =====
-- What is taken for a cookie.
use vps_safe_dashboard.Prelude.{
  ℕ, ◌≤◌, ◌≡◌, refl, false, Bool-cases, inl, inr, ◌||◌, List, [], ◌∷◌, Bytes, ltb, length,
  length-take, All, All-take, codes, arith,
}
use vps_safe_dashboard.Utf8.{encode, encode_rune, runes}
use vps_safe_dashboard.Text.Spaces.{trim_space}
use vps_safe_dashboard.Honeypot.Session.{crlf}
use vps_safe_dashboard.Honeypot.Rdp.{
  before_first, behind_first, printable_runes, extract_rdp_cookie,
}

-- Printable ASCII.
abbrev pub IsShown : ℕ → Type 0
IsShown c = (32 ≤ c) × (c ≤ 126)

shown : (r : ℕ) → (ltb r 0x20 || ltb 0x7E r) ≡ false → IsShown r
shown r h = (ground arith, ground arith)

printable_runes-IsShown : (rs : List ℕ) → All IsShown (printable_runes rs)
unfolding printable_runes
printable_runes-IsShown [] = tt
printable_runes-IsShown (r ∷ rs) = elim (Bool-cases (ltb r 0x20 || ltb 0x7E r)) [
  | inl b ↦ rw b (printable_runes-IsShown rs)
  | inr b ↦ rw b (shown r b, printable_runes-IsShown rs)
]

shown_rune : (r : ℕ) → IsShown r → encode_rune r ≡ r ∷ []
unfolding encode_rune
shown_rune r h = ground arith

encode_shown : (rs : List ℕ) → All IsShown rs → encode rs ≡ rs
unfolding encode
encode_shown [] h = refl
encode_shown (r ∷ rs) h = rw (shown_rune r h.0, encode_shown rs h.1) refl

encode-printable_runes : (rs : List ℕ) → All IsShown (encode (printable_runes rs))
encode-printable_runes rs =
    rw (encode_shown (printable_runes rs) (printable_runes-IsShown rs)) (printable_runes-IsShown rs)

-- Whatever the request holds, its cookie is printable ASCII, of at most 128 bytes.
pub extract_rdp_cookie-IsShown :
    (variable : Bytes)
    → All IsShown (extract_rdp_cookie variable) × (length (extract_rdp_cookie variable) ≤ 128)
unfolding extract_rdp_cookie
extract_rdp_cookie-IsShown variable =
    let rs = runes (behind_first (codes "mstshash=") (trim_space (before_first crlf variable))) in
    (
      All-take IsShown 128 (encode (printable_runes rs)) (encode-printable_runes rs),
      omega (arith, length-take 128 (encode (printable_runes rs))),
    )
