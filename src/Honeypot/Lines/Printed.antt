-- ===== src/Honeypot/Lines/Printed.antt =====
-- A line of digits is read as it is printed.
use native.Mathlib.Nat.{pow-suc}
use vps_safe_dashboard.Prelude.{
  ℕ, zero, suc, ◌+◌, ◌/◌, ◌%◌, ◌^◌, ◌≤◌, ◌<◌, ◌≡◌, ◌≢◌, refl, ap, ◌∙◌, true, false, Bool-cases, inl,
  inr, [], ◌∷◌, ◌++◌, Bytes, some, ◌==◌, ltb, length, length-append, take_all, arith,
}
use vps_safe_dashboard.Text.{is_digit, itoa, itoa_fuel}
use vps_safe_dashboard.Text.Decimal.{IsDigits, itoa-IsDigits}
use vps_safe_dashboard.Honeypot.Session.{crlf}
use vps_safe_dashboard.Honeypot.Lines.{
  max_line_len, read_segments, is_line_end, trim_line_end, strip_iac, clean_line, read_line,
}

length-itoa_fuel : (k f n : ℕ) → n < 10 ^ suc k → length (itoa_fuel f n) ≤ suc k
unfolding itoa_fuel
length-itoa_fuel k zero n h = omega arith
length-itoa_fuel zero (suc f) n h = ground arith
length-itoa_fuel (suc k) (suc f) n h = elim (Bool-cases (ltb n 10)) [
  | inl e ↦ rw e (omega arith)
  | inr e ↦ rw e (
      omega (
        arith,
        length-append (itoa_fuel f (n / 10)) ((b'0' + n % 10) ∷ []),
        length-itoa_fuel k f (n / 10) (omega (arith, pow-suc 10 (suc k))),
      ))
]

digit_ends : (c : ℕ) → is_digit c ≡ true → is_line_end c ≡ false
digit_ends c h = ground arith

segments_digits :
    (k : ℕ) (ds rest : Bytes)
    → IsDigits ds
    → length ds + 2 ≤ k
    → read_segments k (ds ++ crlf ++ rest) ≡ (ds ++ crlf, rest)
unfolding read_segments
segments_digits zero ds rest h l = absurd (omega arith)
segments_digits (suc zero) [] rest h l = absurd (omega arith)
segments_digits (suc (suc k)) [] rest h l = refl
segments_digits (suc k) (c ∷ ds) rest h l =
    let e : (c == b'\n') ≡ false = ground (arith, h.0) in
    rw (e, segments_digits k ds rest h.1 (omega arith)) refl

trim_digits : (ds : Bytes) → IsDigits ds → trim_line_end (ds ++ crlf) ≡ ds
unfolding trim_line_end
trim_digits [] h = refl
trim_digits (c ∷ []) h = rw (digit_ends c h.0) refl
trim_digits (c ∷ d ∷ ds) h = rw (trim_digits (d ∷ ds) h.1) refl

strip_digits : (ds : Bytes) → IsDigits ds → strip_iac 0 ds ≡ ds
unfolding strip_iac
strip_digits [] h = refl
strip_digits (c ∷ ds) h =
    let e : (c == 0xFF) ≡ false = ground (arith, h.0) in rw (e, strip_digits ds h.1) refl

read_line-some :
    (s line rest : Bytes)
    → s ≢ []
    → read_segments max_line_len s ≡ (line, rest)
    → read_line s ≡ some (clean_line line, rest)
unfolding read_line
read_line-some [] line rest n e = absurd (n refl)
read_line-some (c ∷ s) line rest n e = rw e refl

length-itoa : (n : ℕ) → n < 1000000 → length (itoa n) ≤ 6
unfolding itoa
length-itoa n h = length-itoa_fuel 5 (suc n) n (omega arith)

clean_digits : (ds : Bytes) → IsDigits ds → length ds ≤ 4096 → clean_line (ds ++ crlf) ≡ ds
clean_digits ds d h = rw (trim_digits ds d, strip_digits ds d) (take_all 4096 ds h)

with_crlf : (ds rest : Bytes) → ds ++ crlf ++ rest ≢ []
with_crlf [] rest p = cc
with_crlf (c ∷ ds) rest p = cc

-- A number of at most six digits.
pub read_line-itoa :
    (n : ℕ) (rest : Bytes) → n < 1000000 → read_line (itoa n ++ crlf ++ rest) ≡ some (itoa n, rest)
read_line-itoa n rest h =
    read_line-some (itoa n ++ crlf ++ rest) (itoa n ++ crlf) rest (with_crlf (itoa n) rest) (
      segments_digits max_line_len (itoa n) rest (itoa-IsDigits n) (omega (arith, length-itoa n h)))
    ∙ ap (λ (l : Bytes). some (l, rest))
        (clean_digits (itoa n) (itoa-IsDigits n) (omega (arith, length-itoa n h)))
