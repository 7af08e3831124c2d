-- ===== src/Text/Decimal.antt =====
-- Printing a number in decimal and reading it back.
use mathlib.Core.List.{concat-ne-nil}
use vps_safe_dashboard.Prelude.{
  ℕ, zero, suc, ◌+◌, ◌-◌, ◌*◌, ◌/◌, ◌%◌, ◌^◌, ◌<◌, ◌≡◌, ◌≢◌, refl, Bool-cases, inl, inr, true, [],
  ◌∷◌, ◌++◌, Bytes, Option, none, some, ltb, lt→ltb, ltb→lt, All, All-append, arith,
}
use vps_safe_dashboard.Text.{pos, is_digit, itoa_fuel, itoa, dec_value, parse_uint, atoi}

abbrev bind_option : Option ℕ → (ℕ → Option ℕ) → Option ℕ
bind_option none f = none
bind_option (some a) f = f a

dec_value-append :
    (acc : ℕ) (s t : Bytes)
    → dec_value acc (s ++ t) ≡ bind_option (dec_value acc s) (λ a. dec_value a t)
unfolding dec_value
dec_value-append acc [] t = refl
dec_value-append acc (c ∷ s) t = ground (arith, dec_value-append (acc * 10 + (c - b'0')) s t)

dec_value_one : (acc d n : ℕ) → d < 10 → acc * 10 + d ≡ n → dec_value acc ((b'0' + d) ∷ []) ≡ some n
unfolding dec_value
dec_value_one acc d n h e = ground arith

dec_value-itoa_fuel : (f n : ℕ) → n < f → dec_value 0 (itoa_fuel f n) ≡ some n
unfolding itoa_fuel
dec_value-itoa_fuel zero n h = absurd (omega arith)
dec_value-itoa_fuel (suc f) n h = elim (Bool-cases (ltb n 10)) [
  | inl small ↦ rw small (dec_value_one 0 n n (ltb→lt _ _ small) (omega arith))
  | inr large ↦
      rw (large, dec_value-append, dec_value-itoa_fuel f (n / 10) (ground arith))
        (dec_value_one (n / 10) (n % 10) n (omega arith) (omega arith))
]

pub dec_value-itoa : (n : ℕ) → dec_value 0 (itoa n) ≡ some n
unfolding itoa
dec_value-itoa n = dec_value-itoa_fuel (suc n) n (omega arith)

abbrev pub IsDigits : Bytes → Type 0
IsDigits s = All (λ c. is_digit c ≡ true) s

itoa_fuel-IsDigits : (f n : ℕ) → IsDigits (itoa_fuel f n)
unfolding itoa_fuel
itoa_fuel-IsDigits zero n = tt
itoa_fuel-IsDigits (suc f) n = elim (Bool-cases (ltb n 10)) [
  | inl small ↦ rw small (ground arith, tt)
  | inr large ↦ rw large (
      All-append (λ c. is_digit c ≡ true) (itoa_fuel f (n / 10)) ((b'0' + n % 10) ∷ [])
        (itoa_fuel-IsDigits f (n / 10)) (ground arith, tt))
]

pub itoa-IsDigits : (n : ℕ) → IsDigits (itoa n)
unfolding itoa
itoa-IsDigits n = itoa_fuel-IsDigits (suc n) n

pub itoa-ne-nil : (n : ℕ) → itoa n ≢ []
unfolding itoa
itoa-ne-nil n = elim (Bool-cases (ltb n 10)) [
  | inl small ↦ rw small (λ e. cc)
  | inr large ↦ rw large (concat-ne-nil (b'0' + n % 10) (itoa_fuel n (n / 10)))
]

-- What is printed is read back, if it fits the width.
pub parse_uint-itoa : (limit n : ℕ) → n < limit → parse_uint limit (itoa n) ≡ some n
parse_uint-itoa limit n h = parsed (itoa n) (dec_value-itoa n) (itoa-ne-nil n)
  where
    parsed : (s : Bytes) → dec_value 0 s ≡ some n → s ≢ [] → parse_uint limit s ≡ some n
    parsed [] v ne = absurd (ne refl)
    parsed (c ∷ s) v ne = unfold parse_uint in rw v (rw (lt→ltb _ _ h))

atoi_unsigned :
    (s : Bytes) (n : ℕ)
    → IsDigits s
    → s ≢ []
    → parse_uint (2 ^ 63) s ≡ some n
    → atoi s ≡ some (pos n)
unfolding atoi
atoi_unsigned [] n d ne p = absurd (ne refl)
atoi_unsigned (c ∷ s) n d ne p = ground arith

-- Atoi reads a printed number that fits an int.
pub atoi-itoa : (n : ℕ) → n < 2 ^ 63 → atoi (itoa n) ≡ some (pos n)
atoi-itoa n h =
    atoi_unsigned (itoa n) n (itoa-IsDigits n) (itoa-ne-nil n) (parse_uint-itoa (2 ^ 63) n h)
