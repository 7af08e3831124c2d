-- ===== src/Event/Micros.antt =====
-- internal/event/event.go: MicrosToUnix. An int64 is its bit pattern, read as a signed number.
use vps_safe_dashboard.Prelude.{
  ℕ, ◌+◌, ◌-◌, ◌*◌, ◌/◌, ◌%◌, ◌^◌, ◌≤◌, ◌≡◌, refl, Bool-cases, inl, inr, ◌||◌, List, [], ◌∷◌, Bytes,
  Option, none, some, ltb, if◌then◌else◌, arith,
}
use vps_safe_dashboard.Text.{ℤ, pos, neg, is_digit, dec_value, map_option}
use vps_safe_dashboard.Utf8.{decode_rune, runes_from, runes}
use vps_safe_dashboard.Utf8.RoundTrip.{decode_rune_one}

-- n / 1_000_000 of an int64 with the bits `n`: division rounds towards zero.
abbrev pub seconds64 : ℕ → ℤ
seconds64 n = if ltb n (2 ^ 63) then pos (n / 1000000) else neg ((2 ^ 64 - n) / 1000000)

micros_loop : List ℕ → ℕ → Option ℤ
micros_loop [] micro = some (seconds64 micro)
micros_loop (c ∷ rs) micro =
    if ltb c b'0' || ltb b'9' c then none else micros_loop rs ((micro * 10 + (c - b'0')) % 2 ^ 64)

unfoldable pub micros_to_unix : Bytes → Option ℤ
unfolding micros_loop runes
micros_to_unix [] = none
micros_to_unix (c ∷ s) = micros_loop (runes (c ∷ s)) 0

decode_rune_high : (a : ℕ) (s : Bytes) → 0x80 ≤ a → 0x80 ≤ (decode_rune a s).0
unfolding decode_rune
decode_rune_high a [] h = ground arith
decode_rune_high a (b ∷ []) h = ground arith
decode_rune_high a (b ∷ c ∷ []) h = ground arith
decode_rune_high a (b ∷ c ∷ d ∷ s) h = ground arith

-- What the string says, if it is a number: the empty string is none.
abbrev pub number : Bytes → Option ℕ
number [] = none
number (c ∷ s) = dec_value 0 (c ∷ s)

-- The value of the digits modulo 2 ^ 64 is all that the loop keeps.
micros_loop_digits :
    (s : Bytes) (acc micro : ℕ)
    → acc % 2 ^ 64 ≡ micro
    → micros_loop (runes_from 0 s) micro
      ≡ map_option (λ n. seconds64 (n % 2 ^ 64)) (dec_value acc s)
unfolding micros_loop runes_from dec_value
micros_loop_digits [] acc micro e = rw e
micros_loop_digits (a ∷ s) acc micro e = elim (Bool-cases (is_digit a)) [
  | inl digit ↦
      rw (decode_rune_one a s (ground arith), digit)
        (ground (
          arith,
          micros_loop_digits s (acc * 10 + (a - b'0')) ((micro * 10 + (a - b'0')) % 2 ^ 64)
              (omega arith),
        ))
  | inr other ↦ rw other (ground (arith, decode_rune_one a s, decode_rune_high a s))
]

-- A string is read as a number of microseconds exactly if it is not empty and all its bytes are
-- decimal digits; the result is then the value modulo 2 ^ 64, as a signed number, in whole seconds.
pub micros_to_unix_lem :
    (s : Bytes) → micros_to_unix s ≡ map_option (λ n. seconds64 (n % 2 ^ 64)) (number s)
unfolding micros_to_unix
micros_to_unix_lem [] = refl
micros_to_unix_lem (c ∷ s) = micros_loop_digits (c ∷ s) 0 0 refl
