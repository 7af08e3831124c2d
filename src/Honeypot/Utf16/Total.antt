-- ===== src/Honeypot/Utf16/Total.antt =====
-- A field of UTF-16LE is read without a panic.
use vps_safe_dashboard.Prelude.{
  ℕ, zero, suc, ◌+◌, ◌*◌, ◌/◌, ◌%◌, ◌≤◌, ◌≡◌, refl, false, ◌||◌, not, List, [], ◌∷◌, Bytes, Option,
  none, some, ltb, ◌==◌, Bool-cases, inl, inr, length, drop, arith,
}
use vps_safe_dashboard.Honeypot.Wire.{le16}
use vps_safe_dashboard.Honeypot.Wire.Slices.{Returns, length-drop}
use vps_safe_dashboard.Honeypot.Utf16.{units_le, decoded, utf16le_to_string}

units_le-Returns : (k : ℕ) (s : Bytes) → 2 * k ≤ length s → Returns (units_le k s)
unfolding units_le le16
units_le-Returns zero s h = ([], refl)
units_le-Returns (suc k) [] h = absurd (omega arith)
units_le-Returns (suc k) (a ∷ []) h = absurd (omega arith)
units_le-Returns (suc k) (a ∷ b ∷ s) h =
    let (us, e) = units_le-Returns k s (omega arith) in
    elim (Bool-cases (b * 256 + a == 0)) [ inl z ↦ rw z ([], refl) | inr z ↦ rw (z, e) (_, refl) ]

decoded-Returns : (o : Option (List ℕ)) → Returns o → Returns (decoded o)
decoded-Returns none h = absurd cc
decoded-Returns (some us) h = (_, refl)

pub utf16le_to_string-Returns : (b : Bytes) (off ln : ℕ) → Returns (utf16le_to_string b off ln)
unfolding utf16le_to_string
utf16le_to_string-Returns b off ln =
    elim (Bool-cases (ltb (length b) (off + ln) || not (ln % 2 == 0))) [
      | inl z ↦ rw z ([], refl)
      | inr z ↦ rw z (
          decoded-Returns (units_le (ln / 2) (drop off b))
            (units_le-Returns (ln / 2) (drop off b) (fits b off ln z)))
    ]
  where
    fits :
        (b : Bytes) (off ln : ℕ)
        → (ltb (length b) (off + ln) || not (ln % 2 == 0)) ≡ false
        → 2 * (ln / 2) ≤ length (drop off b)
    fits b off ln h = ground (arith, length-drop off b)
