-- ===== src/Honeypot/Mssql/Obfuscation.antt =====
-- An obfuscated password of printable ASCII is read in clear.
use Prim.Native.Nat.{bit_xor}
use vps_safe_dashboard.Prelude.{
  ℕ, zero, suc, ◌+◌, ◌*◌, ◌/◌, ◌%◌, ◌≤◌, ◌<◌, ◌≡◌, ◌≢◌, ◌⊎◌, inl, inr, refl, ap, Bool, true, false,
  ◌&&◌, ◌||◌, not, [], ◌∷◌, Bytes, none, some, ◌==◌, ==_iff, if◌then◌else◌, length, map, Bool-cases,
  All, arith,
}
use vps_safe_dashboard.Honeypot.Utf16.Ascii.{utf16le, length-utf16le, ascii_decode, IsAscii}
use vps_safe_dashboard.Honeypot.Mssql.{
  clear_byte, clear_units, is_odd_unit, deobfuscate_tds_password,
}

-- The half bytes are exchanged, then 0xA5 is added in each bit.
unfoldable pub obfuscated_byte : ℕ → ℕ
obfuscated_byte b = bit_xor (b % 16 * 16 + b / 16) 0xA5

abbrev pub obfuscated : Bytes → Bytes
obfuscated s = map obfuscated_byte s

-- Printable ASCII, and the tab.
abbrev pub IsPrintable : ℕ → Type 0
IsPrintable c = (c ≡ 9) ⊎ (32 ≤ c) × (c ≤ 126)

abbrev clears_below : ℕ → Bool
clears_below zero = true
clears_below (suc n) = clear_byte (obfuscated_byte n) == n && clears_below n

clears_all : clears_below 256 ≡ true
unfolding clear_byte obfuscated_byte
clears_all = refl

both : (a b : Bool) → (a && b) ≡ true → (a ≡ true) × (b ≡ true)
both true b h = (refl, h)
both false b h = (h, cc)

ne_below : (n b : ℕ) → b < suc n → (b == n) ≡ false → b < n
ne_below n b k e = ground arith

clears_below-at : (n b : ℕ) → clears_below n ≡ true → b < n → clear_byte (obfuscated_byte b) ≡ b
clears_below-at zero b h k = absurd (omega arith)
clears_below-at (suc n) b h k =
    let (here, below) = both (clear_byte (obfuscated_byte n) == n) (clears_below n) h in
    elim (Bool-cases (b == n)) [
      | inl e ↦ rw ((==_iff b n).0 e) ((==_iff (clear_byte (obfuscated_byte n)) n).0 here)
      | inr e ↦ clears_below-at n b below (ne_below n b k e)
    ]

pub clear_byte-obfuscated_byte : (b : ℕ) → b < 256 → clear_byte (obfuscated_byte b) ≡ b
clear_byte-obfuscated_byte b h = clears_below-at 256 b clears_all h

printable_byte : (c : ℕ) → IsPrintable c → c < 256
printable_byte c h = ground arith

printable-IsAscii : (s : Bytes) → All IsPrintable s → All IsAscii s
printable-IsAscii [] h = tt
printable-IsAscii (c ∷ s) h = ((ground arith, ground arith), printable-IsAscii s h.1)

printable_unit :
    (c n : ℕ) (s : Bytes)
    → IsPrintable c
    → n ≡ c
    → (if is_odd_unit n then none else some (n ∷ s)) ≡ some (c ∷ s)
printable_unit c n s h e = ground arith

clear-obfuscated :
    (s : Bytes) → All IsPrintable s → map clear_byte (obfuscated (utf16le s)) ≡ utf16le s
unfolding utf16le
clear-obfuscated [] h = refl
clear-obfuscated (c ∷ s) h =
    rw
      (
        clear_byte-obfuscated_byte c (printable_byte c h.0),
        clear_byte-obfuscated_byte 0 (omega arith),
        clear-obfuscated s h.1,
      )
      refl

clear_units-utf16le : (s : Bytes) → All IsPrintable s → clear_units (utf16le s) ≡ some s
unfolding utf16le clear_units
clear_units-utf16le [] h = refl
clear_units-utf16le (c ∷ s) h =
    rw (clear_units-utf16le s h.1) (printable_unit c (0 * 256 + c) s h.0 (omega arith))

pub length-map : (s : Bytes) → length (obfuscated s) ≡ length s
length-map [] = refl
length-map (c ∷ s) = omega (arith, length-map s)

pub not_empty : (s : Bytes) → s ≢ [] → 0 < length s
not_empty [] k = absurd (k refl)
not_empty (c ∷ s) k = omega arith

even_bytes :
    (s : Bytes)
    → s ≢ []
    → (length (obfuscated (utf16le s)) == 0 || not (length (obfuscated (utf16le s)) % 2 == 0))
      ≡ false
even_bytes s k = ground (arith, length-map (utf16le s), length-utf16le s, not_empty s k)

-- A password of printable ASCII, not empty, in UTF-16LE and obfuscated.
pub deobfuscate-obfuscated :
    (s : Bytes)
    → s ≢ []
    → All IsPrintable s
    → deobfuscate_tds_password (obfuscated (utf16le s)) ≡ some s
unfolding deobfuscate_tds_password
deobfuscate-obfuscated s k h =
    rw (even_bytes s k, clear-obfuscated s h, clear_units-utf16le s h)
      (ap (λ t. some t) (ascii_decode s (printable-IsAscii s h)))
