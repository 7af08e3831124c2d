-- ===== src/Utf8/RoundTrip.antt =====
-- Encoding and decoding runes are inverse on what decoding returns, so that a cut at a rune is exact.
use vps_safe_dashboard.Prelude.{
  ℕ, zero, suc, ◌+◌, ◌-◌, ◌*◌, ◌/◌, ◌%◌, ◌≤◌, ◌<◌, min, ◌≡◌, refl, sym, ap, ◌∙◌, false, Bool-cases,
  inl, inr, List, [], ◌∷◌, ◌++◌, Bytes, leb, length, take, All, All-take, length-take, take_all,
  leb→le, le→leb, arith,
}
use vps_safe_dashboard.Utf8.{
  is_invalid, decode_rune, runes_from, runes, encode_rune, encode, truncate_runes,
}

abbrev IsScalar : ℕ → Type 0
IsScalar r = is_invalid r ≡ false

decode_rune-IsScalar : (a : ℕ) (s : Bytes) → IsScalar (decode_rune a s).0
unfolding decode_rune
decode_rune-IsScalar a [] = ground arith
decode_rune-IsScalar a (b ∷ []) = ground arith
decode_rune-IsScalar a (b ∷ c ∷ []) = ground arith
decode_rune-IsScalar a (b ∷ c ∷ d ∷ s) = ground arith

decode_rune_width : (a : ℕ) (s : Bytes) → (1 ≤ (decode_rune a s).1) × ((decode_rune a s).1 ≤ 4)
unfolding decode_rune
decode_rune_width a [] = ground arith
decode_rune_width a (b ∷ []) = ground arith
decode_rune_width a (b ∷ c ∷ []) = ground arith
decode_rune_width a (b ∷ c ∷ d ∷ s) = ground arith

runes_from-IsScalar : (k : ℕ) (s : Bytes) → All IsScalar (runes_from k s)
unfolding runes_from
runes_from-IsScalar zero [] = tt
runes_from-IsScalar (suc k) [] = tt
runes_from-IsScalar zero (a ∷ s) =
    (decode_rune-IsScalar a s, runes_from-IsScalar ((decode_rune a s).1 - 1) s)
runes_from-IsScalar (suc k) (a ∷ s) = runes_from-IsScalar k s

runes_from_two :
    (x y : ℕ) (s : Bytes)
    → 2 ≤ x
    → x < 32
    → y < 64
    → runes_from 0 ((0xC0 + x) ∷ (0x80 + y) ∷ s) ≡ (x * 64 + y) ∷ runes_from 0 s
unfolding runes_from decode_rune
runes_from_two x y s h k l = ground arith

decode_rune_three :
    (x y z : ℕ) (s : Bytes)
    → x < 16
    → y < 64
    → z < 64
    → 0x800 ≤ x * 4096 + y * 64 + z
    → IsScalar (x * 4096 + y * 64 + z)
    → decode_rune (0xE0 + x) ((0x80 + y) ∷ (0x80 + z) ∷ s) ≡ (x * 4096 + y * 64 + z, 3)
unfolding decode_rune
decode_rune_three x y z s h k l m n = ground arith

decode_rune_four :
    (x y z w : ℕ) (s : Bytes)
    → x < 8
    → y < 64
    → z < 64
    → w < 64
    → 0x10000 ≤ x * 262144 + y * 4096 + z * 64 + w
    → x * 262144 + y * 4096 + z * 64 + w < 0x110000
    → decode_rune (0xF0 + x) ((0x80 + y) ∷ (0x80 + z) ∷ (0x80 + w) ∷ s)
      ≡ (x * 262144 + y * 4096 + z * 64 + w, 4)
unfolding decode_rune
decode_rune_four x y z w s h k l m n o = ground arith

pub decode_rune_one : (r : ℕ) (s : Bytes) → r < 0x80 → decode_rune r s ≡ (r, 1)
unfolding decode_rune
decode_rune_one r s h = ground arith

runes_from_three :
    (r : ℕ) (s : Bytes)
    → 0x800 ≤ r
    → r < 0x10000
    → IsScalar r
    → runes_from 0 ((0xE0 + r / 4096) ∷ (0x80 + r / 64 % 64) ∷ (0x80 + r % 64) ∷ s)
      ≡ r ∷ runes_from 0 s
unfolding runes_from
runes_from_three r s h k l =
    let e : r / 4096 * 4096 + r / 64 % 64 * 64 + r % 64 ≡ r = omega arith in
    rw
      (decode_rune_three (r / 4096) (r / 64 % 64) (r % 64) s (omega arith) (omega arith)
        (omega arith) (omega arith) (rw e l))
      (rw e)

runes_from_four :
    (r : ℕ) (s : Bytes)
    → 0x10000 ≤ r
    → r < 0x110000
    → runes_from 0
        ((0xF0 + r / 262144) ∷ (0x80 + r / 4096 % 64) ∷ (0x80 + r / 64 % 64) ∷ (0x80 + r % 64) ∷ s)
      ≡ r ∷ runes_from 0 s
unfolding runes_from
runes_from_four r s h k =
    let e : r / 262144 * 262144 + r / 4096 % 64 * 4096 + r / 64 % 64 * 64 + r % 64 ≡ r =
      omega arith in
    rw
      (decode_rune_four (r / 262144) (r / 4096 % 64) (r / 64 % 64) (r % 64) s (omega arith)
        (omega arith) (omega arith) (omega arith) (omega arith) (omega arith))
      (rw e)

runes_from-encode_rune :
    (r : ℕ) (s : Bytes) → IsScalar r → runes_from 0 (encode_rune r ++ s) ≡ r ∷ runes_from 0 s
unfolding runes_from encode_rune
runes_from-encode_rune r s h = ground (
  arith,
  decode_rune_one r s,
  runes_from_two (r / 64) (r % 64) s,
  runes_from_three r s,
  runes_from_four r s,
)

runes_from-encode : (rs : List ℕ) → All IsScalar rs → runes_from 0 (encode rs) ≡ rs
unfolding encode
runes_from-encode [] h = unfold runes_from in refl
runes_from-encode (r ∷ rs) h =
    runes_from-encode_rune r (encode rs) h.0 ∙ ap (◌∷◌ r) (runes_from-encode rs h.1)

pub runes-encode-take : (n : ℕ) (s : Bytes) → runes (encode (take n (runes s))) ≡ take n (runes s)
unfolding runes
runes-encode-take n s =
    runes_from-encode (take n (runes_from 0 s))
      (All-take IsScalar n (runes_from 0 s) (runes_from-IsScalar 0 s))

-- The runes of a cut string are the first `n` runes of the string.
pub runes-truncate_runes : (n : ℕ) (s : Bytes) → runes (truncate_runes n s) ≡ take n (runes s)
unfolding truncate_runes
runes-truncate_runes n s = elim (Bool-cases (leb (length (runes s)) n)) [
  | inl short ↦ rw short (sym (take_all n (runes s) (leb→le _ _ short)))
  | inr long ↦ rw long (runes-encode-take n s)
]

pub length-runes-truncate_runes :
    (n : ℕ) (s : Bytes) → length (runes (truncate_runes n s)) ≡ min n (length (runes s))
length-runes-truncate_runes n s = rw runes-truncate_runes (length-take n (runes s))

-- A string that is short enough is kept byte for byte.
pub truncate_runes_short : (n : ℕ) (s : Bytes) → length (runes s) ≤ n → truncate_runes n s ≡ s
unfolding truncate_runes
truncate_runes_short n s h = rw (le→leb _ _ h)

pub truncate_runes_idem :
    (n : ℕ) (s : Bytes) → truncate_runes n (truncate_runes n s) ≡ truncate_runes n s
truncate_runes_idem n s =
    truncate_runes_short n (truncate_runes n s) (omega (arith, length-runes-truncate_runes n s))

-- A rune is at most four bytes wide.
length-le-runes_from : (k : ℕ) (s : Bytes) → length s ≤ k + 4 * length (runes_from k s)
unfolding runes_from
length-le-runes_from zero [] = omega arith
length-le-runes_from (suc k) [] = omega arith
length-le-runes_from zero (a ∷ s) =
    omega (arith, decode_rune_width a s, length-le-runes_from ((decode_rune a s).1 - 1) s)
length-le-runes_from (suc k) (a ∷ s) = omega (arith, length-le-runes_from k s)

length-le-runes : (s : Bytes) → length s ≤ 4 * length (runes s)
unfolding runes
length-le-runes s = omega (arith, length-le-runes_from 0 s)

pub length-truncate_runes-le : (n : ℕ) (s : Bytes) → length (truncate_runes n s) ≤ 4 * n
length-truncate_runes-le n s =
    omega (arith, length-le-runes (truncate_runes n s), length-runes-truncate_runes n s)

length-runes_from-le : (k : ℕ) (s : Bytes) → length (runes_from k s) ≤ length s
unfolding runes_from
length-runes_from-le zero [] = omega arith
length-runes_from-le (suc k) [] = omega arith
length-runes_from-le zero (a ∷ s) = omega (arith, length-runes_from-le ((decode_rune a s).1 - 1) s)
length-runes_from-le (suc k) (a ∷ s) = omega (arith, length-runes_from-le k s)

-- A string has no more runes than bytes.
pub length-runes-le : (s : Bytes) → length (runes s) ≤ length s
unfolding runes
length-runes-le s = length-runes_from-le 0 s

-- ASCII text is its own list of runes.
pub runes_ascii : (s : Bytes) → All (λ c. c < 0x80) s → runes s ≡ s
unfolding runes
runes_ascii s = ascii s
  where
    ascii : (t : Bytes) → All (λ c. c < 0x80) t → runes_from 0 t ≡ t
    ascii [] h = unfold runes_from in refl
    ascii (c ∷ t) h = unfold runes_from in rw (decode_rune_one c t h.0) (ap (◌∷◌ c) (ascii t h.1))
