-- ===== src/Text.antt =====
-- What the program uses of Go's `strconv` and `strings`: numbers in decimal, and splitting. A string
-- is the list of its bytes.
pub mod Decimal
pub mod Split
pub mod Spaces
use vps_safe_dashboard.Prelude.{
  ℕ, zero, suc, ◌+◌, ◌-◌, ◌*◌, ◌/◌, ◌%◌, ◌^◌, Bool, true, false, ◌&&◌, ◌||◌, List, [], ◌∷◌, ◌++◌,
  Bytes, Option, none, some, ltb, leb, ◌==◌, if◌then◌else◌,
}

-- `negsuc n` is -(n + 1).
pub data ℤ : Type 0 where
  pos : ℕ → ℤ
  negsuc : ℕ → ℤ

-- -n
abbrev pub neg : ℕ → ℤ
neg zero = pos zero
neg (suc n) = negsuc n

abbrev pub is_digit : ℕ → Bool
is_digit c = leb b'0' c && leb c b'9'

-- strconv.Itoa of a number that is not negative: digits are put in front of the last one.
unfoldable pub itoa_fuel : ℕ → ℕ → Bytes
itoa_fuel zero n = []
itoa_fuel (suc f) n =
    let front = itoa_fuel f (n / 10) in
    if ltb n 10 then (b'0' + n) ∷ [] else front ++ (b'0' + n % 10) ∷ []

unfoldable pub itoa : ℕ → Bytes
unfolding itoa_fuel
itoa n = itoa_fuel (suc n) n

-- The number that a string of digits stands for, after the digits of `acc`.
unfoldable pub dec_value : ℕ → Bytes → Option ℕ
dec_value acc [] = some acc
dec_value acc (c ∷ s) = if is_digit c then dec_value (acc * 10 + (c - b'0')) s else none

below : ℕ → Option ℕ → Option ℕ
below limit none = none
below limit (some n) = if ltb n limit then some n else none

-- strconv.ParseUint(s, 10, w), with `limit` for 2 ^ w
unfoldable pub parse_uint : ℕ → Bytes → Option ℕ
unfolding dec_value below
parse_uint limit [] = none
parse_uint limit (c ∷ s) = below limit (dec_value 0 (c ∷ s))

abbrev pub map_option {ℓ κ} : {A : Type ℓ} {B : Type κ} → (A → B) → Option A → Option B
map_option f none = none
map_option f (some a) = some (f a)

-- strconv.Atoi: a sign may stand in front, and the value fits 64 bits.
unfoldable pub atoi : Bytes → Option ℤ
atoi [] = none
atoi (c ∷ s) =
    if c == b'-'
    then map_option neg (parse_uint (2 ^ 63 + 1) s)
    else if c == b'+'
    then map_option pos (parse_uint (2 ^ 63) s)
    else map_option pos (parse_uint (2 ^ 63) (c ∷ s))

abbrev push_byte : ℕ → List Bytes → List Bytes
push_byte c [] = (c ∷ []) ∷ []
push_byte c (w ∷ ws) = (c ∷ w) ∷ ws

-- strings.Split(s, string(d))
unfoldable pub split : ℕ → Bytes → List Bytes
split d [] = [] ∷ []
split d (c ∷ s) = let rest = split d s in if c == d then [] ∷ rest else push_byte c rest

-- unicode.IsSpace of an ASCII byte
abbrev pub is_space : ℕ → Bool
is_space c = c == 32 || (leb 9 c && leb c 13)

abbrev pub to_upper : ℕ → ℕ
to_upper c = if leb b'a' c && leb c b'z' then c - 32 else c
