-- ===== src/Prelude/Bits.antt =====
-- Laws of the bit operations for the forms that the program uses: fields joined by `|`, and masks.
use Prim.Native.Nat.{
  ℕ, zero, suc, ◌+◌, ◌-◌, ◌*◌, ◌/◌, ◌%◌, ◌^◌, ◌≤◌, ◌<◌, min, max, bit_and, bit_or, digits,
  bit_and-bitwise, bit_or-bitwise,
}
use mathlib.Core.Path.{◌≡◌, refl, ap}
use native.Mathlib.Nat.{le_refl, pow-suc, pow-succ', one-le-pow, div-div-eq-div-mul}
use native.Mathlib.Omega.{arith}

module _ (z : ℕ → ℕ) (f : ℕ → ℕ → ℕ) where
  -- Once the fuel covers the first number, more of it changes nothing.
  digits_enough : (n k a b : ℕ) → a ≤ n → n ≤ k → digits z f k a b ≡ digits z f n a b
  digits_enough zero zero a b h l = refl
  digits_enough zero (suc k) zero b h l = refl
  digits_enough zero (suc k) (suc a) b h l = absurd (omega arith)
  digits_enough (suc n) zero a b h l = absurd (omega arith)
  digits_enough (suc n) (suc k) zero b h l = refl
  digits_enough (suc n) (suc k) (suc a) b h l =
      rw (digits_enough n k (suc a / 2) (b / 2) (omega arith) (omega arith))

  lowest_digit :
      (a b : ℕ)
      → digits z f (suc a) (suc a) b
        ≡ digits z f (suc a / 2) (suc a / 2) (b / 2) * 2 + f (suc a % 2) (b % 2)
  lowest_digit a b =
      rw (digits_enough (suc a / 2) a (suc a / 2) (b / 2) (omega arith) (omega arith))

or_lowest : (a b : ℕ) → bit_or a b ≡ bit_or (a / 2) (b / 2) * 2 + max (a % 2) (b % 2)
or_lowest zero b = simp bit_or-bitwise (omega arith)
or_lowest (suc a) b = simp bit_or-bitwise (lowest_digit (λ y. y) max a b)

and_lowest : (a b : ℕ) → bit_and a b ≡ bit_and (a / 2) (b / 2) * 2 + min (a % 2) (b % 2)
and_lowest zero b = simp bit_and-bitwise (omega arith)
and_lowest (suc a) b = simp bit_and-bitwise (lowest_digit (λ y. 0) min a b)

-- Halving the number is enough fuel for an induction on it.
or_zero : (k a : ℕ) → a ≤ k → bit_or a 0 ≡ a
or_zero k zero h = refl
or_zero zero (suc a) h = absurd (omega arith)
or_zero (suc k) (suc a) h = omega (arith, or_lowest (suc a) 0, or_zero k (suc a / 2) (omega arith))

and_zero : (k a : ℕ) → a ≤ k → bit_and a 0 ≡ 0
and_zero k zero h = refl
and_zero zero (suc a) h = absurd (omega arith)
and_zero (suc k) (suc a) h =
    omega (arith, and_lowest (suc a) 0, and_zero k (suc a / 2) (omega arith))

-- 2 ^ (k + 1) times a number, halved.
half_shifted : (k x : ℕ) → x * 2 ^ suc k / 2 ≡ x * 2 ^ k
half_shifted k x = omega (arith, ap (λ (t : ℕ). x * t) (pow-suc 2 k))

even_shifted : (k x : ℕ) → x * 2 ^ suc k % 2 ≡ 0
even_shifted k x = omega (arith, ap (λ (t : ℕ). x * t) (pow-suc 2 k))

-- Fields that do not overlap are added.
pub or_disjoint : (k x y : ℕ) → y < 2 ^ k → bit_or (x * 2 ^ k) y ≡ x * 2 ^ k + y
or_disjoint zero x zero h = omega (arith, or_zero (x * 1) (x * 1) (le_refl (x * 1)))
or_disjoint zero x (suc y) h = absurd (omega arith)
or_disjoint (suc k) x y h =
    let ih : bit_or (x * 2 ^ k) (y / 2) ≡ x * 2 ^ k + y / 2 =
      or_disjoint k x (y / 2) (omega (arith, pow-suc 2 k)) in
    rw or_lowest (
      rw (half_shifted k x, even_shifted k x, ih)
        (omega (arith, ap (λ (t : ℕ). x * t) (pow-suc 2 k))))

and_full : (k x : ℕ) → x < 2 ^ k → bit_and x (2 ^ k - 1) ≡ x
and_full zero zero h = refl
and_full zero (suc x) h = absurd (omega arith)
and_full (suc k) x h =
    let half : (2 ^ suc k - 1) / 2 ≡ 2 ^ k - 1 = omega (arith, pow-suc 2 k, one-le-pow k 2) in
    let ih : bit_and (x / 2) (2 ^ k - 1) ≡ x / 2 =
      and_full k (x / 2) (omega (arith, pow-suc 2 k)) in
    rw and_lowest (rw (half, ih) (omega (arith, pow-suc 2 k, one-le-pow k 2)))

-- A mask that drops the lowest `j` bits and keeps the `k` above them.
pub and_high : (j k x : ℕ) → x < 2 ^ k * 2 ^ j → bit_and x ((2 ^ k - 1) * 2 ^ j) ≡ x / 2 ^ j * 2 ^ j
and_high zero k x h =
    let e : (2 ^ k - 1) * 2 ^ 0 ≡ 2 ^ k - 1 = omega arith in rw e (omega (arith, and_full k x))
and_high (suc j) k x h =
    let ih : bit_and (x / 2) ((2 ^ k - 1) * 2 ^ j) ≡ x / 2 / 2 ^ j * 2 ^ j =
      and_high j k (x / 2) (omega (arith, ap (λ (t : ℕ). 2 ^ k * t) (pow-suc 2 j))) in
    rw and_lowest (
      rw
        (
          half_shifted j (2 ^ k - 1),
          even_shifted j (2 ^ k - 1),
          ih,
          pow-succ' 2 j,
          ← div-div-eq-div-mul x 2 (2 ^ j),
        )
        (omega arith))
