-- ===== src/Fw/Filter/Masks.antt =====
-- A network's test by masks compares the first bits of the two addresses.
use Prim.Native.Nat.{bit_and}
use native.Mathlib.Nat.{one-le-pow, mul-div_cancel}
use vps_safe_dashboard.Prelude.{
  ℕ, zero, suc, ◌-◌, ◌*◌, ◌/◌, ◌%◌, ◌^◌, ◌≤◌, ◌<◌, ◌≡◌, refl, sym, ap, ◌∙◌, Bool, true, false, ◌&&◌,
  List, [], ◌∷◌, ◌==◌, ==_iff, any, All, if◌then◌else◌, arith,
}
use vps_safe_dashboard.Prelude.Bits.{and_high}
use vps_safe_dashboard.Event.Ipv4.{ipv4_to_uint32}
use vps_safe_dashboard.Fw.Filter.{IpNet, prefix_mask, is_internal_ipv4}

-- How many of the first `bound` numbers fail a test.
failures : (ℕ → Bool) → ℕ → ℕ
failures test zero = 0
failures test (suc bound) =
    let others = failures test bound in if test bound then others else suc others

no_failure : (test : ℕ → Bool) (bound i : ℕ) → failures test bound ≡ 0 → i < bound → test i ≡ true
unfolding failures
no_failure test zero i none_fails within = absurd (omega arith)
no_failure test (suc bound) i none_fails within = ground (arith, no_failure test bound i)

-- The mask of `32 - j` ones and `j` zeros, for each `j`.
mask_table : failures (λ j. 4294967295 * 2 ^ j % 4294967296 == (2 ^ (32 - j) - 1) * 2 ^ j) 33 ≡ 0
unfolding failures
mask_table = refl

width_table : failures (λ j. 2 ^ (32 - j) * 2 ^ j == 4294967296) 33 ≡ 0
unfolding failures
width_table = refl

and_mask :
    (j x : ℕ)
    → j ≤ 32
    → x < 4294967296
    → bit_and x (4294967295 * 2 ^ j % 4294967296) ≡ x / 2 ^ j * 2 ^ j
and_mask j x h k =
    let m : 4294967295 * 2 ^ j % 4294967296 ≡ (2 ^ (32 - j) - 1) * 2 ^ j = (==_iff _ _).0 (
      no_failure (λ j. 4294967295 * 2 ^ j % 4294967296 == (2 ^ (32 - j) - 1) * 2 ^ j) 33 j
        mask_table (omega arith)) in
    let w : 2 ^ (32 - j) * 2 ^ j ≡ 4294967296 =
      (==_iff _ _).0
        (no_failure (λ j. 2 ^ (32 - j) * 2 ^ j == 4294967296) 33 j width_table (omega arith)) in
    rw m (and_high j (32 - j) x (omega arith))

-- The first `ones` bits of two addresses are the same.
abbrev pub same_prefix : ℕ → ℕ → ℕ → Bool
same_prefix ones a b = a / 2 ^ (32 - ones) == b / 2 ^ (32 - ones)

eq_of_iff : (x y : Bool) → (x ≡ true → y ≡ true) → (y ≡ true → x ≡ true) → x ≡ y
eq_of_iff true y h k = sym (h refl)
eq_of_iff false true h k = k refl
eq_of_iff false false h k = refl

same_product : (p a b : ℕ) → 0 < p → (a * p == b * p) ≡ (a == b)
same_product p a b h =
    eq_of_iff (a * p == b * p) (a == b)
      (λ e. (==_iff a b).1 (
        sym (mul-div_cancel a h)
        ∙ ap (λ t. t / p) ((==_iff (a * p) (b * p)).0 e)
        ∙ mul-div_cancel b h))
      (λ e. (==_iff (a * p) (b * p)).1 (ap (λ t. t * p) ((==_iff a b).0 e)))

same_masked :
    (j x y : ℕ)
    → j ≤ 32
    → x < 4294967296
    → y < 4294967296
    → (bit_and x (4294967295 * 2 ^ j % 4294967296) == bit_and y (4294967295 * 2 ^ j % 4294967296))
      ≡ (x / 2 ^ j == y / 2 ^ j)
same_masked j x y h k l =
    rw (and_mask j x h k, and_mask j y h l)
      (same_product (2 ^ j) (x / 2 ^ j) (y / 2 ^ j) (one-le-pow j 2 (omega arith)))

-- An address is in an IPv4 network if it begins with the network's prefix.
abbrev pub in_net : ℕ → IpNet → Bool
in_net ip n = n.bits == 32 && same_prefix n.ones ip (ipv4_to_uint32 n.ip)

-- What Mask.Size() returns of an IPv4 mask is at most 32, and a number of four bytes fits uint32.
abbrev pub IsNet : IpNet → Type 0
IsNet n = (n.ones ≤ 32) × (ipv4_to_uint32 n.ip < 4294967296)

-- Of an address of 32 bits and networks with prefixes of at most 32 bits: the test by masks finds a
-- network exactly if one is of IPv4 and the address begins with its prefix.
pub is_internal_ipv4_lem :
    (ip : ℕ) (ns : List IpNet)
    → ip < 4294967296
    → All IsNet ns
    → is_internal_ipv4 ip ns ≡ any (in_net ip) ns
unfolding is_internal_ipv4 prefix_mask
is_internal_ipv4_lem ip [] h k = refl
is_internal_ipv4_lem ip (n ∷ ns) h (k, ks) =
    rw
      (
        same_masked (32 - n.ones) ip (ipv4_to_uint32 n.ip) (omega arith) h k.1,
        is_internal_ipv4_lem ip ns h ks,
      )
      (ground arith)
