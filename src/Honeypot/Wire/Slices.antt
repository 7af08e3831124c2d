-- ===== src/Honeypot/Wire/Slices.antt =====
-- Slices within bounds, and numbers of enough bytes.
use vps_safe_dashboard.Prelude.{
  ℕ, zero, suc, ◌+◌, ◌-◌, ◌≤◌, ◌≡◌, refl, ap, ◌∙◌, Bool, true, false, ◌&&◌, [], ◌∷◌, ◌++◌, Bytes,
  Option, some, if◌then◌else◌, leb, length, length-append, length-take, take, drop, arith,
}
use mathlib.Core.List.{append_assoc}
use vps_safe_dashboard.Honeypot.Session.Reads.{drop-append, take-append}
use vps_safe_dashboard.Honeypot.Wire.{be16, le16, le32, slice}

-- There is a result: no panic, and no fuel that was too short.
abbrev pub Returns {ℓ} : {A : Type ℓ} → Option A → Type ℓ
Returns o = (a : _) × (o ≡ some a)

pub if_Returns {ℓ} :
    {A : Type ℓ} (b : Bool) (x y : Option A)
    → (b ≡ true → Returns x)
    → (b ≡ false → Returns y)
    → Returns (if b then x else y)
if_Returns true x y h k = h refl
if_Returns false x y h k = k refl

in_range : (lo hi n : ℕ) → lo ≤ hi → hi ≤ n → (leb lo hi && leb hi n) ≡ true
in_range lo hi n h k = ground arith

pub slice_in :
    (lo hi : ℕ) (b : Bytes)
    → lo ≤ hi
    → hi ≤ length b
    → slice lo hi b ≡ some (take (hi - lo) (drop lo b))
unfolding slice
slice_in lo hi b h k = rw (in_range lo hi (length b) h k) refl

pub slice-append : (x y z : Bytes) → slice (length x) (length x + length y) (x ++ y ++ z) ≡ some y
slice-append x y z =
    slice_in (length x) (length x + length y) (x ++ y ++ z) (omega arith)
      (omega (arith, length-append (x ++ y) z, length-append x y))
    ∙ ap (λ n. some (take n (drop (length x) (x ++ y ++ z)))) (omega arith)
    ∙ ap (λ s. some (take (length y) s))
        (ap (drop (length x)) (append_assoc x y z) ∙ drop-append x (y ++ z))
    ∙ ap (λ s. some s) (take-append y z)

pub length-drop : (n : ℕ) (s : Bytes) → length (drop n s) ≡ length s - n
length-drop zero s = omega arith
length-drop (suc n) [] = omega arith
length-drop (suc n) (c ∷ s) = omega (arith, length-drop n s)

pub length-slice :
    (lo hi : ℕ) (b : Bytes)
    → lo ≤ hi
    → hi ≤ length b
    → length (take (hi - lo) (drop lo b)) ≡ hi - lo
length-slice lo hi b h k = omega (arith, length-take (hi - lo) (drop lo b), length-drop lo b)

pub be16-Returns : (b : Bytes) → 2 ≤ length b → Returns (be16 b)
unfolding be16
be16-Returns [] h = absurd (omega arith)
be16-Returns (c ∷ []) h = absurd (omega arith)
be16-Returns (c ∷ d ∷ s) h = (_, refl)

pub le16-Returns : (b : Bytes) → 2 ≤ length b → Returns (le16 b)
unfolding le16
le16-Returns [] h = absurd (omega arith)
le16-Returns (c ∷ []) h = absurd (omega arith)
le16-Returns (c ∷ d ∷ s) h = (_, refl)

pub le32-Returns : (b : Bytes) → 4 ≤ length b → Returns (le32 b)
unfolding le32
le32-Returns [] h = absurd (omega arith)
le32-Returns (c ∷ []) h = absurd (omega arith)
le32-Returns (c ∷ d ∷ []) h = absurd (omega arith)
le32-Returns (c ∷ d ∷ e ∷ []) h = absurd (omega arith)
le32-Returns (c ∷ d ∷ e ∷ f ∷ s) h = (_, refl)
