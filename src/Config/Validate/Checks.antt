-- ===== src/Config/Validate/Checks.antt =====
-- What the tests of Validate say of the values, and how a chain of tests passes.
use vps_safe_dashboard.Prelude.{
  ℕ, ◌≤◌, ◌<◌, ◌≡◌, refl, ◌≢◌, ◌↔◌, ◌⊎◌, inl, inr, Bool, true, false, ◌&&◌, ◌||◌, not, [], ◌∷◌,
  ◌++◌, Bytes, Option, none, some, Option-cases, list_beq_iff, nat_eq, arith,
}
use vps_safe_dashboard.Text.{ℤ, pos, negsuc}
use vps_safe_dashboard.Text.Spaces.{strip_prefix}
use vps_safe_dashboard.Config.Validate.{
  ConfigError, below, at_least, outside, is_text, no_text, starts_with, fail_if, try_check,
}

abbrev pub AtLeast : ℕ → ℤ → Type 0
AtLeast n (pos x) = n ≤ x
AtLeast n (negsuc x) = 1 ≤ 0

abbrev pub Between : ℕ → ℕ → ℤ → Type 0
Between lo hi (pos x) = (lo ≤ x) × (x ≤ hi)
Between lo hi (negsuc x) = 1 ≤ 0

abbrev pub Less : ℤ → ℤ → Type 0
Less (pos x) (pos y) = x < y
Less (pos x) (negsuc y) = 1 ≤ 0
Less (negsuc x) (pos y) = 0 ≤ 0
Less (negsuc x) (negsuc y) = y < x

abbrev pub Begins : Bytes → Bytes → Type 0
Begins p s = (r : Bytes) × (s ≡ p ++ r)

-- A test that is false exactly if P holds, and a check that passes exactly if P holds.
abbrev pub Refutes {ℓ} : Bool → Type ℓ → Type ℓ
Refutes b P = (b ≡ false) ↔ P

abbrev pub Passes {ℓ} : Option ConfigError → Type ℓ → Type ℓ
Passes m P = (m ≡ none) ↔ P

pub below_lem : (n : ℕ) (x : ℤ) → Refutes (below x n) (AtLeast n x)
below_lem n (pos x) = ground arith
below_lem n (negsuc x) = (λ h. cc, λ h. absurd (omega arith))

pub outside_lem : (lo hi : ℕ) (x : ℤ) → Refutes (outside lo hi x) (Between lo hi x)
outside_lem lo hi (pos x) = ground arith
outside_lem lo hi (negsuc x) = (λ h. cc, λ h. absurd (omega arith))

pub at_least_lem : (x y : ℤ) → Refutes (at_least x y) (Less x y)
at_least_lem (pos x) (pos y) = ground arith
at_least_lem (pos x) (negsuc y) = (λ h. cc, λ h. absurd (omega arith))
at_least_lem (negsuc x) (pos y) = (λ h. omega arith, λ h. refl)
at_least_lem (negsuc x) (negsuc y) = ground arith

pub no_text_lem : (s : Bytes) → Refutes (no_text s) (s ≢ [])
no_text_lem [] = (λ h. cc, λ h. absurd (h refl))
no_text_lem (c ∷ s) = (λ h p. cc, λ h. refl)

pub refutes_or {ℓ} :
    {P Q : Type ℓ} (a b : Bool) → Refutes a P → Refutes b Q → Refutes (a || b) (P × Q)
refutes_or true b f g = (λ h. cc, λ h. f.1 h.0)
refutes_or false b f g = (λ h. (f.0 refl, g.0 h), λ h. g.1 h.1)

pub refutes_and {ℓ} :
    {P Q : Type ℓ} (a b : Bool) → Refutes a P → Refutes b Q → Refutes (a && b) (P ⊎ Q)
refutes_and true b f g = (λ h. inr (g.0 h), λ h. elim h [ inl p ↦ cc (f.1 p) | inr q ↦ g.1 q ])
refutes_and false b f g = (λ h. inl (f.0 refl), λ h. refl)

pub refutes_not {ℓ} : {P : Type ℓ} (a : Bool) → (a ≡ true) ↔ P → Refutes (not a) P
refutes_not true f = (λ h. f.0 refl, λ h. refl)
refutes_not false f = (λ h. cc, λ h. cc (f.1 h))

pub is_text_lem : (s t : Bytes) → Refutes (not (is_text s t)) (s ≡ t)
is_text_lem s t = refutes_not (is_text s t) (list_beq_iff nat_eq s t)

strip_prefix_sound : (p s r : Bytes) → strip_prefix p s ≡ some r → s ≡ p ++ r
unfolding strip_prefix
strip_prefix_sound [] s r h = cc
strip_prefix_sound (c ∷ p) [] r h = cc
strip_prefix_sound (c ∷ p) (d ∷ s) r h = ground (arith, strip_prefix_sound p s r)

strip_prefix-append : (p r : Bytes) → strip_prefix p (p ++ r) ≡ some r
unfolding strip_prefix
strip_prefix-append [] r = refl
strip_prefix-append (c ∷ p) r = ground (arith, strip_prefix-append p r)

some_prefix : (p s : Bytes) → (starts_with p s ≡ true) ↔ Begins p s
some_prefix p s = (
  λ h. elim (Option-cases (strip_prefix p s)) [
    | inl e ↦ cc
    | inr (r, e) ↦ (r, strip_prefix_sound p s r e)
  ],
  λ (r, q). rw (q, starts_with, strip_prefix-append p r) refl,
)

pub starts_with_lem : (p s : Bytes) → Refutes (not (starts_with p s)) (Begins p s)
starts_with_lem p s = refutes_not (starts_with p s) (some_prefix p s)

pub passes_if {ℓ} :
    {P Q : Type ℓ} (b : Bool) (e : ConfigError) (m : Option ConfigError)
    → Refutes b P
    → Passes m Q
    → Passes (fail_if b e m) (P × Q)
passes_if true e m f g = (λ h. cc, λ h. cc (f.1 h.0))
passes_if false e m f g = (λ h. (f.0 refl, g.0 h), λ h. g.1 h.1)

-- The last test.
pub passes_last {ℓ} :
    {P : Type ℓ} (b : Bool) (e : ConfigError) → Refutes b P → Passes (fail_if b e none) P
passes_last true e f = (λ h. cc, λ h. cc (f.1 h))
passes_last false e f = (λ h. f.0 refl, λ h. refl)

pub passes_try {ℓ} :
    {P Q : Type ℓ} (m n : Option ConfigError)
    → Passes m P
    → Passes n Q
    → Passes (try_check m n) (P × Q)
passes_try none n f g = (λ h. (f.0 refl, g.0 h), λ h. g.1 h.1)
passes_try (some e) n f g = (λ h. cc, λ h. cc (f.1 h.0))

pub passes_regroup {ℓ} :
    {P Q R : Type ℓ} (m : Option ConfigError) → Passes m (P × (Q × R)) → Passes m ((P × Q) × R)
passes_regroup m f = (λ h. let q = f.0 h in ((q.0, q.1.0), q.1.1), λ q. f.1 (q.0.0, (q.0.1, q.1)))
