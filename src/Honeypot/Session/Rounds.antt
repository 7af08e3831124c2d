-- ===== src/Honeypot/Session/Rounds.antt =====
-- Loops over the messages of a connection: each round reads some bytes at least, so fuel above their
-- number is enough.
use vps_safe_dashboard.Prelude.{
  ℕ, zero, suc, ◌≤◌, ◌<◌, ◌≡◌, refl, List, [], ◌∷◌, Bytes, Option, none, some, Bool, true, false,
  if◌then◌else◌, length, arith,
}
use vps_safe_dashboard.Honeypot.Session.{Action, read_full, with_read}

-- What is left, if anything was read, is shorter than n.
abbrev pub Leaves {ℓ} : {A : Type ℓ} → ℕ → Option (A × Bytes) → Type 0
Leaves n none = Unit
Leaves n (some (a, rest)) = length rest < n

-- Continuations that agree on what is shorter than n.
abbrev pub Agree {ℓ} :
    {S : Type ℓ} → ℕ → (Bytes → S → List Action) → (Bytes → S → List Action) → Type ℓ
Agree n next next' = (rest : Bytes) → length rest < n → next rest ≡ next' rest

pub with_read-Agree {ℓ} :
    {A : Type ℓ} (n : ℕ) (o : Option (A × Bytes)) (next next' : A → Bytes → List Action)
    → Leaves n o
    → ((a : A) (rest : Bytes) → length rest < n → next a rest ≡ next' a rest)
    → with_read o next ≡ with_read o next'
with_read-Agree n none next next' h k = refl
with_read-Agree n (some (a, rest)) next next' h k = k a rest h

pub Leaves-weaken {ℓ} :
    {A : Type ℓ} (n m : ℕ) (o : Option (A × Bytes)) → n ≤ m → Leaves n o → Leaves m o
Leaves-weaken n m none h k = tt
Leaves-weaken n m (some (a, rest)) h k = omega arith

-- What is made of what was read.
pub Leaves-map {ℓ κ} :
    {A : Type ℓ} {B : Type κ} (f : A → B) (n : ℕ) (o : Option (A × Bytes))
    → Leaves n o
    → Leaves n
        (elim o as (λ x. Option (B × Bytes)) [ none ↦ none | some (a, rest) ↦ some (f a, rest) ])
Leaves-map f n none h = tt
Leaves-map f n (some (a, rest)) h = h

pub Leaves-chain {ℓ κ} :
    {A : Type ℓ} {B : Type κ} (n : ℕ) (o : Option (A × Bytes))
    (next : A → Bytes → Option (B × Bytes))
    → Leaves n o
    → ((a : A) (rest : Bytes) → length rest < n → Leaves n (next a rest))
    → Leaves n (elim o as (λ x. Option (B × Bytes)) [ none ↦ none | some (a, rest) ↦ next a rest ])
Leaves-chain n none next h k = tt
Leaves-chain n (some (a, rest)) next h k = k a rest h

pub Leaves-shorter {ℓ} :
    {A : Type ℓ} (n : ℕ) (o : Option (A × Bytes))
    → ((a : A) (rest : Bytes) → o ≡ some (a, rest) → length rest < n)
    → Leaves n o
Leaves-shorter n none h = tt
Leaves-shorter n (some (a, rest)) h = h a rest refl

pub if_Leaves {ℓ} :
    {A : Type ℓ} (n : ℕ) (b : Bool) (x y : Option (A × Bytes))
    → Leaves n x
    → Leaves n y
    → Leaves n (if b then x else y)
if_Leaves n true x y h k = h
if_Leaves n false x y h k = k

pub read_full-Leaves : (n : ℕ) (s : Bytes) → Leaves (suc (length s)) (read_full n s)
unfolding read_full
read_full-Leaves zero s = omega arith
read_full-Leaves (suc n) [] = tt
read_full-Leaves (suc n) (b ∷ s) = Leaves-map (◌∷◌ b) (suc (suc (length s))) (read_full n s) (
    Leaves-weaken (suc (length s)) (suc (suc (length s))) (read_full n s) (omega arith)
      (read_full-Leaves n s))

-- A read of one byte or more takes some.
pub read_full_some-Leaves : (n : ℕ) (s : Bytes) → Leaves (length s) (read_full (suc n) s)
unfolding read_full
read_full_some-Leaves n [] = tt
read_full_some-Leaves n (b ∷ s) =
    Leaves-map (◌∷◌ b) (suc (length s)) (read_full n s) (read_full-Leaves n s)

module _ {ℓ} {S : Type ℓ} (step : Bytes → S → (Bytes → S → List Action) → List Action)
    (agrees : (input : Bytes) (s : S) (next next' : Bytes → S → List Action)
      → Agree (length input) next next'
      → step input s next ≡ step input s next') where
  unfoldable pub rounds : ℕ → Bytes → S → List Action
  rounds zero input s = []
  rounds (suc f) input s = step input s (rounds f)

  pub rounds_enough :
      (f g : ℕ) (input : Bytes)
      → length input < f
      → length input < g
      → rounds f input ≡ rounds g input
  unfolding rounds
  rounds_enough zero g input h k = absurd (omega arith)
  rounds_enough (suc f) zero input h k = absurd (omega arith)
  rounds_enough (suc f) (suc g) input h k = λ i s.
      agrees input s (rounds f) (rounds g)
        (λ rest shorter. rounds_enough f g rest (omega arith) (omega arith)) i
