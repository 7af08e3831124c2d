-- ===== src/Store/Cleanup/Ends.antt =====
-- The loop over batches ends, and deletes exactly the rows that are old; and what its steps keep, it
-- keeps.
use vps_safe_dashboard.Prelude.{
  ℕ, zero, suc, ◌+◌, ◌-◌, ◌<◌, ◌≡◌, refl, ap, ◌∙◌, List, [], ◌∷◌, Option, none, some, length, min,
  arith,
}
use vps_safe_dashboard.Store.Cleanup.{Cleanup, cleaned, cleanup}

module _ {ℓ} {S : Type 0} {E : Type ℓ} (del : S → S × Option ℕ) (yield : E → S → S) where
  -- All old rows are deleted, and counted.
  abbrev pub IsCleaned : (S → ℕ) → ℕ → ℕ → S × Cleanup → Type 0
  IsCleaned old total n r = (r.1 ≡ cleaned (total + n)) × (old r.0 ≡ 0)

  module _ {κ} (P : S → Type κ) (keep_del : (s : S) → P s → P (del s).0)
      (keep_yield : (e : E) (s : S) → P s → P (yield e s)) where
    round_keeps :
        (e : E) (es : List E) (total : ℕ) (s : S) (o : Option ℕ)
        → (del s).1 ≡ o
        → P (del s).0
        → ((t : ℕ) (s' : S) → P s' → P (cleanup del yield es t s').0)
        → P (cleanup del yield (e ∷ es) total s).0
    unfolding cleanup
    round_keeps e es total s none r p later = rw (r, cleanup) p
    round_keeps e es total s (some zero) r p later = rw (r, cleanup) p
    round_keeps e es total s (some (suc n)) r p later =
        rw (r, cleanup) (later _ _ (keep_yield e _ p))

    pub cleanup_keeps : (es : List E) (total : ℕ) (s : S) → P s → P (cleanup del yield es total s).0
    cleanup_keeps [] total s p = unfold cleanup in p
    cleanup_keeps (e ∷ es) total s p =
        round_keeps e es total s (del s).1 refl (keep_del s p) (cleanup_keeps es)

  module _ (old : S → ℕ) (batch : ℕ) (positive : 0 < batch)
      (works : (s : S) → (del s).1 ≡ some (min batch (old s)))
      (left : (s : S) → old (del s).0 ≡ old s - min batch (old s))
      (same : (e : E) (s : S) → old (yield e s) ≡ old s) where
    round_cleans :
        (e : E) (es : List E) (total : ℕ) (s : S) (n : ℕ)
        → min batch (old s) ≡ n
        → ((t : ℕ) (s' : S)
            → old s' < length es
            → IsCleaned old t (old s') (cleanup del yield es t s'))
        → old s < length (e ∷ es)
        → IsCleaned old total (old s) (cleanup del yield (e ∷ es) total s)
    unfolding cleanup
    round_cleans e es total s zero m later h =
        rw (works s, m, cleanup)
          (ap (λ (k : ℕ). cleaned k) (omega (arith, positive)), omega (arith, left s, positive))
    round_cleans e es total s (suc n) m later h =
        let next : S = yield e (del s).0 in
        let (ends, none_left) =
          later (total + suc n) next (omega (arith, same e (del s).0, left s)) in
        rw (works s, m, cleanup)
          (ends ∙ ap (λ (k : ℕ). cleaned k) (omega (arith, same e (del s).0, left s)), none_left)

    -- Where each DELETE succeeds and takes as many old rows as a batch has, or all where they are fewer,
    -- and the callback makes no row old: with more rounds before the context is cancelled than there
    -- are old rows, the loop ends by itself, all old rows are deleted, and it returns their number.
    pub cleanup_lem :
        (es : List E) (total : ℕ) (s : S)
        → old s < length es
        → IsCleaned old total (old s) (cleanup del yield es total s)
    cleanup_lem [] total s h = absurd (omega arith)
    cleanup_lem (e ∷ es) total s h =
        round_cleans e es total s (min batch (old s)) refl (cleanup_lem es) h
