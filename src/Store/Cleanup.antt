-- ===== src/Store/Cleanup.antt =====
-- internal/store/retention.go: the loop of cleanupTable over batches. `del` is the DELETE of a batch
-- with the number of rows deleted, `none` where it failed; `yield` is the callback. Each element of the
-- list stands for a round before the context is cancelled, with what the round reads of its surroundings.
pub mod Ends
use vps_safe_dashboard.Prelude.{ℕ, zero, suc, ◌+◌, List, [], ◌∷◌, Option, none, some}

-- How the loop ends, with the number of rows deleted so far.
pub data Cleanup : Type 0 where
  cleaned : ℕ → Cleanup
  failed : ℕ → Cleanup
  cancelled : ℕ → Cleanup

module _ {ℓ} {S : Type 0} {E : Type ℓ} (del : S → S × Option ℕ) (yield : E → S → S) where
  unfoldable pub cleanup : List E → ℕ → S → S × Cleanup
  cleanup [] total s = (s, cancelled total)
  cleanup (e ∷ es) total s =
      let (s', r) = del s in
      elim r [
        | none ↦ (s', failed total)
        | some zero ↦ (s', cleaned total)
        | some (suc n) ↦ cleanup es (total + suc n) (yield e s')
      ]
