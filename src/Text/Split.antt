-- ===== src/Text/Split.antt =====
-- Splitting undoes joining by a byte that the parts do not hold.
use vps_safe_dashboard.Prelude.{ℕ, ◌≡◌, refl, false, [], ◌∷◌, ◌++◌, Bytes, ◌==◌, All, arith}
use vps_safe_dashboard.Text.{split}

abbrev pub Lacks : ℕ → Bytes → Type 0
Lacks d s = All (λ c. (c == d) ≡ false) s

pub split_word : (d : ℕ) (w : Bytes) → Lacks d w → split d w ≡ w ∷ []
unfolding split
split_word d [] h = refl
split_word d (c ∷ w) h = rw (h.0, split_word d w h.1)

pub split-append : (d : ℕ) (w s : Bytes) → Lacks d w → split d (w ++ d ∷ s) ≡ w ∷ split d s
unfolding split
split-append d [] s h = ground arith
split-append d (c ∷ w) s h = rw (h.0, split-append d w s h.1)
