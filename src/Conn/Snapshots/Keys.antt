-- ===== src/Conn/Snapshots/Keys.antt =====
-- The text key of a connection determines its five parts.
use vps_safe_dashboard.Prelude.{ℕ, ◌≡◌, sym, ap, ◌∙◌, [], ◌∷◌, ◌++◌, Bytes, arith}
use vps_safe_dashboard.Text.{itoa, dec_value, split}
use vps_safe_dashboard.Text.Decimal.{IsDigits, itoa-IsDigits, dec_value-itoa}
use vps_safe_dashboard.Text.Split.{Lacks, split_word, split-append}
use vps_safe_dashboard.Conn.Snapshots.{tuple_key}

digits-Lacks : (s : Bytes) → IsDigits s → Lacks b':' s
digits-Lacks [] h = tt
digits-Lacks (c ∷ s) (h, hs) = (ground arith, digits-Lacks s hs)

itoa-Lacks : (n : ℕ) → Lacks b':' (itoa n)
itoa-Lacks n = digits-Lacks (itoa n) (itoa-IsDigits n)

itoa-injective : (m n : ℕ) → itoa m ≡ itoa n → m ≡ n
itoa-injective m n e = cc (dec_value-itoa m, dec_value-itoa n, ap (dec_value 0) e)

split-tuple_key :
    (a b c d e : ℕ)
    → split b':' (tuple_key a b c d e) ≡ itoa a ∷ itoa b ∷ itoa c ∷ itoa d ∷ itoa e ∷ []
unfolding tuple_key
split-tuple_key a b c d e =
    split-append b':' (itoa a) (itoa b ++ b':' ∷ (itoa c ++ b':' ∷ (itoa d ++ b':' ∷ itoa e)))
      (itoa-Lacks a)
    ∙ ap (◌∷◌ (itoa a)) (
        split-append b':' (itoa b) (itoa c ++ b':' ∷ (itoa d ++ b':' ∷ itoa e)) (itoa-Lacks b)
        ∙ ap (◌∷◌ (itoa b)) (
            split-append b':' (itoa c) (itoa d ++ b':' ∷ itoa e) (itoa-Lacks c)
            ∙ ap (◌∷◌ (itoa c)) (
                split-append b':' (itoa d) (itoa e) (itoa-Lacks d)
                ∙ ap (◌∷◌ (itoa d)) (split_word b':' (itoa e) (itoa-Lacks e)))))

-- Two connections have one key only if all five parts are equal.
pub tuple_key-injective :
    (a b c d e a' b' c' d' e' : ℕ)
    → tuple_key a b c d e ≡ tuple_key a' b' c' d' e'
    → (a ≡ a') × (b ≡ b') × (c ≡ c') × (d ≡ d') × (e ≡ e')
tuple_key-injective a b c d e a' b' c' d' e' h =
    let p : itoa a ∷ itoa b ∷ itoa c ∷ itoa d ∷ itoa e ∷ []
        ≡ itoa a' ∷ itoa b' ∷ itoa c' ∷ itoa d' ∷ itoa e' ∷ [] =
      sym (split-tuple_key a b c d e) ∙ ap (split b':') h ∙ split-tuple_key a' b' c' d' e' in
    (
      itoa-injective a a' (cc),
      itoa-injective b b' (cc),
      itoa-injective c c' (cc),
      itoa-injective d d' (cc),
      itoa-injective e e' (cc),
    )
