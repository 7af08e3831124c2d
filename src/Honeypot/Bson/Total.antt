-- ===== src/Honeypot/Bson/Total.antt =====
-- A document is read to its end, and no access to it is out of range.
use vps_safe_dashboard.Prelude.{
  ℕ, zero, suc, ◌+◌, ◌-◌, ◌≤◌, ◌<◌, ◌≡◌, refl, true, [], ◌∷◌, Bytes, Option, none, some, ltb,
  length, Bool-cases, inl, inr, get_elem?, take, drop, arith,
}
use vps_safe_dashboard.Honeypot.Wire.{slice}
use vps_safe_dashboard.Honeypot.Wire.Slices.{
  Returns, if_Returns, slice_in, length-slice, le32-Returns,
}
use vps_safe_dashboard.Honeypot.Bson.{
  Skipped, short, ends_at, first_zero, name_end, le32_at, counted, skip_counted, skip_regex,
  skip_bson_value, bson_value, bson_named, bson_element, bson_elements, bson_sized, bson_document,
}

pub le32_at-Returns : (pos : ℕ) (doc : Bytes) → pos + 4 ≤ length doc → Returns (le32_at pos doc)
unfolding le32_at
le32_at-Returns pos doc h =
    let len : length (take (pos + 4 - pos) (drop pos doc)) ≡ pos + 4 - pos =
      length-slice pos (pos + 4) doc (omega arith) h in
    rw (slice_in pos (pos + 4) doc (omega arith) h)
      (le32-Returns (take (pos + 4 - pos) (drop pos doc)) (omega (arith, len)))

first_zero_le : (s : Bytes) → first_zero s ≤ length s
unfolding first_zero
first_zero_le [] = omega arith
first_zero_le (b ∷ s) = ground (arith, first_zero_le s)

-- A value is skipped without a panic, and ends behind where it begins.
abbrev Skips : ℕ → Option Skipped → Type 0
Skips pos none = ⊥
Skips pos (some short) = Unit
Skips pos (some (ends_at e)) = pos ≤ e

behind : (pos : ℕ) (doc : Bytes) → pos ≤ skip_regex pos doc
unfolding skip_regex
behind pos doc = omega arith

counted-Skips :
    (head least pos : ℕ) (doc : Bytes) (o : Option ℕ)
    → Returns o
    → Skips pos (counted head least pos doc o)
counted-Skips head least pos doc none h = absurd cc
counted-Skips head least pos doc (some n) h = ground arith

skip_counted-Skips :
    (needs head least pos : ℕ) (doc : Bytes)
    → 4 ≤ needs
    → Skips pos (skip_counted needs head least pos doc)
unfolding skip_counted
skip_counted-Skips needs head least pos doc h = elim (Bool-cases (ltb (length doc) (pos + needs))) [
  | inl e ↦ rw e tt
  | inr e ↦
      rw e (
        counted-Skips head least pos doc (le32_at pos doc) (le32_at-Returns pos doc (ground arith)))
]

skip_bson_value-Skips : (doc : Bytes) (pos typ : ℕ) → Skips pos (skip_bson_value doc pos typ)
unfolding skip_bson_value
skip_bson_value-Skips doc pos typ =
    let text = skip_counted-Skips 4 4 1 pos doc (omega arith) in
    let document = skip_counted-Skips 4 0 4 pos doc (omega arith) in
    let binary = skip_counted-Skips 5 5 0 pos doc (omega arith) in
    let regex : pos ≤ skip_regex pos doc = behind pos doc in ground arith

pub get-Returns : (doc : Bytes) (i : ℕ) → i < length doc → Returns (get_elem? doc i)
get-Returns [] i h = absurd (omega arith)
get-Returns (b ∷ doc) zero h = (b, refl)
get-Returns (b ∷ doc) (suc i) h = get-Returns doc i (omega arith)

name_end_le :
    (doc : Bytes) (from limit : ℕ)
    → from ≤ limit
    → limit ≤ length doc
    → name_end doc from limit ≤ limit
name_end_le doc from limit h k =
    omega
      (arith, first_zero_le (take (limit - from) (drop from doc)), length-slice from limit doc h k)

-- What is noted of a value must be within it; then a document is read to its end whatever it holds.
module _ {ℓ} {F : Type ℓ} (note : Bytes → ℕ → ℕ → Bytes → F → Option F)
    (noted : (doc : Bytes) (pos typ : ℕ) (name : Bytes) (found : F) (e : ℕ)
      → skip_bson_value doc pos typ ≡ some (ends_at e)
      → Returns (note doc pos typ name found)) where
  noted_next :
      (o : Option F) (next : F → Option F)
      → Returns o
      → ((f : F) → Returns (next f))
      → Returns (elim o [ none ↦ none | some f ↦ next f ])
  noted_next none next h k = absurd cc
  noted_next (some f) next h k = k f

  value_of_skipped :
      (doc : Bytes) (pos typ : ℕ) (name : Bytes) (found : F) (next : ℕ → F → Option F)
      (o : Option Skipped)
      → Skips pos o
      → skip_bson_value doc pos typ ≡ o
      → ((e : ℕ) (f : F) → pos ≤ e → Returns (next e f))
      → Returns (bson_value note doc pos typ name found o next)
  unfolding bson_value
  value_of_skipped doc pos typ name found next none k q h = absurd k
  value_of_skipped doc pos typ name found next (some short) k q h = (found, refl)
  value_of_skipped doc pos typ name found next (some (ends_at e)) k q h =
      noted_next (note doc pos typ name found) (next e) (noted doc pos typ name found e q)
        (λ f. h e f k)

  value-Returns :
      (doc : Bytes) (pos typ : ℕ) (name : Bytes) (found : F) (next : ℕ → F → Option F)
      → ((e : ℕ) (f : F) → pos ≤ e → Returns (next e f))
      → Returns (bson_value note doc pos typ name found (skip_bson_value doc pos typ) next)
  value-Returns doc pos typ name found next h =
      value_of_skipped doc pos typ name found next (skip_bson_value doc pos typ)
        (skip_bson_value-Skips doc pos typ) refl h

  named-Returns :
      (doc : Bytes) (pos typ : ℕ) (found : F) (o : Option Bytes) (next : ℕ → F → Option F)
      → Returns o
      → ((e : ℕ) (f : F) → pos ≤ e → Returns (next e f))
      → Returns (bson_named note doc pos typ found o next)
  unfolding bson_named
  named-Returns doc pos typ found none next h k = absurd cc
  named-Returns doc pos typ found (some name) next h k = value-Returns doc pos typ name found next k

  element-Returns :
      (doc : Bytes) (total pos : ℕ) (found : F) (o : Option ℕ) (next : ℕ → F → Option F)
      → Returns o
      → pos + 1 < total
      → total ≤ length doc
      → ((e : ℕ) (f : F) → pos + 2 ≤ e → Returns (next e f))
      → Returns (bson_element note doc total pos found o next)
  unfolding bson_element
  element-Returns doc total pos found none next h k l r = absurd cc
  element-Returns doc total pos found (some typ) next h k l r =
      if_Returns _ _ _ (λ e. (found, refl))
        (λ e.
          named-Returns doc (name_end doc (pos + 1) total + 1) typ found
            (slice (pos + 1) (name_end doc (pos + 1) total) doc) next
            (
              _,
              slice_in (pos + 1) (name_end doc (pos + 1) total) doc (omega arith)
                  (omega (arith, name_end_le doc (pos + 1) total)),
            )
            (λ e f b. r e f (omega arith)))

  inside : (pos total : ℕ) → ltb pos (total - 1) ≡ true → pos + 1 < total
  inside pos total h = ground arith

  left_over : (f pos total : ℕ) → ltb pos (total - 1) ≡ true → total ≤ suc f + pos → 0 < f
  left_over f pos total h k = ground arith

  elements-Returns :
      (f : ℕ) (doc : Bytes) (total pos : ℕ) (found : F)
      → 0 < f
      → total ≤ f + pos
      → total ≤ length doc
      → Returns (bson_elements note f doc total pos found)
  unfolding bson_elements
  elements-Returns zero doc total pos found h k l = absurd (omega arith)
  elements-Returns (suc f) doc total pos found h k l = elim (Bool-cases (ltb pos (total - 1))) [
    | inl b ↦ rw b (
        element-Returns doc total pos found (get_elem? doc pos)
          (λ e g. bson_elements note f doc total e g)
          (get-Returns doc pos (omega (arith, inside pos total b))) (inside pos total b) l
          (λ e g q. elements-Returns f doc total e g (left_over f pos total b k) (omega arith) l))
    | inr b ↦ rw b (found, refl)
  ]

  sized-Returns :
      (doc : Bytes) (found : F) (o : Option ℕ) → Returns o → Returns (bson_sized note doc found o)
  unfolding bson_sized
  sized-Returns doc found none h = absurd cc
  sized-Returns doc found (some total) h =
      if_Returns _ _ _ (λ e. (found, refl))
        (λ e.
          elements-Returns (suc total) doc total 4 found (omega arith) (omega arith) (ground arith))

  pub bson_document-Returns : (doc : Bytes) (found : F) → Returns (bson_document note doc found)
  unfolding bson_document
  bson_document-Returns doc found =
      if_Returns _ _ _ (λ e. (found, refl))
        (λ e. sized-Returns doc found (le32_at 0 doc) (le32_at-Returns 0 doc (ground arith)))
