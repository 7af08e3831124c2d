-- ===== src/Honeypot/Mssql/Fields.antt =====
-- What the fields of a LOGIN7 message give, each from the bytes that it names.
use vps_safe_dashboard.Prelude.{
  ℕ, suc, ◌+◌, ◌-◌, ◌*◌, ◌≤◌, ◌<◌, ◌≡◌, ◌≢◌, refl, ap, ◌∙◌, sym, false, ◌||◌, [], ◌∷◌, ◌++◌, Bytes,
  Option, none, some, ltb, ◌==◌, if◌then◌else◌, length, length-append, take, drop, All, arith,
}
use mathlib.Core.List.{append-nil}
use vps_safe_dashboard.Honeypot.Wire.{be16}
use vps_safe_dashboard.Honeypot.Wire.Slices.{slice_in, slice-append}
use vps_safe_dashboard.Honeypot.Utf16.{utf16le_to_string}
use vps_safe_dashboard.Honeypot.Utf16.Ascii.{
  utf16le, length-utf16le, utf16le_to_string-utf16le, IsAscii,
}
use vps_safe_dashboard.Honeypot.Mssql.Obfuscation.{not_empty}
use vps_safe_dashboard.Honeypot.Mssql.{login7_value, login7_field, number_at, login7_fields}

drop-add : (x t : Bytes) (k : ℕ) → drop (length x + k) (x ++ t) ≡ drop k t
drop-add [] t k = let e : 0 + k ≡ k = omega arith in ap (λ n. drop n t) e
drop-add (c ∷ x) t k =
    let e : suc (length x) + k ≡ suc (length x + k) = omega arith in
    ap (λ n. drop n (c ∷ x ++ t)) e ∙ drop-add x t k

-- The numbers of the table, which stands behind 36 bytes.
pub number_at-table :
    (fixed t : Bytes) (k : ℕ)
    → length fixed ≡ 36
    → k + 2 ≤ length t
    → number_at (36 + k) (fixed ++ t) ≡ be16 (take 2 (drop k t))
unfolding number_at
number_at-table fixed t k e h =
    let two : 36 + k + 2 - (36 + k) ≡ 2 = omega arith in
    let len : 36 + k ≡ length fixed + k = omega arith in
    ap (λ o. elim o [ none ↦ none | some b ↦ be16 b ])
      (slice_in (36 + k) (36 + k + 2) (fixed ++ t) (omega arith)
        (omega (arith, length-append fixed t)))
    ∙ ap (λ n. be16 (take n (drop (36 + k) (fixed ++ t)))) two
    ∙ ap (λ n. be16 (take 2 (drop n (fixed ++ t)))) len
    ∙ ap (λ u. be16 (take 2 u)) (drop-add fixed t k)

-- What each of the fields gives.
pub skipped :
    (d : Bytes) (i off : ℕ) (found : Bytes × Bytes)
    → login7_field d i (some off) (some 0) found ≡ some found
unfolding login7_field
skipped d i off found = refl

pub host_value :
    (d : Bytes) (off ln : ℕ) (found : Bytes × Bytes)
    → off + ln ≤ length d
    → login7_field d 0 (some off) (some ln) found ≡ some found
unfolding login7_field login7_value
host_value d off ln found h = rw (slice_in off (off + ln) d (omega arith) h) (ground arith)

value_of :
    (x y z : Bytes) (i : ℕ) (found : Bytes × Bytes)
    → 0 < length y
    → login7_field (x ++ y ++ z) i (some (length x)) (some (length y)) found
      ≡ login7_value i y found
unfolding login7_field
value_of x y z i found h = rw (slice-append x y z) (
    taken (length x) (length y) (x ++ y ++ z) (login7_value i y found) found h
      (omega (arith, length-append (x ++ y) z, length-append x y)))
  where
    taken :
        (off ln : ℕ) (d : Bytes) (o : Option (Bytes × Bytes)) (found : Bytes × Bytes)
        → 0 < ln
        → off + ln ≤ length d
        → (if ln == 0 || ltb (length d) (off + ln) then some found else o) ≡ o
    taken off ln d o found h k = ground arith

pub field_step :
    (k : ℕ) (d : Bytes) (off ln : ℕ) (found found' : Bytes × Bytes)
    → 36 + (5 - suc k) * 4 + 4 ≤ length d
    → number_at (36 + (5 - suc k) * 4) d ≡ some off
    → number_at (36 + (5 - suc k) * 4 + 2) d ≡ some ln
    → login7_field d (5 - suc k) (some off) (some ln) found ≡ some found'
    → login7_fields (suc k) d found ≡ login7_fields k d found'
unfolding login7_fields
field_step k d off ln found found' h e e' f =
    let fits : ltb (length d) (36 + (5 - suc k) * 4 + 4) ≡ false = ground arith in
    rw (fits, e, e', f) refl

pub value_at :
    (d x y z : Bytes) (i off : ℕ) (found : Bytes × Bytes)
    → d ≡ x ++ y ++ z
    → off ≡ length x
    → 0 < length y
    → login7_field d i (some off) (some (length y)) found ≡ login7_value i y found
value_at d x y z i off found e e' h =
    ap (λ b. login7_field b i (some off) (some (length y)) found) e
    ∙ ap (λ n. login7_field (x ++ y ++ z) i (some n) (some (length y)) found) e'
    ∙ value_of x y z i found h

pub password_value :
    (d x y z user : Bytes) (off : ℕ)
    → d ≡ x ++ y ++ z
    → off ≡ length x
    → login7_field d 2 (some off) (some (length y)) (user, []) ≡ some (user, y)
unfolding login7_value
password_value d x [] z user off e e' = skipped d 2 off (user, [])
password_value d x (c ∷ y) z user off e e' =
    value_at d x (c ∷ y) z 2 off (user, []) e e' (omega arith)

login7_user : Bytes → Option Bytes → Option (Bytes × Bytes)
login7_user obf o = elim o [ none ↦ none | some u ↦ some (u, obf) ]

pub user_value :
    (d x z user : Bytes) (off : ℕ)
    → d ≡ x ++ utf16le user ++ z
    → off ≡ length x
    → user ≢ []
    → All IsAscii user
    → login7_field d 1 (some off) (some (length (utf16le user))) ([], []) ≡ some (user, [])
unfolding login7_value login7_user
user_value d x z user off e e' h all =
    let read : utf16le_to_string (utf16le user) 0 (length (utf16le user)) ≡ some user =
      ap (λ s. utf16le_to_string s 0 (length (utf16le user))) (sym (append-nil (utf16le user)))
      ∙ ap (utf16le_to_string (utf16le user ++ []) 0) (length-utf16le user)
      ∙ utf16le_to_string-utf16le [] user [] all in
    value_at d x (utf16le user) z 1 off ([], []) e e'
      (omega (arith, length-utf16le user, not_empty user h))
    ∙ ap (login7_user []) read
