-- ===== src/Honeypot/Mssql/Total.antt =====
-- LOGIN7 is read without a panic.
use vps_safe_dashboard.Prelude.{
  ℕ, zero, suc, ◌+◌, ◌-◌, ◌*◌, ◌≤◌, ◌≡◌, refl, false, ◌||◌, [], ◌∷◌, Bytes, Option, none, some, ltb,
  ◌==◌, Bool-cases, inl, inr, length, take, drop, arith,
}
use vps_safe_dashboard.Honeypot.Wire.Slices.{Returns, slice_in, length-slice, be16-Returns}
use vps_safe_dashboard.Honeypot.Utf16.Total.{utf16le_to_string-Returns}
use vps_safe_dashboard.Honeypot.Mssql.{
  login7_value, login7_field, number_at, login7_fields, accepted, parse_login7,
}

login7_value-Returns :
    (i : ℕ) (val : Bytes) (found : Bytes × Bytes) → Returns (login7_value i val found)
unfolding login7_value
login7_value-Returns zero val (user, obf) = (_, refl)
login7_value-Returns (suc zero) val (user, obf) =
    let (u, e) = utf16le_to_string-Returns val 0 (length val) in rw (login7_value, e) (_, refl)
login7_value-Returns (suc (suc zero)) val (user, obf) = (_, refl)
login7_value-Returns (suc (suc (suc i))) val (user, obf) = (_, refl)

number_at-Returns : (lo : ℕ) (login : Bytes) → lo + 2 ≤ length login → Returns (number_at lo login)
unfolding number_at
number_at-Returns lo login h =
    let len : length (take (lo + 2 - lo) (drop lo login)) ≡ lo + 2 - lo =
      length-slice lo (lo + 2) login (omega arith) h in
    rw (number_at, slice_in lo (lo + 2) login (omega arith) h)
      (be16-Returns (take (lo + 2 - lo) (drop lo login)) (omega (arith, len)))

login7_field-Returns :
    (login : Bytes) (i : ℕ) (off ln : Option ℕ) (found : Bytes × Bytes)
    → Returns off
    → Returns ln
    → Returns (login7_field login i off ln found)
unfolding login7_field
login7_field-Returns login i none ln found h k = absurd cc
login7_field-Returns login i (some off) none found h k = absurd cc
login7_field-Returns login i (some off) (some ln) found h k =
    elim (Bool-cases (ln == 0 || ltb (length login) (off + ln))) [
      | inl b ↦ rw b (found, refl)
      | inr b ↦
          rw (b, slice_in off (off + ln) login (omega arith) (fits off ln (length login) b))
            (login7_value-Returns i (take (off + ln - off) (drop off login)) found)
    ]
  where
    fits : (off ln n : ℕ) → (ln == 0 || ltb n (off + ln)) ≡ false → off + ln ≤ n
    fits off ln n h = ground arith

login7_fields-Returns :
    (k : ℕ) (login : Bytes) (found : Bytes × Bytes) → Returns (login7_fields k login found)
unfolding login7_fields
login7_fields-Returns zero login found = (found, refl)
login7_fields-Returns (suc k) login found =
    let base : ℕ = 36 + (5 - suc k) * 4 in
    elim (Bool-cases (ltb (length login) (base + 4))) [
      | inl b ↦ rw b (found, refl)
      | inr b ↦
          let fits : base + 4 ≤ length login = ground arith in
          let (found', e) =
            login7_field-Returns login (5 - suc k) (number_at base login)
              (number_at (base + 2) login) found (number_at-Returns base login (omega arith))
              (number_at-Returns (base + 2) login (omega arith)) in
          rw (b, e) (login7_fields-Returns k login found')
    ]

accepted-Returns : (o : Option (Bytes × Bytes)) → Returns o → Returns (accepted o)
accepted-Returns none h = absurd cc
accepted-Returns (some ([], [])) h = (_, refl)
accepted-Returns (some ([], (c ∷ obf))) h = (_, refl)
accepted-Returns (some ((c ∷ user), obf)) h = (_, refl)

pub parse_login7-Returns : (login : Bytes) → Returns (parse_login7 login)
unfolding parse_login7
parse_login7-Returns login = elim (Bool-cases (ltb (length login) 36)) [
  | inl b ↦ rw b (_, refl)
  | inr b ↦ elim (Bool-cases (ltb (length login) (36 + 12))) [
    | inl c ↦ rw (b, c) (_, refl)
    | inr c ↦
        rw (b, c)
          (accepted-Returns (login7_fields 5 login ([], []))
            (login7_fields-Returns 5 login ([], [])))
  ]
]
