-- ===== src/Honeypot/Smb/Total.antt =====
-- A message of NTLMSSP is read without a panic, and a response points at its challenge.
use vps_safe_dashboard.Prelude.{
  ℕ, ◌+◌, ◌-◌, ◌≤◌, ◌≡◌, refl, true, ◌&&◌, ◌||◌, not, [], ◌∷◌, ◌++◌, Bytes, Option, none, some, ltb,
  leb, ◌==◌, Bool-cases, inl, inr, length, take, drop, codes, list_beq, nat_eq, arith,
}
use vps_safe_dashboard.Honeypot.Wire.Slices.{Returns, slice_in, length-slice, le16-Returns}
use vps_safe_dashboard.Honeypot.Utf16.Total.{utf16le_to_string-Returns}
use vps_safe_dashboard.Honeypot.Bson.{le32_at}
use vps_safe_dashboard.Honeypot.Bson.Total.{le32_at-Returns}
use vps_safe_dashboard.Honeypot.Smb.{
  le16_at, ntlm_field, nt_response, ntlm_login, ntlm_values, ntlm_message, parse_ntlmssp_auth,
}

pub le16_at-Returns : (pos : ℕ) (b : Bytes) → pos + 2 ≤ length b → Returns (le16_at pos b)
unfolding le16_at
le16_at-Returns pos b h =
    let len : length (take (pos + 2 - pos) (drop pos b)) ≡ pos + 2 - pos =
      length-slice pos (pos + 2) b (omega arith) h in
    rw (le16_at, slice_in pos (pos + 2) b (omega arith) h)
      (le16-Returns (take (pos + 2 - pos) (drop pos b)) (omega (arith, len)))

ntlm_field-Returns : (pos : ℕ) (b : Bytes) → pos + 8 ≤ length b → Returns (ntlm_field pos b)
ntlm_field-Returns pos b h =
    let (off, e) = le32_at-Returns (pos + 4) b (omega arith) in
    let (ln, e') = le16_at-Returns pos b (omega arith) in rw (e, e') (_, refl)

nt_response-Returns : (b : Bytes) (off ln : ℕ) → Returns (nt_response b off ln)
unfolding nt_response
nt_response-Returns b off ln = elim (Bool-cases (ltb 0 ln && leb (off + ln) (length b))) [
  | inl h ↦ rw (h, slice_in off (off + ln) b (omega arith) (fits off ln (length b) h)) (_, refl)
  | inr h ↦ rw h ([], refl)
]
  where
    fits : (off ln n : ℕ) → (ltb 0 ln && leb (off + ln) n) ≡ true → off + ln ≤ n
    fits off ln n h = ground arith

ntlm_login-Returns :
    (user domain resp : Bytes) → Returns (ntlm_login (some user) (some domain) (some resp))
unfolding ntlm_login
ntlm_login-Returns user domain resp =
    elim (Bool-cases (list_beq nat_eq user [] && list_beq nat_eq resp [])) [
      | inl h ↦ rw h (_, refl)
      | inr h ↦ rw h (_, refl)
    ]

ntlm_values-Returns :
    (b : Bytes) (d u n : Option (ℕ × ℕ))
    → Returns d
    → Returns u
    → Returns n
    → Returns (ntlm_values b d u n)
unfolding ntlm_values
ntlm_values-Returns b none u n hd hu hn = absurd cc
ntlm_values-Returns b (some d) none n hd hu hn = absurd cc
ntlm_values-Returns b (some d) (some u) none hd hu hn = absurd cc
ntlm_values-Returns b (some (dom_off, dom_len)) (some (user_off, user_len)) (some (nt_off, nt_len))
      hd hu hn =
    let (user, eu) = utf16le_to_string-Returns b user_off user_len in
    let (domain, ed) = utf16le_to_string-Returns b dom_off dom_len in
    let (resp, er) = nt_response-Returns b nt_off nt_len in
    rw (eu, ed, er) (ntlm_login-Returns user domain resp)

ntlm_message-Returns : (b : Bytes) (o : Option ℕ) → Returns o → Returns (ntlm_message b o)
unfolding ntlm_message
ntlm_message-Returns b none h = absurd cc
ntlm_message-Returns b (some n) h = elim (Bool-cases (not (n == 3))) [
  | inl c ↦ rw c (_, refl)
  | inr c ↦ elim (Bool-cases (ltb (length b) 64)) [
    | inl s ↦ rw (c, s) (_, refl)
    | inr s ↦
        let long : 64 ≤ length b = ground arith in
        rw (c, s)
          (ntlm_values-Returns b (ntlm_field 28 b) (ntlm_field 36 b) (ntlm_field 20 b)
            (ntlm_field-Returns 28 b (omega arith)) (ntlm_field-Returns 36 b (omega arith))
            (ntlm_field-Returns 20 b (omega arith)))
  ]
]

pub parse_ntlmssp_auth-Returns : (b : Bytes) → Returns (parse_ntlmssp_auth b)
unfolding parse_ntlmssp_auth
parse_ntlmssp_auth-Returns b =
    elim (Bool-cases
      (ltb (length b) 12 || not (list_beq nat_eq (take 8 b) (codes "NTLMSSP" ++ 0 ∷ [])))) [
        | inl h ↦ rw h (_, refl)
        | inr h ↦ rw h (ntlm_message-Returns b (le32_at 8 b) (le32_at-Returns 8 b (ground arith)))
      ]
