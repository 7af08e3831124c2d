-- ===== src/Honeypot/Mongodb/Total.antt =====
-- A command is read to its end, and no access to its document is out of range.
use vps_safe_dashboard.Prelude.{
  ℕ, ◌+◌, ◌-◌, ◌≤◌, ◌≡◌, refl, ap, sym, ◌∙◌, true, ◌&&◌, ◌||◌, [], Bytes, Option, none, some, leb,
  ◌==◌, ==_iff, Bool-cases, inl, inr, if◌then◌else◌, length, list_beq, nat_eq, codes, get_elem?,
  arith,
}
use vps_safe_dashboard.Honeypot.Wire.{slice}
use vps_safe_dashboard.Honeypot.Wire.Slices.{Returns, slice_in}
use vps_safe_dashboard.Honeypot.Bson.{ends_at, le32_at, skip_counted, skip_bson_value}
use vps_safe_dashboard.Honeypot.Bson.Total.{le32_at-Returns, get-Returns, bson_document-Returns}
use vps_safe_dashboard.Honeypot.Mongodb.{
  note_string, note_sized, note_scram, parse_scram_payload, Sasl, note_payload, note_slice,
  note_binary, note_command, no_sasl, parse_mongo_command,
}

string_fits :
    (doc : Bytes) (pos e : ℕ) → skip_bson_value doc pos 2 ≡ some (ends_at e) → pos + 4 ≤ length doc
unfolding skip_bson_value skip_counted
string_fits doc pos e h = ground arith

note_string-Returns :
    (name val : Bytes) (found : Bytes × Bytes) → Returns (note_string name (some val) found)
unfolding note_string
note_string-Returns name val (user, rnonce) =
    elim (Bool-cases (list_beq nat_eq name (codes "user"))) [
      | inl b ↦ rw b ((val, rnonce), refl)
      | inr b ↦ elim (Bool-cases (list_beq nat_eq name (codes "rnonce"))) [
        | inl c ↦ rw (b, c) ((user, val), refl)
        | inr c ↦ rw (b, c) ((user, rnonce), refl)
      ]
    ]

within : (pos n len : ℕ) → (leb 1 n && leb (pos + 4 + n) len) ≡ true → (1 ≤ n) × (pos + 4 + n ≤ len)
within pos n len h = (ground arith, ground arith)

note_sized-Returns :
    (doc : Bytes) (pos : ℕ) (name : Bytes) (o : Option ℕ) (found : Bytes × Bytes)
    → Returns o
    → Returns (note_sized doc pos name o found)
unfolding note_sized
note_sized-Returns doc pos name none found h = absurd cc
note_sized-Returns doc pos name (some n) found h =
    elim (Bool-cases (leb 1 n && leb (pos + 4 + n) (length doc))) [
      | inl b ↦
          let (one, fits) = within pos n (length doc) b in
          rw (b, slice_in (pos + 4) (pos + 4 + n - 1) doc (omega arith) (omega arith))
            (note_string-Returns name _ found)
      | inr b ↦ rw b (found, refl)
    ]

note_scram-Returns :
    (doc : Bytes) (pos typ : ℕ) (name : Bytes) (found : Bytes × Bytes) (e : ℕ)
    → skip_bson_value doc pos typ ≡ some (ends_at e)
    → Returns (note_scram doc pos typ name found)
unfolding note_scram
note_scram-Returns doc pos typ name found e h = elim (Bool-cases (typ == 2)) [
  | inl b ↦
      let fits : pos + 4 ≤ length doc =
        string_fits doc pos e (ap (skip_bson_value doc pos) (sym ((==_iff typ 2).0 b)) ∙ h) in
      rw b (note_sized-Returns doc pos name (le32_at pos doc) found (le32_at-Returns pos doc fits))
  | inr b ↦ rw b (found, refl)
]

pub parse_scram_payload-Returns : (doc : Bytes) → Returns (parse_scram_payload doc)
unfolding parse_scram_payload
parse_scram_payload-Returns doc = bson_document-Returns note_scram note_scram-Returns doc ([], [])

note_payload-Returns :
    (o : Option (Bytes × Bytes)) (found : Sasl) → Returns o → Returns (note_payload o found)
unfolding note_payload
note_payload-Returns none found h = absurd cc
note_payload-Returns (some (user, rnonce)) found h = (_, refl)

note_slice-Returns : (o : Option Bytes) (found : Sasl) → Returns o → Returns (note_slice o found)
unfolding note_slice
note_slice-Returns none found h = absurd cc
note_slice-Returns (some b) found h =
    note_payload-Returns (parse_scram_payload b) found (parse_scram_payload-Returns b)

note_binary-Returns :
    (doc : Bytes) (pos : ℕ) (o o' : Option ℕ) (found : Sasl)
    → Returns o
    → Returns o'
    → Returns (note_binary doc pos o o' found)
unfolding note_binary
note_binary-Returns doc pos none o' found h k = absurd cc
note_binary-Returns doc pos (some n) none found h k = absurd cc
note_binary-Returns doc pos (some n) (some sub) found h k =
    elim (Bool-cases (sub == 0 && leb (pos + 5 + n) (length doc))) [
      | inl b ↦ rw b (
          note_slice-Returns (slice (pos + 5) (pos + 5 + n) doc) found
            (_, slice_in (pos + 5) (pos + 5 + n) doc (omega arith) (fits pos n sub (length doc) b)))
      | inr b ↦ rw b (found, refl)
    ]
  where
    fits : (pos n sub len : ℕ) → (sub == 0 && leb (pos + 5 + n) len) ≡ true → pos + 5 + n ≤ len
    fits pos n sub len h = ground arith

command_binary :
    (doc : Bytes) (pos : ℕ) (found : Sasl)
    → Returns (
        if leb (pos + 5) (length doc)
        then note_binary doc pos (le32_at pos doc) (get_elem? doc (pos + 4)) found
        else some found)
command_binary doc pos found = elim (Bool-cases (leb (pos + 5) (length doc))) [
  | inl b ↦ rw b (
      note_binary-Returns doc pos (le32_at pos doc) (get_elem? doc (pos + 4)) found
        (le32_at-Returns pos doc (ground arith)) (get-Returns doc (pos + 4) (ground arith)))
  | inr b ↦ rw b (found, refl)
]

note_command-Returns :
    (doc : Bytes) (pos typ : ℕ) (name : Bytes) (found : Sasl) (e : ℕ)
    → skip_bson_value doc pos typ ≡ some (ends_at e)
    → Returns (note_command doc pos typ name found)
unfolding note_command
note_command-Returns doc pos typ name found e h =
    elim (Bool-cases
      (list_beq nat_eq name (codes "saslStart") || list_beq nat_eq name (codes "saslContinue"))) [
        | inl b ↦ elim (Bool-cases (typ == 0x10)) [
          | inl c ↦ rw (b, c) (_, refl)
          | inr c ↦ rw (b, c) (found, refl)
        ]
        | inr b ↦ elim (Bool-cases (list_beq nat_eq name (codes "payload") && typ == 0x05)) [
          | inl c ↦ rw (b, c) (command_binary doc pos found)
          | inr c ↦ rw (b, c) (found, refl)
        ]
      ]

-- Whatever the document is, reading the command reaches an end and no index is out of range.
pub parse_mongo_command-Returns : (doc : Bytes) → Returns (parse_mongo_command doc)
unfolding parse_mongo_command
parse_mongo_command-Returns doc =
    bson_document-Returns note_command note_command-Returns doc no_sasl
