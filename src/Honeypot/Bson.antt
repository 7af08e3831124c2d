-- ===== src/Honeypot/Bson.antt =====
-- internal/honeypot/mongodb.go: skipBSONValue, and the loop over the elements of a document, which
-- parseMongoCommand and parseScramPayload both have. Positions are into the document. `none` is a panic,
-- or fuel that was too short.
pub mod Total
use vps_safe_dashboard.Prelude.{
  ℕ, zero, suc, ◌+◌, ◌-◌, Bool, true, false, ◌||◌, [], ◌∷◌, Bytes, Option, none, some, ltb, leb,
  ◌==◌, if◌then◌else◌, length, get_elem?, take, drop,
}
use vps_safe_dashboard.Honeypot.Wire.{le32, slice}

-- Where a value ends, or that there are too few bytes.
pub data Skipped : Type 0 where
  short : Skipped
  ends_at : ℕ → Skipped

-- How many bytes stand before the first zero.
unfoldable pub first_zero : Bytes → ℕ
first_zero [] = 0
first_zero (b ∷ s) = let later = first_zero s in if b == 0 then 0 else suc later

-- The first zero from a position on and before a limit, or the limit.
abbrev pub name_end : Bytes → ℕ → ℕ → ℕ
name_end doc from limit = from + first_zero (take (limit - from) (drop from doc))

-- binary.LittleEndian.Uint32(doc[pos : pos+4])
abbrev pub le32_of : Option Bytes → Option ℕ
le32_of none = none
le32_of (some b) = le32 b

unfoldable pub le32_at : ℕ → Bytes → Option ℕ
le32_at pos doc = le32_of (slice pos (pos + 4) doc)

-- A value with its size in front: `head` bytes before what is counted, and at least `least` of them.
abbrev pub counted : ℕ → ℕ → ℕ → Bytes → Option ℕ → Option Skipped
counted head least pos doc none = none
counted head least pos doc (some n) =
    if ltb (length doc) (pos + head + n) || ltb n least
    then some short
    else some (ends_at (pos + head + n))

unfoldable pub skip_counted : ℕ → ℕ → ℕ → ℕ → Bytes → Option Skipped
skip_counted needs head least pos doc =
    if ltb (length doc) (pos + needs)
    then some short
    else counted head least pos doc (le32_at pos doc)

-- Two strings that end in zero.
unfoldable pub skip_regex : ℕ → Bytes → ℕ
skip_regex pos doc =
    let second : ℕ = name_end doc pos (length doc) + 1 in name_end doc second (length doc) + 1

unfoldable pub skip_bson_value : Bytes → ℕ → ℕ → Option Skipped
skip_bson_value doc pos typ =
    if leb (length doc) pos
    then some short
    else if typ == 0x01
    then some (ends_at (pos + 8))
    else if typ == 0x02
    then skip_counted 4 4 1 pos doc
    else if typ == 0x03 || typ == 0x04
    then skip_counted 4 0 4 pos doc
    else if typ == 0x05
    then skip_counted 5 5 0 pos doc
    else if typ == 0x08
    then some (ends_at (pos + 1))
    else if typ == 0x09
    then some (ends_at (pos + 8))
    else if typ == 0x0A
    then some (ends_at pos)
    else if typ == 0x0B
    then some (ends_at (skip_regex pos doc))
    else if typ == 0x10
    then some (ends_at (pos + 4))
    else if typ == 0x11
    then some (ends_at (pos + 8))
    else if typ == 0x12
    then some (ends_at (pos + 8))
    else if typ == 0x13
    then some (ends_at (pos + 16))
    else if typ == 0x0D
    then skip_counted 4 4 1 pos doc
    else some short

module _ {ℓ} {F : Type ℓ} (note : Bytes → ℕ → ℕ → Bytes → F → Option F) where
  -- One element, whose type and name are read; `next` is the loop from the end of its value.
  unfoldable pub bson_value :
      Bytes → ℕ → ℕ → Bytes → F → Option Skipped → (ℕ → F → Option F) → Option F
  bson_value doc pos typ name found none next = none
  bson_value doc pos typ name found (some short) next = some found
  bson_value doc pos typ name found (some (ends_at end)) next = elim (note doc pos typ name found) [
    | none ↦ none
    | some found' ↦ next end found'
  ]

  unfoldable pub bson_named : Bytes → ℕ → ℕ → F → Option Bytes → (ℕ → F → Option F) → Option F
  bson_named doc pos typ found none next = none
  bson_named doc pos typ found (some name) next =
      bson_value doc pos typ name found (skip_bson_value doc pos typ) next

  unfoldable pub bson_element : Bytes → ℕ → ℕ → F → Option ℕ → (ℕ → F → Option F) → Option F
  bson_element doc total pos found none next = none
  bson_element doc total pos found (some typ) next =
      let end : ℕ = name_end doc (pos + 1) total in
      if leb total end
      then some found
      else bson_named doc (end + 1) typ found (slice (pos + 1) end doc) next

  -- Each element has two bytes at least, so fuel above the size is enough.
  unfoldable pub bson_elements : ℕ → Bytes → ℕ → ℕ → F → Option F
  bson_elements zero doc total pos found = none
  bson_elements (suc f) doc total pos found =
      if ltb pos (total - 1)
      then bson_element doc total pos found (get_elem? doc pos)
          (λ end found'. bson_elements f doc total end found')
      else some found

  -- A document, whose size is in front.
  unfoldable pub bson_sized : Bytes → F → Option ℕ → Option F
  bson_sized doc found none = none
  bson_sized doc found (some total) =
      if ltb total 4 || ltb (length doc) total
      then some found
      else bson_elements (suc total) doc total 4 found

  unfoldable pub bson_document : Bytes → F → Option F
  bson_document doc found =
      if ltb (length doc) 4 then some found else bson_sized doc found (le32_at 0 doc)
