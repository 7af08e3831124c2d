-- ===== src/Honeypot/Wire.antt =====
-- encoding/binary and encoding/hex, as the protocol handlers use it: unsigned integers of fixed size, in bytes.
pub mod RoundTrip
pub mod Slices
use vps_safe_dashboard.Prelude.{
  ℕ, zero, suc, ◌+◌, ◌-◌, ◌*◌, ◌/◌, ◌%◌, ◌&&◌, [], ◌∷◌, Bytes, Option, none, some, leb, ltb,
  if◌then◌else◌, length, take, drop,
}

-- binary.BigEndian.Uint16 and Uint32; fewer bytes are a panic, `none`. More are passed over.
unfoldable pub be16 : Bytes → Option ℕ
be16 (a ∷ b ∷ s) = some (a * 256 + b)
be16 _ = none

unfoldable pub be32 : Bytes → Option ℕ
be32 (a ∷ b ∷ c ∷ d ∷ s) = some (((a * 256 + b) * 256 + c) * 256 + d)
be32 _ = none

unfoldable pub le16 : Bytes → Option ℕ
le16 (a ∷ b ∷ s) = some (b * 256 + a)
le16 _ = none

unfoldable pub le32 : Bytes → Option ℕ
le32 (a ∷ b ∷ c ∷ d ∷ s) = some (((d * 256 + c) * 256 + b) * 256 + a)
le32 _ = none

abbrev pub put_be16 : ℕ → Bytes
put_be16 n = (n / 256 % 256) ∷ (n % 256) ∷ []

abbrev pub put_be32 : ℕ → Bytes
put_be32 n = (n / 16777216 % 256) ∷ (n / 65536 % 256) ∷ (n / 256 % 256) ∷ (n % 256) ∷ []

abbrev pub put_le16 : ℕ → Bytes
put_le16 n = (n % 256) ∷ (n / 256 % 256) ∷ []

abbrev pub put_le32 : ℕ → Bytes
put_le32 n = (n % 256) ∷ (n / 256 % 256) ∷ (n / 65536 % 256) ∷ (n / 16777216 % 256) ∷ []

-- b[lo:hi]; out of range is a panic.
unfoldable pub slice : ℕ → ℕ → Bytes → Option Bytes
slice lo hi b = if leb lo hi && leb hi (length b) then some (take (hi - lo) (drop lo b)) else none

abbrev hex_digit : ℕ → ℕ
hex_digit d = if ltb d 10 then b'0' + d else b'a' + (d - 10)

unfoldable pub hex : Bytes → Bytes
hex [] = []
hex (b ∷ s) = hex_digit (b / 16) ∷ hex_digit (b % 16) ∷ hex s

abbrev pub zeros : ℕ → Bytes
zeros zero = []
zeros (suc n) = 0 ∷ zeros n
