-- ===== src/Honeypot/Wire/RoundTrip.antt =====
-- What is put is read back, if it fits.
use vps_safe_dashboard.Prelude.{ℕ, ◌<◌, ◌≡◌, ap, ◌++◌, Bytes, some, arith}
use vps_safe_dashboard.Honeypot.Wire.{
  be16, be32, le16, le32, put_be16, put_be32, put_le16, put_le32,
}

pub be16-put_be16 : (n : ℕ) (s : Bytes) → n < 65536 → be16 (put_be16 n ++ s) ≡ some n
unfolding be16
be16-put_be16 n s h = ap (λ (k : ℕ). some k) (omega arith)

pub be32-put_be32 : (n : ℕ) (s : Bytes) → n < 4294967296 → be32 (put_be32 n ++ s) ≡ some n
unfolding be32
be32-put_be32 n s h = ap (λ (k : ℕ). some k) (omega arith)

pub le16-put_le16 : (n : ℕ) (s : Bytes) → n < 65536 → le16 (put_le16 n ++ s) ≡ some n
unfolding le16
le16-put_le16 n s h = ap (λ (k : ℕ). some k) (omega arith)

pub le32-put_le32 : (n : ℕ) (s : Bytes) → n < 4294967296 → le32 (put_le32 n ++ s) ≡ some n
unfolding le32
le32-put_le32 n s h = ap (λ (k : ℕ). some k) (omega arith)
