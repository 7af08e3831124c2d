-- ===== src/Honeypot/Lines/Bounded.antt =====
-- A line takes a byte of the input at least, and is short.
use vps_safe_dashboard.Prelude.{
  ℕ, zero, suc, ◌≤◌, ◌<◌, ◌≡◌, Bool-cases, inl, inr, [], ◌∷◌, Bytes, some, ◌==◌, length, arith,
}
use vps_safe_dashboard.Honeypot.Lines.{max_line_len, read_segments, read_line}

length-read_segments : (n : ℕ) (s : Bytes) → length (read_segments n s).1 ≤ length s
unfolding read_segments
length-read_segments zero s = omega arith
length-read_segments (suc n) [] = omega arith
length-read_segments (suc n) (c ∷ s) = elim (Bool-cases (c == b'\n')) [
  | inl e ↦ rw e (omega arith)
  | inr e ↦ rw e (omega (arith, length-read_segments n s))
]

segments_shorter :
    (n : ℕ) (c : ℕ) (s : Bytes) → length (read_segments (suc n) (c ∷ s)).1 < length (c ∷ s)
unfolding read_segments
segments_shorter n c s = elim (Bool-cases (c == b'\n')) [
  | inl e ↦ rw e (omega arith)
  | inr e ↦ rw e (omega (arith, length-read_segments n s))
]

pub read_line-shorter :
    (s line rest : Bytes) → read_line s ≡ some (line, rest) → length rest < length s
unfolding read_line
read_line-shorter [] line rest h = absurd cc
read_line-shorter (c ∷ s) line rest h =
    let e : (read_segments max_line_len (c ∷ s)).1 ≡ rest = cc in
    rw (← e) (segments_shorter 65535 c s)
