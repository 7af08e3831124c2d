-- ===== src/Honeypot/Lines.antt =====
-- internal/honeypot/telnet.go: readLine. A bufio.Reader gives lines in segments of 4096 bytes; a line of
-- 16 such segments is cut there.
pub mod Bounded
pub mod Printed
use vps_safe_dashboard.Prelude.{
  ℕ, zero, suc, Bool, true, false, ◌||◌, List, [], ◌∷◌, Bytes, Option, none, some, ◌==◌, take,
  if◌then◌else◌,
}

abbrev pub max_line_len : ℕ
max_line_len = 65536

abbrev pub on_line : ℕ → Bytes × Bytes → Bytes × Bytes
on_line c (line, rest) = (c ∷ line, rest)

-- The bytes up to the first line feed, that included, but at most `n`; and what follows.
unfoldable pub read_segments : ℕ → Bytes → Bytes × Bytes
read_segments zero s = ([], s)
read_segments (suc n) [] = ([], [])
read_segments (suc n) (c ∷ s) =
    let later = read_segments n s in if c == b'\n' then (c ∷ [], s) else on_line c later

abbrev pub is_line_end : ℕ → Bool
is_line_end c = c == b'\r' || c == b'\n'

abbrev pub drop_end : ℕ → Bytes → Bytes
drop_end c [] = if is_line_end c then [] else c ∷ []
drop_end c (d ∷ s) = c ∷ d ∷ s

-- strings.TrimRight(s, "\r\n")
unfoldable pub trim_line_end : Bytes → Bytes
trim_line_end [] = []
trim_line_end (c ∷ s) = drop_end c (trim_line_end s)

-- Without sequences of three bytes that begin with 0xFF; the first `k` bytes are of one.
unfoldable pub strip_iac : ℕ → Bytes → Bytes
strip_iac k [] = []
strip_iac zero (c ∷ s) =
    let kept = strip_iac 0 s in
    let dropped = strip_iac 2 s in if c == 0xFF then dropped else c ∷ kept
strip_iac (suc k) (c ∷ s) = strip_iac k s

abbrev pub clean_line : Bytes → Bytes
clean_line line = take 4096 (strip_iac 0 (trim_line_end line))

-- A line and what follows it; an error where nothing is left.
unfoldable pub read_line : Bytes → Option (Bytes × Bytes)
read_line [] = none
read_line (c ∷ s) =
    let (line, rest) = read_segments max_line_len (c ∷ s) in some (clean_line line, rest)
