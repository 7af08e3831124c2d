-- ===== src/Honeypot/Redis/RoundTrip.antt =====
-- A command that a client sends as an array is read.
use vps_safe_dashboard.Prelude.{
  ℕ, ◌+◌, ◌≤◌, ◌≡◌, refl, ap, ◌∙◌, sym, false, List, [], ◌∷◌, ◌++◌, Bytes, some, ◌==◌, ◌||◌, ltb,
  length, length-append, All, arith,
}
use vps_safe_dashboard.Text.{itoa}
use vps_safe_dashboard.Text.Decimal.{atoi-itoa}
use vps_safe_dashboard.Text.Spaces.{upper}
use vps_safe_dashboard.Honeypot.Session.{read_full, crlf}
use vps_safe_dashboard.Honeypot.Session.Reads.{read_full-append, take-append}
use vps_safe_dashboard.Honeypot.Lines.Printed.{read_line-itoa}
use vps_safe_dashboard.Honeypot.Redis.{
  read_resp_int, bulk_of, read_resp_bulk, read_bulks, read_resp_command,
}

-- $n, the bytes, and the end of the line
abbrev pub print_bulk : Bytes → Bytes → Bytes
print_bulk x rest = b'$' ∷ (itoa (length x) ++ crlf ++ (x ++ crlf ++ rest))

abbrev pub print_bulks : List Bytes → Bytes → Bytes
print_bulks [] rest = rest
print_bulks (x ∷ xs) rest = print_bulk x (print_bulks xs rest)

-- *n, and the elements
abbrev pub print_command : List Bytes → Bytes → Bytes
print_command xs rest = b'*' ∷ (itoa (length xs) ++ crlf ++ print_bulks xs rest)

read_int-print :
    (n : ℕ) (rest : Bytes) → n ≤ 65536 → read_resp_int (itoa n ++ crlf ++ rest) ≡ some (n, rest)
unfolding read_resp_int
read_int-print n rest h =
    let small : ltb 65536 n ≡ false = ground arith in
    rw (read_resp_int, read_line-itoa n rest (omega arith), atoi-itoa n (omega arith), small) refl

read_bulk-print :
    (x rest : Bytes) → length x ≤ 65536 → read_resp_bulk (print_bulk x rest) ≡ some (x, rest)
unfolding read_resp_bulk
read_bulk-print x rest h =
    let sized : length (x ++ crlf) ≡ length x + 2 = length-append x crlf in
    rw (read_int-print (length x) (x ++ crlf ++ rest) h) (
      ap (λ (n : ℕ). bulk_of (length x) (read_full n ((x ++ crlf) ++ rest))) (sym sized)
      ∙ ap (bulk_of (length x)) (read_full-append (x ++ crlf) rest)
      ∙ ap (λ (s : Bytes). some (s, rest)) (take-append x crlf))

abbrev pub IsBulk : Bytes → Type 0
IsBulk x = length x ≤ 65536

read_bulks-print :
    (xs : List Bytes) (rest : Bytes)
    → All IsBulk xs
    → read_bulks (length xs) (print_bulks xs rest) ≡ some (xs, rest)
unfolding read_bulks
read_bulks-print [] rest h = refl
read_bulks-print (x ∷ xs) rest h =
    rw (read_bulks, read_bulk-print x (print_bulks xs rest) h.0, read_bulks-print xs rest h.1) refl

-- A command of up to 64 parts, each of at most 65536 bytes, that a client sends as an array of bulk
-- strings is read whole, with its name in upper case, and what follows is left.
pub read_resp_command-print :
    (x : Bytes) (xs : List Bytes) (rest : Bytes)
    → length (x ∷ xs) ≤ 64
    → All IsBulk (x ∷ xs)
    → read_resp_command (print_command (x ∷ xs) rest) ≡ some ((upper x, xs), rest)
unfolding read_resp_command
read_resp_command-print x xs rest h all =
    let some_parts : (length (x ∷ xs) == 0 || ltb 64 (length (x ∷ xs))) ≡ false = ground arith in
    rw
      (
        read_int-print (length (x ∷ xs)) (print_bulks (x ∷ xs) rest) (omega arith),
        some_parts,
        read_bulks-print (x ∷ xs) rest all,
      )
      refl
