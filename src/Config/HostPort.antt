-- ===== src/Config/HostPort.antt =====
-- net.SplitHostPort of the standard library, of which internal/config uses the port.
use vps_safe_dashboard.Prelude.{
  ℕ, Bool, ◌&&◌, ◌||◌, not, [], ◌∷◌, ◌++◌, Bytes, Option, none, some, ◌==◌, any, if◌then◌else◌,
}

abbrev has_byte : ℕ → Bytes → Bool
has_byte b s = any (λ c. c == b) s

-- The part before the first `b` and the part behind it.
unfoldable pub cut : ℕ → Bytes → Option (Bytes × Bytes)
cut b [] = none
cut b (c ∷ s) =
    let rest = cut b s in
    if c == b then some ([], s) else elim rest [ none ↦ none | some (x, y) ↦ some (c ∷ x, y) ]

-- The part before the last `b` and the part behind it.
unfoldable pub cut_last : ℕ → Bytes → Option (Bytes × Bytes)
cut_last b [] = none
cut_last b (c ∷ s) = elim (cut_last b s) [
  | some (x, y) ↦ some (c ∷ x, y)
  | none ↦ if c == b then some ([], s) else none
]

-- No bracket is left in a part where none may be.
abbrev no_brackets : Bytes → Bytes → Bool
no_brackets opens closes = not (has_byte b'[' opens) && not (has_byte b']' closes)

-- `[host]:port`, with what follows the first bracket.
unfoldable pub bracketed_port : Bytes → Option Bytes
unfolding cut
bracketed_port s = elim (cut b']' s) [
  | none ↦ none
  | some (host, []) ↦ none
  | some (host, c ∷ port) ↦
      if c == b':' && not (has_byte b':' port) && no_brackets (host ++ b']' ∷ c ∷ port) port
      then some port
      else none
]

unfoldable pub plain_port : Bytes → Option Bytes
unfolding cut_last
plain_port s = elim (cut_last b':' s) [
  | none ↦ none
  | some (host, port) ↦ if has_byte b':' host || not (no_brackets s s) then none else some port
]

-- The port, or `none` for any of the errors.
unfoldable pub split_host_port : Bytes → Option Bytes
unfolding bracketed_port plain_port
split_host_port [] = none
split_host_port (c ∷ s) = if c == b'[' then bracketed_port s else plain_port (c ∷ s)
