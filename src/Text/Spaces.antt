-- ===== src/Text/Spaces.antt =====
-- Go's strings.Fields and strings.TrimSpace, strings.Index, and what strings.ToUpper is used for.
use vps_safe_dashboard.Prelude.{
  ℕ, zero, suc, ◌-◌, Bool, false, ◌||◌, List, [], ◌∷◌, Bytes, Option, none, some, ◌==◌,
  if◌then◌else◌, map,
}
use vps_safe_dashboard.Utf8.{decode_rune, runes, within}
use vps_safe_dashboard.Text.{to_upper}

-- unicode.IsSpace
abbrev pub is_space_rune : ℕ → Bool
is_space_rune r =
    within 9 13 r
    || r == 32
    || r == 0x85
    || r == 0xA0
    || r == 0x1680
    || within 0x2000 0x200A r
    || r == 0x2028
    || r == 0x2029
    || r == 0x202F
    || r == 0x205F
    || r == 0x3000

-- Each byte with whether it belongs to a white space rune; the first `k` bytes belong to a rune that
-- began before, which is white space if `sp` holds.
unfoldable pub mark_spaces : ℕ → Bool → Bytes → List (ℕ × Bool)
mark_spaces k sp [] = []
mark_spaces zero sp (a ∷ s) =
    let (r, w) = decode_rune a s in let is = is_space_rune r in (a, is) ∷ mark_spaces (w - 1) is s
mark_spaces (suc k) sp (a ∷ s) = (a, sp) ∷ mark_spaces k sp s

abbrev flush : Bytes → List Bytes → List Bytes
flush [] ws = ws
flush (c ∷ w) ws = (c ∷ w) ∷ ws

-- The word that reaches up to the start, and the words behind it.
unfoldable pub words : List (ℕ × Bool) → Bytes × List Bytes
words [] = ([], [])
words ((c, sp) ∷ s) = let (w, ws) = words s in if sp then ([], flush w ws) else (c ∷ w, ws)

-- strings.Fields
unfoldable pub fields : Bytes → List Bytes
unfolding mark_spaces words decode_rune
fields s = let (w, ws) = words (mark_spaces 0 false s) in flush w ws

unfoldable pub drop_marked : List (ℕ × Bool) → List (ℕ × Bool)
drop_marked [] = []
drop_marked ((c, sp) ∷ s) = let rest = drop_marked s in if sp then rest else (c, sp) ∷ s

-- The bytes up to the last one that is not white space.
unfoldable pub drop_marked_end : List (ℕ × Bool) → Bytes
drop_marked_end [] = []
drop_marked_end ((c, sp) ∷ s) = elim (drop_marked_end s) [
  | [] ↦ if sp then [] else c ∷ []
  | d ∷ w ↦ c ∷ d ∷ w
]

-- strings.TrimSpace
unfoldable pub trim_space : Bytes → Bytes
unfolding mark_spaces drop_marked drop_marked_end decode_rune
trim_space s = drop_marked_end (drop_marked (mark_spaces 0 false s))

-- What stands behind `p`, if the string begins with it.
unfoldable pub strip_prefix : Bytes → Bytes → Option Bytes
strip_prefix [] s = some s
strip_prefix (c ∷ p) [] = none
strip_prefix (c ∷ p) (d ∷ s) = if c == d then strip_prefix p s else none

-- What stands behind the first occurrence of `p`: s[strings.Index(s, p)+len(p):].
unfoldable pub after_first : Bytes → Bytes → Option Bytes
unfolding strip_prefix
after_first p [] = strip_prefix p []
after_first p (c ∷ s) =
    let later = after_first p s in elim (strip_prefix p (c ∷ s)) [ some r ↦ some r | none ↦ later ]

-- The upper case of a string that is then compared with ASCII text. U+0131 and U+017F are the only
-- runes beyond ASCII with an upper case in ASCII; all others stay different from ASCII text.
abbrev pub upper_rune : ℕ → ℕ
upper_rune r = if r == 0x131 then b'I' else if r == 0x17F then b'S' else to_upper r

unfoldable pub upper : Bytes → List ℕ
unfolding runes
upper s = map upper_rune (runes s)
