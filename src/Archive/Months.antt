-- ===== src/Archive/Months.antt =====
-- internal/archive/archive.go: the text of a month, and the list of the months that are archived.
pub mod Recorded
use vps_safe_dashboard.Prelude.{
  ℕ, Bool, true, false, ◌||◌, not, List, [], ◌∷◌, ◌++◌, Bytes, Option, none, some, ltb, ◌==◌, any,
  if◌then◌else◌, list_beq, nat_eq,
}
use vps_safe_dashboard.Text.{dec_value, split}

abbrev pub in_year : Option ℕ → Option ℕ → Option (ℕ × ℕ)
in_year (some y) (some m) = if ltb m 1 || ltb 12 m then none else some (y, m)
in_year _ _ = none

-- YYYY-MM: strings.SplitN cuts at the first '-', and the parts have four and two bytes. A byte beyond
-- ASCII belongs to a rune that is no digit.
unfoldable pub parse_month : Bytes → Option (ℕ × ℕ)
unfolding dec_value
parse_month (a ∷ b ∷ c ∷ d ∷ e ∷ f ∷ g ∷ []) =
    if e == b'-'
    then in_year (dec_value 0 (a ∷ b ∷ c ∷ d ∷ [])) (dec_value 0 (f ∷ g ∷ []))
    else none
parse_month s = none

-- strings.Join(ws, ",")
unfoldable pub join_comma : List Bytes → Bytes
join_comma [] = []
join_comma (w ∷ []) = w
join_comma (w ∷ v ∷ ws) = w ++ b',' ∷ join_comma (v ∷ ws)

-- The value of copied_months; `none` for a missing row.
unfoldable pub copied_months : Option Bytes → List Bytes
copied_months none = []
copied_months (some []) = []
copied_months (some (c ∷ s)) = split b',' (c ∷ s)

unfoldable pub contains_month : List Bytes → Bytes → Bool
contains_month [] month = false
contains_month (m ∷ copied) month = list_beq nat_eq m month || contains_month copied month

-- The months other than this one.
unfoldable pub remain : List Bytes → Bytes → List Bytes
remain [] month = []
remain (m ∷ copied) month =
    let rest = remain copied month in if list_beq nat_eq m month then rest else m ∷ rest
