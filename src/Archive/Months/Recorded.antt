-- ===== src/Archive/Months/Recorded.antt =====
-- A month that is recorded is read back, one that is removed is not.
use vps_safe_dashboard.Prelude.{
  ℕ, ◌≡◌, ◌≢◌, refl, ap, ◌∙◌, Bool, true, false, Bool-cases, inl, inr, List, [], ◌∷◌, ◌++◌, Bytes,
  Option, none, some, ◌==◌, if◌then◌else◌, list_beq, list_beq_iff, nat_eq, All, All-append, arith,
  List-cases,
}
use vps_safe_dashboard.Text.{split, dec_value}
use vps_safe_dashboard.Text.Split.{Lacks, split_word, split-append}
use vps_safe_dashboard.Archive.Months.{
  parse_month, join_comma, copied_months, contains_month, remain,
}

abbrev LacksComma : Bytes → Type 0
LacksComma w = Lacks b',' w

split-join_comma :
    (w : Bytes) (ws : List Bytes)
    → All LacksComma (w ∷ ws)
    → split b',' (join_comma (w ∷ ws)) ≡ w ∷ ws
unfolding join_comma
split-join_comma w [] h = split_word b',' w h.0
split-join_comma w (v ∷ ws) h =
    split-append b',' w (join_comma (v ∷ ws)) h.0 ∙ ap (◌∷◌ w) (split-join_comma v ws h.1)

split-LacksComma : (s : Bytes) → All LacksComma (split b',' s)
unfolding split
split-LacksComma [] = (tt, tt)
split-LacksComma (c ∷ s) = pushed c (split b',' s) (c == b',') refl (split-LacksComma s)
  where
    pushed :
        (c : ℕ) (ws : List Bytes) (b : Bool)
        → (c == b',') ≡ b
        → All LacksComma ws
        → All LacksComma
            (if b then [] ∷ ws else elim ws [ [] ↦ (c ∷ []) ∷ [] | w ∷ vs ↦ (c ∷ w) ∷ vs ])
    pushed c ws true e h = (tt, h)
    pushed c [] false e h = ((e, tt), tt)
    pushed c (w ∷ vs) false e h = ((e, h.0), h.1)

copied_months-LacksComma : (o : Option Bytes) → All LacksComma (copied_months o)
unfolding copied_months
copied_months-LacksComma none = tt
copied_months-LacksComma (some []) = tt
copied_months-LacksComma (some (c ∷ s)) = split-LacksComma (c ∷ s)

-- What a joined list is read back as, if it does not join to nothing.
read_joined :
    (w : Bytes) (ws : List Bytes)
    → All LacksComma (w ∷ ws)
    → join_comma (w ∷ ws) ≢ []
    → copied_months (some (join_comma (w ∷ ws))) ≡ w ∷ ws
unfolding copied_months
read_joined w ws h n = text (join_comma (w ∷ ws)) n (split-join_comma w ws h)
  where
    text : (s : Bytes) → s ≢ [] → split b',' s ≡ w ∷ ws → copied_months (some s) ≡ w ∷ ws
    text [] n e = absurd (n refl)
    text (c ∷ s) n e = e

contains_last : (ws : List Bytes) (month : Bytes) → contains_month (ws ++ month ∷ []) month ≡ true
unfolding contains_month
contains_last [] month = rw ((list_beq_iff nat_eq month month).1 refl) refl
contains_last (w ∷ ws) month = ground (arith, contains_last ws month)

contains-remain : (ws : List Bytes) (month : Bytes) → contains_month (remain ws month) month ≡ false
unfolding contains_month remain
contains-remain [] month = refl
contains-remain (w ∷ ws) month = ground (arith, contains-remain ws month)

remain-LacksComma :
    (ws : List Bytes) (month : Bytes) → All LacksComma ws → All LacksComma (remain ws month)
unfolding remain
remain-LacksComma [] month h = tt
remain-LacksComma (w ∷ ws) month h = elim (Bool-cases (list_beq nat_eq w month)) [
  | inl e ↦ rw e (remain-LacksComma ws month h.1)
  | inr e ↦ rw e (h.0, remain-LacksComma ws month h.1)
]

abbrev pub recorded : Option Bytes → Bytes → Bool
recorded o month = contains_month (copied_months o) month

month-LacksComma : (month : Bytes) (y m : ℕ) → parse_month month ≡ some (y, m) → LacksComma month
unfolding parse_month dec_value
month-LacksComma (a ∷ b ∷ c ∷ d ∷ e ∷ f ∷ g ∷ []) y m h = ground arith
month-LacksComma _ y m h = absurd cc

comma_text : (w s : Bytes) → w ++ b',' ∷ s ≢ []
comma_text [] s h = cc
comma_text (c ∷ w) s h = cc

join_comma_text :
    (ws : List Bytes) (month : Bytes) → month ≢ [] → join_comma (ws ++ month ∷ []) ≢ []
unfolding join_comma
join_comma_text [] month n h = n h
join_comma_text (w ∷ []) month n h = comma_text w month h
join_comma_text (w ∷ v ∷ ws) month n h = comma_text w (join_comma (v ∷ (ws ++ month ∷ []))) h

month_text : (month : Bytes) (y m : ℕ) → parse_month month ≡ some (y, m) → month ≢ []
unfolding parse_month
month_text [] y m h = absurd cc
month_text (c ∷ s) y m h = λ p. cc

-- A month that is appended is read back.
recorded_last :
    (ws : List Bytes) (month : Bytes)
    → All LacksComma (ws ++ month ∷ [])
    → join_comma (ws ++ month ∷ []) ≢ []
    → recorded (some (join_comma (ws ++ month ∷ []))) month ≡ true
recorded_last [] month h n = rw (read_joined month [] h n) (contains_last [] month)
recorded_last (w ∷ ws) month h n =
    rw (read_joined w (ws ++ month ∷ []) h n) (contains_last (w ∷ ws) month)

pub recorded-append :
    (o : Option Bytes) (month : Bytes) (y m : ℕ)
    → parse_month month ≡ some (y, m)
    → recorded (some (join_comma (copied_months o ++ month ∷ []))) month ≡ true
recorded-append o month y m h =
    recorded_last (copied_months o) month
      (All-append LacksComma (copied_months o) (month ∷ []) (copied_months-LacksComma o)
        (month-LacksComma month y m h, tt))
      (join_comma_text (copied_months o) month (month_text month y m h))

-- What is joined, if it is read back at all, is the list.
not_recorded :
    (ws : List Bytes) (month : Bytes)
    → All LacksComma ws
    → contains_month ws month ≡ false
    → recorded (some (join_comma ws)) month ≡ false
not_recorded [] month h e = unfold copied_months join_comma contains_month in refl
not_recorded (w ∷ ws) month h e = elim (List-cases (join_comma (w ∷ ws))) [
  | inl p ↦ rw p (unfold copied_months contains_month in refl)
  | inr (c, s, p) ↦ rw (read_joined w ws h (λ q. cc)) e
]

pub recorded-remain :
    (o : Option Bytes) (month : Bytes)
    → recorded (some (join_comma (remain (copied_months o) month))) month ≡ false
recorded-remain o month =
    not_recorded (remain (copied_months o) month) month
      (remain-LacksComma (copied_months o) month (copied_months-LacksComma o))
      (contains-remain (copied_months o) month)
