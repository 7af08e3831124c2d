-- ===== src/Archive/Month/Checked.antt =====
-- What the checks of a copy say of it, and when they pass.
use vps_safe_dashboard.Prelude.{
  ℕ, ◌≡◌, refl, sym, ap, ◌∙◌, true, Bool-cases, inl, inr, ◌&&◌, List, [], ◌∷◌, Bytes, Option, none,
  some, ◌==◌, if◌then◌else◌, map, All, length, arith, Option-cases,
}
use vps_safe_dashboard.Text.{ℤ, pos, negsuc}
use vps_safe_dashboard.Config.Validate.{at_least}
use vps_safe_dashboard.Store.Writer.Retention.{archived_tables}
use vps_safe_dashboard.Archive.Month.{
  File, copy, Env, same_time, rows_in, max_ts, check_rows, check_table, check_tables, copy_tables,
}

same_int : (a b : ℤ) → (at_least a b && at_least b a) ≡ true → a ≡ b
same_int (pos a) (pos b) h = ap (λ (n : ℕ). pos n) (ground arith)
same_int (pos a) (negsuc b) h = cc
same_int (negsuc a) (pos b) h = cc
same_int (negsuc a) (negsuc b) h = ap (λ (n : ℕ). negsuc n) (ground arith)

same_int_refl : (a : ℤ) → (at_least a a && at_least a a) ≡ true
same_int_refl (pos a) = ground arith
same_int_refl (negsuc a) = ground arith

same_time_sound : (a b : Option ℤ) → same_time a b ≡ true → a ≡ b
same_time_sound (some a) (some b) h = ap (λ (n : ℤ). some n) (same_int a b h)
same_time_sound _ _ h = cc

module _ {R : Type 0} (ts : R → ℤ) (month_start : ℕ → ℕ → ℤ) (main : Bytes → List R) where
  -- The copy of a table has as many rows as the database has of the month, and their latest time.
  abbrev pub Matches : List R → List R → Type 0
  Matches rows got =
      (length got ≡ length rows)
      × (max_ts ts month_start main got ≡ max_ts ts month_start main rows)

  -- A copy has all tables, and those match.
  abbrev pub IsWhole : ℕ → ℕ → File R → Type 0
  IsWhole y m f =
      (cs : List (Bytes × List R)) × ((f ≡ copy cs)
        × ((map (λ c. c.0) cs ≡ archived_tables)
            × All (λ c. Matches (rows_in ts month_start main y m c.0) c.1) cs))

  empty_max : (rows got : List R) → length rows ≡ 0 → length rows ≡ length got → Matches rows got
  empty_max [] [] h e = (refl, refl)
  empty_max [] (g ∷ got) h e = absurd (omega arith)
  empty_max (r ∷ rows) got h e = absurd (omega arith)

  module _ (k : Env R) where
    check_rows-Matches :
        (rows got : List R) → check_rows ts month_start main k rows got ≡ none → Matches rows got
    unfolding check_rows
    check_rows-Matches rows got h = elim (Bool-cases (length rows == length got)) [
      | inr ne ↦ absurd cc
      | inl eq ↦ elim (Bool-cases (length rows == 0)) [
        | inl zero ↦ empty_max rows got (ground arith) (ground arith)
        | inr more ↦
            elim (Bool-cases
              (same_time (max_ts ts month_start main rows) (max_ts ts month_start main got))) [
                | inl same ↦ (ground arith, sym (same_time_sound _ _ same))
                | inr differ ↦ absurd cc
              ]
      ]
    ]

    check_table-Matches :
        (y m : ℕ) (t : Bytes) (got : List R)
        → check_table ts month_start main k y m t got ≡ none
        → Matches (rows_in ts month_start main y m t) got
    unfolding check_table
    check_table-Matches y m t got h = elim (Bool-cases (k.query_ok t)) [
      | inl ok ↦ check_rows-Matches (rows_in ts month_start main y m t) got cc
      | inr bad ↦ absurd cc
    ]

    pub check_tables-Matches :
        (y m : ℕ) (cs : List (Bytes × List R))
        → check_tables ts month_start main k y m cs ≡ none
        → All (λ c. Matches (rows_in ts month_start main y m c.0) c.1) cs
    unfolding check_tables
    check_tables-Matches y m [] h = tt
    check_tables-Matches y m ((t, got) ∷ cs) h =
        elim (Option-cases (check_table ts month_start main k y m t got)) [
          | inl e ↦ (check_table-Matches y m t got e, check_tables-Matches y m cs cc)
          | inr (err, e) ↦ absurd cc
        ]

    keys_with :
        (t : Bytes) (o : Option (List R)) (rest : Option (List (Bytes × List R)))
        (tables : List Bytes) (cs : List (Bytes × List R))
        → ((cs' : List (Bytes × List R)) → rest ≡ some cs' → map (λ c. c.0) cs' ≡ tables)
        → (elim o as (λ x. Option (List (Bytes × List R))) [
          | none ↦ none
          | some rows ↦ elim rest as (λ x. Option (List (Bytes × List R))) [
            | none ↦ none
            | some cs' ↦ some ((t, rows) ∷ cs')
          ]
        ])
          ≡ some cs
        → map (λ c. c.0) cs ≡ t ∷ tables
    keys_with t none rest tables cs later h = absurd cc
    keys_with t (some rows) none tables cs later h = absurd cc
    keys_with t (some rows) (some cs') tables cs later h =
        ap
          (λ (o : Option (List (Bytes × List R))). elim o [ none ↦ [] | some l ↦ map (λ c. c.0) l ])
          (sym h)
        ∙ ap (◌∷◌ t) (later cs' refl)

    pub copy_tables_keys :
        (tables : List Bytes) (cs : List (Bytes × List R))
        → copy_tables ts month_start main k tables ≡ some cs
        → map (λ c. c.0) cs ≡ tables
    unfolding copy_tables
    copy_tables_keys [] cs h =
        ap
          (λ (o : Option (List (Bytes × List R))). elim o [ none ↦ [] | some l ↦ map (λ c. c.0) l ])
          (sym h)
    copy_tables_keys (t ∷ tables) cs h =
        keys_with t (k.got t) (copy_tables ts month_start main k tables) tables cs
          (copy_tables_keys tables) h

    -- Where the copies are exact and the queries succeed, all goes well.
    module _ (y m : ℕ) (exact : (t : Bytes) → k.got t ≡ some (rows_in ts month_start main y m t))
        (queried : (t : Bytes) → k.query_ok t ≡ true) where
      pub copy_tables_exact :
          (tables : List Bytes)
          → copy_tables ts month_start main k tables
            ≡ some (map (λ t. (t, rows_in ts month_start main y m t)) tables)
      unfolding copy_tables
      copy_tables_exact [] = refl
      copy_tables_exact (t ∷ tables) = rw (copy_tables, exact t, copy_tables_exact tables) refl

      max_ts-some :
          (r : R) (rows : List R) → (t : ℤ) × (max_ts ts month_start main (r ∷ rows) ≡ some t)
      unfolding max_ts
      max_ts-some r rows = elim (Option-cases (max_ts ts month_start main rows)) [
        | inl e ↦ (ts r, rw (max_ts, e) refl)
        | inr (t, e) ↦ (if at_least t (ts r) then t else ts r, rw (max_ts, e) refl)
      ]

      check_rows_exact : (rows : List R) → check_rows ts month_start main k rows rows ≡ none
      unfolding check_rows
      check_rows_exact [] = ground arith
      check_rows_exact (r ∷ rows) =
          let (t, e) = max_ts-some r rows in rw (e, same_int_refl t) (ground arith)

      pub check_tables_exact :
          (tables : List Bytes)
          → check_tables ts month_start main k y m
              (map (λ t. (t, rows_in ts month_start main y m t)) tables)
            ≡ none
      unfolding check_tables check_table
      check_tables_exact [] = refl
      check_tables_exact (t ∷ tables) =
          rw
            (
              check_tables,
              check_table,
              queried t,
              check_rows_exact (rows_in ts month_start main y m t),
            )
            (check_tables_exact tables)
