-- ===== src/Conn/Loop/GivesUp.antt =====
-- When the loop gives up.
use vps_safe_dashboard.Prelude.{
  ℕ, zero, suc, ◌+◌, ◌≡◌, refl, ◌∙◌, Bool, true, false, ◌&&◌, ◌||◌, Bool-cases, inl, inr, List, [],
  ◌∷◌, All, arith,
}
use vps_safe_dashboard.Conn.Loop.{
  Round, LoopState, Ending, stopped, gave_up, running, record_result, after_error, after_wait,
  run_loop,
}

-- The first `n` rounds are failures to start.
abbrev pub starts_with_fails : ℕ → List Round → Bool
starts_with_fails zero rs = true
starts_with_fails (suc n) [] = false
starts_with_fails (suc n) (r ∷ rs) = r.start_err && starts_with_fails n rs

-- Somewhere three rounds in a row are failures to start.
abbrev pub three_fails_in_a_row : List Round → Bool
three_fails_in_a_row [] = false
three_fails_in_a_row (r ∷ rs) = starts_with_fails 3 (r ∷ rs) || three_fails_in_a_row rs

abbrev pub gives_up : Ending → Bool
gives_up (gave_up n) = true
gives_up stopped = false
gives_up running = false

-- The context is not cancelled in the round.
abbrev pub IsLive : Round → Type 0
IsLive r = (r.done ≡ false) × (r.done_waiting ≡ false)

fails-after_wait : (st : LoopState) → (after_wait st).fails ≡ st.fails
unfolding after_wait
fails-after_wait st = ground arith

fails-after_error : (r : Round) (st : LoopState) → (after_error r st).fails ≡ st.fails
unfolding after_error
fails-after_error r st = ground arith

one_of_two : (rs : List Round) → starts_with_fails 2 rs ≡ true → starts_with_fails 1 rs ≡ true
one_of_two [] h = h
one_of_two (r ∷ rs) h = ground arith

at_the_front : (rs : List Round) → starts_with_fails 3 rs ≡ true → three_fails_in_a_row rs ≡ true
at_the_front [] h = h
at_the_front (r ∷ rs) h = rw h

-- The state in which the next round begins.
unfoldable pub next_state : Round → ℕ → LoopState → LoopState
next_state r fails st = after_wait (after_error r (record st { fails = fails }))

fails-next_state : (r : Round) (n : ℕ) (st : LoopState) → (next_state r n st).fails ≡ n
unfolding next_state
fails-next_state r n st =
    fails-after_wait (after_error r (record st { fails = n }))
    ∙ fails-after_error r (record st { fails = n })

run_loop_step :
    (r : Round) (rs : List Round) (st : LoopState) (n : ℕ)
    → IsLive r
    → record_result st.fails r.start_err ≡ (false, n)
    → run_loop (r ∷ rs) st ≡ run_loop rs (next_state r n st)
unfolding run_loop next_state
run_loop_step r rs st n (live, waits) e = rw (e, live, waits)

run_loop_last :
    (r : Round) (rs : List Round) (st : LoopState) (n : ℕ)
    → IsLive r
    → record_result st.fails r.start_err ≡ (true, n)
    → gives_up (run_loop (r ∷ rs) st).0 ≡ true
unfolding run_loop
run_loop_last r rs st n (live, waits) e = rw (e, live)

-- The claim after one more failure, from the claim for the rounds that are left.
after_failure :
    (r : Round) (rs : List Round) (st : LoopState) (m : ℕ)
    → IsLive r
    → r.start_err ≡ true
    → st.fails + suc m ≡ 3
    → ((n : ℕ)
        → st.fails + 1 + suc n ≡ 3
        → gives_up (run_loop rs (next_state r (st.fails + 1) st)).0
          ≡ starts_with_fails (suc n) rs || three_fails_in_a_row rs)
    → gives_up (run_loop (r ∷ rs) st).0
      ≡ starts_with_fails (suc m) (r ∷ rs) || three_fails_in_a_row (r ∷ rs)
unfolding record_result
after_failure r rs st zero live failed e later =
    run_loop_last r rs st (st.fails + 1) live (ground arith) ∙ ground arith
after_failure r rs st (suc zero) live failed e later =
    rw (run_loop_step r rs st (st.fails + 1) live (ground arith))
      (later 0 (omega arith) ∙ ground (arith, one_of_two rs))
after_failure r rs st (suc (suc zero)) live failed e later =
    rw (run_loop_step r rs st (st.fails + 1) live (ground arith))
      (later 1 (omega arith) ∙ ground arith)
after_failure r rs st (suc (suc (suc n))) live failed e later = absurd (omega arith)

-- With `suc m` failures still to go.
gives_up_from :
    (rs : List Round) (st : LoopState) (m : ℕ)
    → All IsLive rs
    → st.fails + suc m ≡ 3
    → gives_up (run_loop rs st).0 ≡ starts_with_fails (suc m) rs || three_fails_in_a_row rs
gives_up_from [] st m h e = unfold run_loop in refl
gives_up_from (r ∷ rs) st m (live, h) e = elim (Bool-cases r.start_err) [
  | inl failed ↦ after_failure r rs st m live failed e λ n f.
      gives_up_from rs (next_state r (st.fails + 1) st) n h
        (omega (arith, fails-next_state r (st.fails + 1) st))
  | inr ran ↦ rw (run_loop_step r rs st 0 live (unfold record_result in rw ran)) (
      gives_up_from rs (next_state r 0 st) 2 h (omega (arith, fails-next_state r 0 st))
      ∙ ground (arith, at_the_front rs))
]

-- Where the context is never cancelled, the loop, with no failure counted yet, gives up exactly if three rounds in a row fail to
-- start; a round of a listener that had started breaks the row.
pub gives_up_lem :
    (rs : List Round) (st : LoopState)
    → All IsLive rs
    → st.fails ≡ 0
    → gives_up (run_loop rs st).0 ≡ three_fails_in_a_row rs
gives_up_lem rs st h e = gives_up_from rs st 2 h (omega arith) ∙ ground (arith, at_the_front rs)
