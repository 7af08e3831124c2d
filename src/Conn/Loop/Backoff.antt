-- ===== src/Conn/Loop/Backoff.antt =====
-- The wait between two rounds, and the size of the buffer.
use vps_safe_dashboard.Prelude.{
  ℕ, zero, suc, ◌+◌, ◌*◌, ◌^◌, ◌≤◌, ◌≡◌, ◌∙◌, refl, ap, List, [], ◌∷◌, min, Option, ltb,
  if◌then◌else◌, length, arith,
}
use vps_safe_dashboard.Event.{Chan, SystemEvent}
use vps_safe_dashboard.Conn.Loop.{
  Round, LoopState, Message, running, second, netlink_buffer_max, record_result, after_error,
  after_wait, run_loop, loop_start,
}
use vps_safe_dashboard.Conn.Loop.GivesUp.{next_state}

running_step :
    (r : Round) (rs : List Round) (st : LoopState)
    → (run_loop (r ∷ rs) st).0 ≡ running
    → run_loop (r ∷ rs) st ≡ run_loop rs (next_state r (record_result st.fails r.start_err).1 st)
unfolding run_loop next_state
running_step r rs st h = ground arith

-- The wait after `k` rounds.
abbrev pub wait : ℕ → ℕ
wait k = second * 2 ^ (1 + min 4 k)

double_wait : (k : ℕ) → (if ltb (wait k) (30 * second) then wait k * 2 else wait k) ≡ wait (suc k)
double_wait zero = refl
double_wait (suc zero) = refl
double_wait (suc (suc zero)) = refl
double_wait (suc (suc (suc zero))) = refl
double_wait (suc (suc (suc (suc k)))) =
    let e : min 4 (suc (suc (suc (suc k)))) ≡ 4 = omega arith in
    let e' : min 4 (suc (suc (suc (suc (suc k))))) ≡ 4 = omega arith in rw (e, e')

backoff-after_error : (r : Round) (st : LoopState) → (after_error r st).backoff ≡ st.backoff
unfolding after_error
backoff-after_error r st = ground arith

backoff-after_wait_lem :
    (st : LoopState)
    → (after_wait st).backoff
      ≡ (if ltb st.backoff (30 * second) then st.backoff * 2 else st.backoff)
unfolding after_wait
backoff-after_wait_lem st = ground arith

backoff-after_wait :
    (st : LoopState) (k : ℕ) → st.backoff ≡ wait k → (after_wait st).backoff ≡ wait (suc k)
backoff-after_wait st k e = backoff-after_wait_lem st ∙ rw e (double_wait k)

backoff-next_state :
    (r : Round) (n k : ℕ) (st : LoopState)
    → st.backoff ≡ wait k
    → (next_state r n st).backoff ≡ wait (suc k)
unfolding next_state
backoff-next_state r n k st e =
    backoff-after_wait (after_error r (record st { fails = n })) k
      (backoff-after_error r (record st { fails = n }) ∙ e)

buf_size-next_state :
    (r : Round) (n : ℕ) (st : LoopState)
    → st.buf_size ≤ netlink_buffer_max
    → (next_state r n st).buf_size ≤ netlink_buffer_max
unfolding next_state after_wait after_error
buf_size-next_state r n st h = ground arith

running_from :
    (rs : List Round) (st : LoopState) (k : ℕ)
    → (run_loop rs st).0 ≡ running
    → st.backoff ≡ wait k
    → st.buf_size ≤ netlink_buffer_max
    → ((run_loop rs st).1.backoff ≡ wait (k + length rs))
      × ((run_loop rs st).1.buf_size ≤ netlink_buffer_max)
running_from [] st k h e l = unfold run_loop in (e ∙ ap wait (omega arith), l)
running_from (r ∷ rs) st k h e l =
    let n : ℕ = (record_result st.fails r.start_err).1 in
    let step : run_loop (r ∷ rs) st ≡ run_loop rs (next_state r n st) = running_step r rs st h in
    let ih : ((run_loop rs (next_state r n st)).1.backoff ≡ wait (suc k + length rs))
        × ((run_loop rs (next_state r n st)).1.buf_size ≤ netlink_buffer_max) =
      running_from rs (next_state r n st) (suc k) (rw step at h) (backoff-next_state r n k st e)
        (buf_size-next_state r n st l) in
    rw step (ih.0 ∙ ap wait (omega arith), ih.1)

-- Of a loop that begins with a buffer within the limit and has not returned after its rounds: the
-- wait after 0, 1, 2, 3 rounds is 2, 4, 8, 16 seconds, and 32 after four or more; and the buffer is
-- within its limit.
pub backoff_lem :
    (rs : List Round) (buf_size : ℕ) (sys : Option (Chan (SystemEvent Message)))
    → buf_size ≤ netlink_buffer_max
    → (run_loop rs (loop_start buf_size sys)).0 ≡ running
    → ((run_loop rs (loop_start buf_size sys)).1.backoff ≡ second * 2 ^ (1 + min 4 (length rs)))
      × ((run_loop rs (loop_start buf_size sys)).1.buf_size ≤ netlink_buffer_max)
backoff_lem rs buf_size sys h k =
    let (waits, fits) = running_from rs (loop_start buf_size sys) 0 k refl h in
    (waits ∙ ap wait (omega arith), fits)
