-- ===== src/Conn/Loop.antt =====
-- internal/conn/conn.go: runConntrackLoop with connStartTracker, which starts the conntrack listener
-- over and over, and gives up after three failures to start in a row. A round is what `once` returned
-- and what the context and the clock said.
pub mod GivesUp
pub mod Backoff
use vps_safe_dashboard.Prelude.{
  ℕ, ◌+◌, ◌*◌, Bool, true, false, List, [], ◌∷◌, Option, none, some, ltb, leb, if◌then◌else◌,
}
use vps_safe_dashboard.Event.{SystemEvent, Chan, Source, Level, RateLimiter, report}

abbrev pub max_conntrack_start_fails : ℕ
max_conntrack_start_fails = 3

abbrev pub netlink_buffer_max : ℕ
netlink_buffer_max = 8 * 1024 * 1024

-- A second, in nanoseconds.
abbrev pub second : ℕ
second = 1000000000

-- The texts of the two warnings, with the failures so far and the wait that is announced.
pub data Message : Type 0 where
  start_failed : ℕ → ℕ → Message
  restarting : ℕ → Message

unfoldable pub record_result : ℕ → Bool → Bool × ℕ
record_result fails is_start_err =
    if is_start_err then (leb max_conntrack_start_fails (fails + 1), fails + 1) else (false, 0)

-- `start_err` tells an error of Open or Register from one of the running listener; `done` and
-- `done_waiting` say that the context was cancelled when `once` returned, and during the wait.
pub record Round : Type 0 where
  pub start_err : Bool
  pub done : Bool
  pub done_waiting : Bool
  pub t1 : ℕ
  pub t2 : ℕ
  pub t3 : ℕ

pub record LoopState : Type 0 where
  pub backoff : ℕ
  pub buf_size : ℕ
  pub fails : ℕ
  pub rep : RateLimiter
  pub sys : Option (Chan (SystemEvent Message))

-- `stopped` is the return of nil; `gave_up` that of the error; `running` is a loop that has gone
-- through all the rounds that are given and not returned.
pub data Ending : Type 0 where
  stopped : Ending
  gave_up : ℕ → Ending
  running : Ending

abbrev warn : Round → Message → LoopState → LoopState
warn r m st =
    let (rep, sys) = report r.t1 r.t2 r.t3 Source.conntrack Level.warn m (st.rep, st.sys) in
    record st { rep = rep; sys = sys }

-- bufSize *= 2, up to the limit
abbrev pub enlarge : ℕ → ℕ
enlarge n = if ltb netlink_buffer_max (n * 2) then netlink_buffer_max else n * 2

-- What a failed round changes before the wait.
unfoldable pub after_error : Round → LoopState → LoopState
after_error r st =
    if r.start_err
    then warn r (start_failed st.fails st.backoff) st
    else (let warned = warn r (restarting st.backoff) st in
        record warned { buf_size = enlarge warned.buf_size })

unfoldable pub after_wait : LoopState → LoopState
after_wait st = if ltb st.backoff (30 * second) then record st { backoff = st.backoff * 2 } else st

unfoldable pub run_loop : List Round → LoopState → Ending × LoopState
run_loop [] st = (running, st)
run_loop (r ∷ rs) st =
    let (give_up, fails) = record_result st.fails r.start_err in
    let counted : LoopState = record st { fails = fails } in
    let failed = after_error r counted in
    let later = run_loop rs (after_wait failed) in
    if r.done
    then (stopped, st)
    else if give_up
    then (gave_up fails, counted)
    else if r.done_waiting
    then (stopped, failed)
    else later

abbrev pub loop_start : ℕ → Option (Chan (SystemEvent Message)) → LoopState
loop_start buf_size sys = record {
  backoff = 2 * second;
  buf_size = buf_size;
  fails = 0;
  rep = record { last = 0; limit = 300 * second };
  sys = sys;
}
