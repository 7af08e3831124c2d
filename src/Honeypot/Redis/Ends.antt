-- ===== src/Honeypot/Redis/Ends.antt =====
-- The fuel of the loop over commands is enough.
use vps_safe_dashboard.Prelude.{
  ℕ, zero, suc, ◌+◌, ◌<◌, ◌≡◌, refl, ap, ◌∙◌, sym, ◌||◌, ◌==◌, List, [], ◌∷◌, Bytes, Option, none,
  some, ltb, length, nat_eq, arith,
}
use vps_safe_dashboard.Text.{atoi}
use vps_safe_dashboard.Honeypot.Session.{Action, read_full, with_read}
use vps_safe_dashboard.Honeypot.Session.Rounds.{
  Leaves, Agree, with_read-Agree, Leaves-map, Leaves-weaken, Leaves-chain, Leaves-shorter,
  if_Leaves, read_full-Leaves, rounds, rounds_enough,
}
use vps_safe_dashboard.Honeypot.Lines.{read_line}
use vps_safe_dashboard.Honeypot.Lines.Bounded.{read_line-shorter}
use vps_safe_dashboard.Honeypot.Redis.{
  in_range, read_resp_int, bulk_of, sized_bulk, read_resp_bulk, read_bulks, command_read, array_of,
  inline_of, read_resp_command, redis_command, redis_loop, handle_redis,
}

read_line-Leaves : (s : Bytes) → Leaves (length s) (read_line s)
read_line-Leaves s = Leaves-shorter (length s) (read_line s) (read_line-shorter s)

read_resp_int-Leaves : (s : Bytes) → Leaves (length s) (read_resp_int s)
unfolding read_resp_int
read_resp_int-Leaves s =
    Leaves-map (λ line. in_range (atoi line)) (length s) (read_line s) (read_line-Leaves s)

bulk_of-Leaves : (n k : ℕ) (o : Option (Bytes × Bytes)) → Leaves n o → Leaves n (bulk_of k o)
bulk_of-Leaves n k none h = tt
bulk_of-Leaves n k (some (buf, rest)) h = h

sized_bulk-Leaves : (n : ℕ) (o : Option (ℕ × Bytes)) → Leaves n o → Leaves n (sized_bulk o)
sized_bulk-Leaves n none h = tt
sized_bulk-Leaves n (some (k, rest)) h =
    bulk_of-Leaves n k (read_full (k + 2) rest) (
      Leaves-weaken (suc (length rest)) n (read_full (k + 2) rest) h
        (read_full-Leaves (k + 2) rest))

read_resp_bulk-Leaves : (s : Bytes) → Leaves (length s) (read_resp_bulk s)
unfolding read_resp_bulk
read_resp_bulk-Leaves [] = tt
read_resp_bulk-Leaves (c ∷ s) =
    if_Leaves (suc (length s)) (c == b'$') _ _
      (sized_bulk-Leaves (suc (length s)) (read_resp_int s) (
        Leaves-weaken (length s) (suc (length s)) (read_resp_int s) (omega arith)
          (read_resp_int-Leaves s)))
      (omega arith)

read_bulks-Leaves : (k : ℕ) (s : Bytes) → Leaves (suc (length s)) (read_bulks k s)
unfolding read_bulks
read_bulks-Leaves zero s = omega arith
read_bulks-Leaves (suc k) s =
    Leaves-chain (suc (length s)) (read_resp_bulk s) _
      (Leaves-weaken (length s) (suc (length s)) (read_resp_bulk s) (omega arith)
        (read_resp_bulk-Leaves s))
      (λ x rest h. Leaves-map (◌∷◌ x) (suc (length s)) (read_bulks k rest) (
        Leaves-weaken (suc (length rest)) (suc (length s)) (read_bulks k rest) h
          (read_bulks-Leaves k rest)))

command_read-Leaves :
    (n : ℕ) (o : Option (List Bytes × Bytes)) → Leaves n o → Leaves n (command_read o)
command_read-Leaves n none h = tt
command_read-Leaves n (some (xs, rest)) h = h

array_of-Leaves : (n : ℕ) (o : Option (ℕ × Bytes)) → Leaves n o → Leaves n (array_of o)
array_of-Leaves n none h = tt
array_of-Leaves n (some (k, rest)) h = if_Leaves n (k == 0 || ltb 64 k) _ _ h (
    command_read-Leaves n (read_bulks k rest)
      (Leaves-weaken (suc (length rest)) n (read_bulks k rest) h (read_bulks-Leaves k rest)))

inline_of-Leaves : (n : ℕ) (o : Option (Bytes × Bytes)) → Leaves n o → Leaves n (inline_of o)
inline_of-Leaves n none h = tt
inline_of-Leaves n (some (line, rest)) h = h

read_resp_command-Leaves : (s : Bytes) → Leaves (length s) (read_resp_command s)
unfolding read_resp_command
read_resp_command-Leaves [] = tt
read_resp_command-Leaves (c ∷ s) =
    if_Leaves (suc (length s)) (c == b'*') _ _
      (array_of-Leaves (suc (length s)) (read_resp_int s) (
        Leaves-weaken (length s) (suc (length s)) (read_resp_int s) (omega arith)
          (read_resp_int-Leaves s)))
      (inline_of-Leaves (suc (length s)) (read_line (c ∷ s)) (read_line-Leaves (c ∷ s)))

-- A round, from the writes left and the count.
abbrev command_round : Bytes → ℕ × ℕ → (Bytes → ℕ × ℕ → List Action) → List Action
command_round input (w, count) next =
    with_read (read_resp_command input)
      (λ c rest. redis_command c w count (λ w' n'. next rest (w', n')))

command_round-Agree :
    (input : Bytes) (s : ℕ × ℕ) (next next' : Bytes → ℕ × ℕ → List Action)
    → Agree (length input) next next'
    → command_round input s next ≡ command_round input s next'
command_round-Agree input (w, count) next next' h =
    with_read-Agree (length input) (read_resp_command input) _ _ (read_resp_command-Leaves input)
      (λ c rest shorter. ap (λ q. redis_command c w count (λ w' n'. q (w', n'))) (h rest shorter))

as_rounds :
    (f w count : ℕ) (input : Bytes)
    → redis_loop f w count input ≡ rounds command_round command_round-Agree f input (w, count)
unfolding redis_loop rounds
as_rounds zero w count input = refl
as_rounds (suc f) w count input =
    λ i. command_round input (w, count) (λ rest s. as_rounds f s.0 s.1 rest i)

pub redis_loop_enough :
    (f w : ℕ) (input : Bytes) → length input < f → redis_loop f w 0 input ≡ handle_redis w input
unfolding handle_redis
redis_loop_enough f w input h =
    as_rounds f w 0 input
    ∙ (λ i.
        rounds_enough command_round command_round-Agree f (suc (length input)) input h (omega arith)
          i (w, 0))
    ∙ sym (as_rounds (suc (length input)) w 0 input)
