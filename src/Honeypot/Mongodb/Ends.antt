-- ===== src/Honeypot/Mongodb/Ends.antt =====
-- The fuel of the loop over messages is enough.
use vps_safe_dashboard.Prelude.{
  ℕ, zero, suc, ◌-◌, ◌<◌, ◌≡◌, refl, ap, ◌∙◌, sym, ◌||◌, List, [], Bytes, Option, none, some, ltb,
  if◌then◌else◌, length, drop, arith,
}
use vps_safe_dashboard.Honeypot.Session.{Action, read_full, with_read}
use vps_safe_dashboard.Honeypot.Session.Rounds.{
  Agree, with_read-Agree, read_full-Leaves, read_full_some-Leaves, rounds, rounds_enough,
}
use vps_safe_dashboard.Honeypot.Wire.{le32}
use vps_safe_dashboard.Honeypot.Mongodb.{
  command_doc, mongo_body, mongo_header, mongo_loop, handle_mongodb,
}

mongo_header-Agree :
    (a b c : Option ℕ) (s : Bytes) (w n : ℕ) (next next' : Bytes → ℕ → ℕ → List Action)
    → ((rest : Bytes) → length rest < suc (length s) → next rest ≡ next' rest)
    → mongo_header a b c s w n next ≡ mongo_header a b c s w n next'
unfolding mongo_header
mongo_header-Agree none b c s w n next next' h = refl
mongo_header-Agree (some len) none c s w n next next' h = refl
mongo_header-Agree (some len) (some id) none s w n next next' h = refl
mongo_header-Agree (some len) (some id) (some op) s w n next next' h =
    ap (λ q. if ltb len 16 || ltb 1048576 len then [] else q)
      (with_read-Agree (suc (length s)) (read_full (len - 16) s) _ _ (read_full-Leaves (len - 16) s)
        (λ body rest k. ap (mongo_body (command_doc op body) id w n) (h rest k)))

-- A round, from the writes left and the count.
abbrev message_round : Bytes → ℕ × ℕ → (Bytes → ℕ × ℕ → List Action) → List Action
message_round input (w, n) next = with_read (read_full 16 input) (λ hdr s.
    mongo_header (le32 hdr) (le32 (drop 4 hdr)) (le32 (drop 12 hdr)) s w n
      (λ rest w' n'. next rest (w', n')))

message_round-Agree :
    (input : Bytes) (s : ℕ × ℕ) (next next' : Bytes → ℕ × ℕ → List Action)
    → Agree (length input) next next'
    → message_round input s next ≡ message_round input s next'
message_round-Agree input (w, n) next next' h =
    with_read-Agree (length input) (read_full 16 input) _ _ (read_full_some-Leaves 15 input)
      (λ hdr s k.
        mongo_header-Agree (le32 hdr) (le32 (drop 4 hdr)) (le32 (drop 12 hdr)) s w n _ _
          (λ rest q. ap (λ g (w' n' : ℕ). g (w', n')) (h rest (omega arith))))

as_rounds :
    (f w n : ℕ) (input : Bytes)
    → mongo_loop f w n input ≡ rounds message_round message_round-Agree f input (w, n)
unfolding mongo_loop rounds
as_rounds zero w n input = refl
as_rounds (suc f) w n input = λ i. message_round input (w, n) (λ rest s. as_rounds f s.0 s.1 rest i)

pub mongo_loop_enough :
    (f w : ℕ) (input : Bytes) → length input < f → mongo_loop f w 0 input ≡ handle_mongodb w input
unfolding handle_mongodb
mongo_loop_enough f w input h =
    as_rounds f w 0 input
    ∙ (λ i.
        rounds_enough message_round message_round-Agree f (suc (length input)) input h (omega arith)
          i (w, 0))
    ∙ sym (as_rounds (suc (length input)) w 0 input)
