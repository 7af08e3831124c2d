-- ===== src/Honeypot/Smb/Ends.antt =====
-- The fuel of the loop over messages is enough.
use vps_safe_dashboard.Prelude.{
  ℕ, zero, suc, ◌*◌, ◌<◌, ◌≡◌, refl, ap, ◌∙◌, sym, ◌==◌, List, [], ◌++◌, Bytes, Option, none, some,
  ltb, if◌then◌else◌, length, take, drop, list_beq, nat_eq, arith, Bool, true, false,
}
use vps_safe_dashboard.Honeypot.Session.{Action, read_full, reply, with_read}
use vps_safe_dashboard.Honeypot.Session.Rounds.{
  Leaves, Agree, with_read-Agree, Leaves-map, Leaves-weaken, Leaves-chain, if_Leaves,
  read_full-Leaves, read_full_some-Leaves, rounds, rounds_enough,
}
use vps_safe_dashboard.Honeypot.Smb.{
  protocol_id, le16_at, negotiate_rest, setup_rest, read_smb2_body, build_smb2_negotiate_response,
  session_setup, smb_command, smb_header, smb_loop, handle_smb,
}

negotiate_rest-Leaves :
    (body : Bytes) (o : Option ℕ) (s : Bytes) → Leaves (suc (length s)) (negotiate_rest body o s)
unfolding negotiate_rest
negotiate_rest-Leaves body none s = tt
negotiate_rest-Leaves body (some n) s =
    if_Leaves (suc (length s)) (ltb 64 n) _ _ tt
      (Leaves-map (λ x. body) (suc (length s)) (read_full (n * 2) s) (read_full-Leaves (n * 2) s))

setup_rest-Leaves :
    (fixed : Bytes) (o : Option ℕ) (s : Bytes) → Leaves (suc (length s)) (setup_rest fixed o s)
unfolding setup_rest
setup_rest-Leaves fixed none s = tt
setup_rest-Leaves fixed (some n) s =
    if_Leaves (suc (length s)) (ltb 65536 n) _ _ tt
      (Leaves-map (λ x. fixed ++ x) (suc (length s)) (read_full n s) (read_full-Leaves n s))

read_smb2_body-Leaves : (cmd : ℕ) (s : Bytes) → Leaves (suc (length s)) (read_smb2_body cmd s)
unfolding read_smb2_body
read_smb2_body-Leaves cmd s =
    let n : ℕ = suc (length s) in
    if_Leaves n (cmd == 0) _ _
      (Leaves-chain n (read_full 28 s) _ (read_full-Leaves 28 s) (λ body t h.
        Leaves-weaken (suc (length t)) n (negotiate_rest body (le16_at 2 body) t) h
          (negotiate_rest-Leaves body (le16_at 2 body) t)))
      (Leaves-chain n (read_full 24 s) _ (read_full-Leaves 24 s) (λ fixed t h.
        Leaves-weaken (suc (length t)) n (setup_rest fixed (le16_at 14 fixed) t) h
          (setup_rest-Leaves fixed (le16_at 14 fixed) t)))

if_same :
    (b : Bool) (x x' y y' : List Action)
    → x ≡ x'
    → y ≡ y'
    → (if b then x else y) ≡ (if b then x' else y')
if_same true x x' y y' e e' = e
if_same false x x' y y' e e' = e'

smb_command-Agree :
    (cmd : ℕ) (msg_id s : Bytes) (w : ℕ) (next next' : Bytes → ℕ → List Action)
    → Agree (suc (length s)) next next'
    → smb_command cmd msg_id s w next ≡ smb_command cmd msg_id s w next'
unfolding smb_command
smb_command-Agree cmd msg_id s w next next' h =
    if_same (cmd == 0) _ _ _ _
      (with_read-Agree (suc (length s)) (read_smb2_body 0 s) _ _ (read_smb2_body-Leaves 0 s)
        (λ body rest k. ap (reply (build_smb2_negotiate_response msg_id) w) (h rest k)))
      (if_same (cmd == 1) _ _ _ _
        (with_read-Agree (suc (length s)) (read_smb2_body 1 s) _ _ (read_smb2_body-Leaves 1 s)
          (λ body rest k.
            ap
              (λ q.
                if ltb (length body) 24
                then []
                else session_setup body (le16_at 12 body) (le16_at 14 body) w q)
              (h rest k)))
        refl)

smb_header-Agree :
    (o : Option ℕ) (hdr s : Bytes) (w : ℕ) (next next' : Bytes → ℕ → List Action)
    → Agree (suc (length s)) next next'
    → smb_header o hdr s w next ≡ smb_header o hdr s w next'
unfolding smb_header
smb_header-Agree none hdr s w next next' h = refl
smb_header-Agree (some cmd) hdr s w next next' h =
    smb_command-Agree cmd (take 8 (drop 20 hdr)) s w next next' h

abbrev message_round : Bytes → ℕ → (Bytes → ℕ → List Action) → List Action
message_round input w next = with_read (read_full 4 input) (λ pid s.
    if list_beq nat_eq pid protocol_id
    then with_read (read_full 60 s) (λ hdr t. smb_header (le16_at 8 hdr) hdr t w next)
    else [])

message_round-Agree :
    (input : Bytes) (w : ℕ) (next next' : Bytes → ℕ → List Action)
    → Agree (length input) next next'
    → message_round input w next ≡ message_round input w next'
message_round-Agree input w next next' h =
    with_read-Agree (length input) (read_full 4 input) _ _ (read_full_some-Leaves 3 input)
      (λ pid s k.
        if_same (list_beq nat_eq pid protocol_id) _ _ _ _
          (with_read-Agree (length s) (read_full 60 s) _ _ (read_full_some-Leaves 59 s) (λ hdr t j.
            smb_header-Agree (le16_at 8 hdr) hdr t w next next' (λ rest q. h rest (omega arith))))
          refl)

as_rounds :
    (f w : ℕ) (input : Bytes)
    → smb_loop f w input ≡ rounds message_round message_round-Agree f input w
unfolding smb_loop rounds
as_rounds zero w input = refl
as_rounds (suc f) w input = λ i. message_round input w (λ rest w'. as_rounds f w' rest i)

pub smb_loop_enough :
    (f w : ℕ) (input : Bytes) → length input < f → smb_loop f w input ≡ handle_smb w input
unfolding handle_smb
smb_loop_enough f w input h =
    as_rounds f w input
    ∙ (λ i.
        rounds_enough message_round message_round-Agree f (suc (length input)) input h (omega arith)
          i w)
    ∙ sym (as_rounds (suc (length input)) w input)
