-- ===== src/Honeypot/Ftp/Ends.antt =====
-- The fuel of the FTP loop is enough.
use vps_safe_dashboard.Prelude.{
  ℕ, zero, suc, ◌<◌, ◌≡◌, refl, ap, List, Bytes, Option, none, some, length, arith,
}
use vps_safe_dashboard.Honeypot.Session.{Action, with_read}
use vps_safe_dashboard.Honeypot.Lines.{read_line}
use vps_safe_dashboard.Honeypot.Lines.Bounded.{read_line-shorter}
use vps_safe_dashboard.Honeypot.Ftp.{command_of, split_command, ftp_command, ftp_loop}

-- The loop on an input, by the writes left, the pending user and the count.
abbrev loop_on : ℕ → Bytes → ℕ → Bytes → ℕ → List Action
loop_on f input w user n = ftp_loop f w user n input

same_after :
    (f g : ℕ) (input : Bytes) (o : Option (Bytes × Bytes)) (w : ℕ) (user : Bytes) (n : ℕ)
    → read_line input ≡ o
    → ((rest : Bytes) → length rest < length input → loop_on f rest ≡ loop_on g rest)
    → with_read o (λ line rest.
      ftp_command
        (command_of (split_command line).0)
        (split_command line).1
        w
        user
        n
        (loop_on f rest))
      ≡ with_read o (λ line rest.
        ftp_command
          (command_of (split_command line).0)
          (split_command line).1
          w
          user
          n
          (loop_on g rest))
same_after f g input none w user n e same = refl
same_after f g input (some (line, rest)) w user n e same =
    ap (ftp_command (command_of (split_command line).0) (split_command line).1 w user n)
      (same rest (read_line-shorter input line rest e))

same_loop :
    (f g : ℕ) (input : Bytes)
    → length input < f
    → length input < g
    → loop_on f input ≡ loop_on g input
unfolding ftp_loop
same_loop zero g input h k = absurd (omega arith)
same_loop (suc f) zero input h k = absurd (omega arith)
same_loop (suc f) (suc g) input h k = λ i w user n.
    same_after f g input (read_line input) w user n refl
      (λ rest shorter. same_loop f g rest (omega arith) (omega arith)) i

-- Fuel above the number of bytes that the client sends is enough: more of it does not change what the
-- loop does.
pub ftp_loop_enough :
    (f w n : ℕ) (user input : Bytes)
    → length input < f
    → ftp_loop f w user n input ≡ ftp_loop (suc (length input)) w user n input
ftp_loop_enough f w n user input h =
    λ i. same_loop f (suc (length input)) input h (omega arith) i w user n
